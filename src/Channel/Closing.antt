-- ===== src/Channel/Closing.antt =====
-- qcp/src/protocol/control/closedown.rs, and the closedown report on the control channel
-- (qcp/src/control/channel.rs). The statistics of quinn's connection are a record of what is read.
pub mod Report
use qcp.Prelude.{
  ℕ, ◌-◌, ◌^◌, min, ◌≡◌, refl, Bool, Option, none, some, List, [], ◌∷◌, ◌++◌, ◌==◌, if◌then◌else◌,
  Result, ok, err,
}
use qcp.Protocol.Variant.{Variant, unsigned}
use qcp.Protocol.DataTag.{DataTag, TaggedData, with_unsigned, find_tag}

pub data ClosedownReportExtension : Type 0 where
  invalid pmtu rtt : ClosedownReportExtension

abbrev pub extension_to_u64 : ClosedownReportExtension → ℕ
extension_to_u64 invalid = 0
extension_to_u64 pmtu = 1
extension_to_u64 rtt = 2

abbrev pub extension_try_from : ℕ → Option ClosedownReportExtension
extension_try_from n =
    if n == 0 then some invalid else if n == 1 then some pmtu else if n == 2 then some rtt else none

pub extension_try_from-to_u64 :
    (a : ClosedownReportExtension) → extension_try_from (extension_to_u64 a) ≡ some a
extension_try_from-to_u64 invalid = refl
extension_try_from-to_u64 pmtu = refl
extension_try_from-to_u64 rtt = refl

instance abbrev pub extension_tag : DataTag ClosedownReportExtension
extension_tag = record {
  to_u64 = extension_to_u64;
  try_from = extension_try_from;
  try_from-to_u64 = extension_try_from-to_u64;
}

-- The statistics that the report takes; the round trip time in microseconds.
pub record ConnectionStats : Type 0 where
  pub cwnd : ℕ
  pub sent_packets : ℕ
  pub lost_packets : ℕ
  pub lost_bytes : ℕ
  pub congestion_events : ℕ
  pub black_holes_detected : ℕ
  pub udp_tx_bytes : ℕ
  pub rtt_micros : ℕ
  pub current_mtu : ℕ

pub record ClosedownReportV1 : Type 0 where
  pub cwnd : ℕ
  pub sent_packets : ℕ
  pub lost_packets : ℕ
  pub lost_bytes : ℕ
  pub congestion_events : ℕ
  pub black_holes : ℕ
  pub sent_bytes : ℕ
  pub extension : List (TaggedData ClosedownReportExtension)

pub data ClosedownReport : Type 0 where
  unknown : ClosedownReport
  v1 : ClosedownReportV1 → ClosedownReport

abbrev pub push_nonzero :
    ClosedownReportExtension
    → ℕ
    → List (TaggedData ClosedownReportExtension)
    → List (TaggedData ClosedownReportExtension)
unfolding with_unsigned
push_nonzero tag value extension =
    if value == 0 then extension else extension ++ with_unsigned tag value ∷ []

-- `From<&ConnectionStats>`
unfoldable pub report_from : ConnectionStats → ClosedownReportV1
report_from stats = record {
  cwnd = stats.cwnd;
  sent_packets = stats.sent_packets;
  lost_packets = stats.lost_packets;
  lost_bytes = stats.lost_bytes;
  congestion_events = stats.congestion_events;
  black_holes = stats.black_holes_detected;
  sent_bytes = stats.udp_tx_bytes;
  extension =
      push_nonzero pmtu stats.current_mtu (push_nonzero rtt (min stats.rtt_micros (2 ^ 64 - 1)) []);
}

unfoldable pub send_closedown_report : ConnectionStats → ClosedownReport
unfolding report_from
send_closedown_report stats = v1 (report_from stats)

pub data ReportError : Type 0 where
  not_received unknown_report : ReportError

-- What arrives is `none` if nothing does or it does not decode.
unfoldable pub read_closedown_report : Option ClosedownReport → Result ReportError ClosedownReportV1
read_closedown_report none = err not_received
read_closedown_report (some unknown) = err unknown_report
read_closedown_report (some (v1 stats)) = ok stats
