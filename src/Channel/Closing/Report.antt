-- ===== src/Channel/Closing/Report.antt =====
-- What the client learns from the closedown report.
use qcp.Prelude.{
  ◌-◌, ◌^◌, min, ◌≡◌, refl, none, some, ◌==◌, if◌then◌else◌, ok, Bool-cases, inl, inr,
}
use qcp.Protocol.Variant.{unsigned}
use qcp.Protocol.DataTag.{with_unsigned, find_tag}
use qcp.Channel.Closing.{
  pmtu, rtt, extension_tag, ConnectionStats, ClosedownReportV1, report_from, send_closedown_report,
  read_closedown_report,
}

-- The client reads the report of the server. In it the path MTU and the round trip time, cut off at
-- 64 bits, are found where they are not zero, and only there.
pub read_closedown_report-send :
    (stats : ConnectionStats)
    → (r : ClosedownReportV1) × (read_closedown_report (some (send_closedown_report stats)) ≡ ok r)
      × (find_tag pmtu r.extension
          ≡ (if stats.current_mtu == 0 then none else some (unsigned stats.current_mtu)))
      × (find_tag rtt r.extension ≡ (
          if min stats.rtt_micros (2 ^ 64 - 1) == 0
          then none
          else some (unsigned (min stats.rtt_micros (2 ^ 64 - 1)))))
unfolding read_closedown_report send_closedown_report find_tag with_unsigned
read_closedown_report-send stats = elim (Bool-cases (stats.current_mtu == 0)) [
  | inl m ↦ elim (Bool-cases (min stats.rtt_micros (2 ^ 64 - 1) == 0)) [
    | inl r ↦ (report_from stats, refl, rw (m, r) refl, rw (m, r) refl)
    | inr r ↦ (report_from stats, refl, rw (m, r) refl, rw (m, r) refl)
  ]
  | inr m ↦ elim (Bool-cases (min stats.rtt_micros (2 ^ 64 - 1) == 0)) [
    | inl r ↦ (report_from stats, refl, rw (m, r) refl, rw (m, r) refl)
    | inr r ↦ (report_from stats, refl, rw (m, r) refl, rw (m, r) refl)
  ]
]
