-- ===== src/Tests/Setup.antt =====
-- The control messages, the negotiation and the validation at concrete inputs.
use qcp.Prelude.{◌*◌, ◌/◌, ◌≡◌, ◌↔◌, refl, true, false, none, some, [], ◌∷◌, if◌then◌else◌, ok, err}
use qcp.Prelude.Text.{codes}
use qcp.Protocol.Variant.{string, coerce_unsigned, into_bytes}
use qcp.Protocol.DataTag.{TaggedData, with_bytes, with_unsigned, find_tag}
use qcp.Protocol.DataTag.Laws.{sent}
use qcp.Protocol.Compat.{level, cmsg_smsg_2, supports}
use qcp.Protocol.Control.{
  cubic, bbr, CredentialsType, ConnectionType, client_to_server, ClientMessage2Attributes,
  congestion_from_repr, credentials_tag, client_attribute2_tag,
}
use qcp.Protocol.Control.ClientMsg.{ClientMessageV1, ClientMessageV2, rx_bw, some_nonzero}
use qcp.Protocol.Control.ClientMsg.Upgrade as ClientSide
use qcp.Protocol.Control.ServerMsg.{non_empty}
use qcp.Protocol.Control.ServerMsg.Layers as ServerSide
use qcp.Protocol.Control.ServerMsg.Agreement.{client_view, Agree, delivered-Agree}
use qcp.Config.{
  Configuration, ConfigurationOptional, system_default, validate, recv_window, send_window, rx, tx,
}
use qcp.Config.Bounds.{IsUsable, validate-IsUsable, validate-windows}
use qcp.Transport.{
  incompatible_congestion, combine_bandwidth_configurations, number, short, client_congestion,
  client_ports, congestion_eq,
}
use qcp.Transport.Parameters.{IsWithin}
use qcp.Util.PortRange.{IsValid}
use qcp.Transport.Resolution.{
  Resolved, combine_bandwidth_configurations-Resolved, combine_bandwidth_configurations_bounds,
}
use qcp.Transport.Errors.{Cause, combine_bandwidth_configurations-Cause}

abbrev pub unset : ConfigurationOptional
unset = record {
  rx = none;
  tx = none;
  rtt = none;
  congestion = none;
  initial_congestion_window = none;
  port = none;
  remote_port = none;
  timeout = none;
  udp_buffer = none;
  initial_mtu = none;
  min_mtu = none;
  max_mtu = none;
}

-- A server that limits its bandwidth and prefers a controller.
abbrev pub limited : ConfigurationOptional
limited = record unset { rx = some 1000000; tx = some 2000000; congestion = some cubic }

unfoldable pub credentials : TaggedData CredentialsType
unfolding with_bytes
credentials = with_bytes CredentialsType.x509 (1 ∷ 2 ∷ [])

-- A request for more than the server has, and for a shorter round trip.
unfoldable pub wants : ClientMessageV2
unfolding with_unsigned credentials
wants = record {
  credentials = credentials;
  connection_type = ConnectionType.ipv4;
  attributes =
      with_unsigned ClientMessage2Attributes.bandwidth_to_server 5000000
      ∷ with_unsigned ClientMessage2Attributes.round_trip_time 100
      ∷ [];
  extension = 0;
}

-- A request for another controller.
unfoldable pub wants_bbr : ClientMessageV2
unfolding with_unsigned credentials
wants_bbr = record {
  credentials = credentials;
  connection_type = ConnectionType.ipv4;
  attributes = with_unsigned ClientMessage2Attributes.congestion_controller_type 1 ∷ [];
  extension = 0;
}

abbrev pub settled : Configuration
settled = record system_default { rx_ = 1000000; tx_ = 2000000; rtt = 100 }

negotiated : combine_bandwidth_configurations (λ n. n) (some limited) wants ≡ ok settled
unfolding combine_bandwidth_configurations wants find_tag coerce_unsigned congestion_from_repr
    validate credentials number short client_congestion client_ports
negotiated = refl

combine_bandwidth_configurations-Resolved_example :
    (s : ConfigurationOptional) × (some limited ≡ some s)
    × Resolved s wants.attributes settled
    × IsUsable settled
    × IsValid settled.port
combine_bandwidth_configurations-Resolved_example =
    combine_bandwidth_configurations-Resolved (λ n. n) (λ n. refl) (some limited) wants settled
      negotiated

combine_bandwidth_configurations_bounds_example :
    IsWithin limited.rx settled.rx_
    × IsWithin limited.tx settled.tx_
    × IsWithin (number ClientMessage2Attributes.bandwidth_to_server wants.attributes) settled.rx_
    × IsWithin (number ClientMessage2Attributes.bandwidth_to_client wants.attributes) settled.tx_
combine_bandwidth_configurations_bounds_example =
    combine_bandwidth_configurations_bounds (λ n. n) (λ n. refl) limited wants settled negotiated

refused :
    combine_bandwidth_configurations (λ n. n) (some limited) wants_bbr ≡ err incompatible_congestion
unfolding combine_bandwidth_configurations wants_bbr find_tag coerce_unsigned congestion_from_repr
    credentials number short client_congestion congestion_eq
refused = refl

combine_bandwidth_configurations-Cause_example :
    Cause limited wants_bbr.attributes incompatible_congestion
combine_bandwidth_configurations-Cause_example =
    combine_bandwidth_configurations-Cause (λ n. n) (λ n. refl) limited wants_bbr
      incompatible_congestion refused

bytes_inside : into_bytes credentials.payload ≡ some (1 ∷ 2 ∷ [])
unfolding into_bytes credentials
bytes_inside = refl

-- The client's own settings: a receiver's bandwidth, and no sender's.
abbrev pub receiver : ConfigurationOptional
receiver = record unset { rx = some 3000000; rtt = some 50 }

abbrev first_message : ClientMessageV1
first_message = record {
  cert = [];
  connection_type = ConnectionType.ipv4;
  port = none;
  show_config = true;
  bandwidth_to_server = none;
  bandwidth_to_client = some 3000000;
  rtt = none;
  congestion = some bbr;
  initial_congestion_window = none;
  timeout = none;
  attributes = [];
}

delivered_lem_example :
    ClientSide.search ClientMessage2Attributes.bandwidth_to_server (
      ClientSide.delivered
        (level 4)
        credentials
        ConnectionType.ipv4
        false
        receiver
        client_to_server)
    ≡ ClientSide.asked
        (ClientSide.request_for
          (if supports (level 4) cmsg_smsg_2 then rx_bw receiver else some_nonzero receiver.tx)
          false
          receiver
          client_to_server)
        ClientMessage2Attributes.bandwidth_to_server
delivered_lem_example =
    ClientSide.delivered_lem credentials (1 ∷ 2 ∷ []) bytes_inside ConnectionType.ipv4 false
      receiver client_to_server (level 4) ClientMessage2Attributes.bandwidth_to_server

delivered_warning_example :
    ServerSide.warning_in
      (ServerSide.delivered (level 4) settled 4000 credentials (codes "host") (codes "slow"))
    ≡ (if supports (level 4) cmsg_smsg_2 then none else sent true string (non_empty (codes "slow")))
delivered_warning_example =
    ServerSide.delivered_warning settled 4000 credentials (1 ∷ 2 ∷ []) bytes_inside (codes "host")
      (codes "slow") (level 4)

delivered-Agree_example :
    (client : Configuration) × (client_view receiver (
        ServerSide.layer
          (ServerSide.delivered (level 4) settled 4000 credentials (codes "host") (codes "slow")))
      ≡ some client)
    × Agree receiver settled client
delivered-Agree_example =
    delivered-Agree settled 4000 credentials (1 ∷ 2 ∷ []) bytes_inside (codes "host") (codes "slow")
      (level 4) receiver tt

passes : validate settled ≡ ok settled
unfolding validate
passes = refl

validate-IsUsable_example :
    (validate settled ≡ ok settled) ↔ ((settled ≡ settled) × IsUsable settled)
validate-IsUsable_example = validate-IsUsable settled settled

validate-windows_example :
    (recv_window settled ≡ some (rx settled * 100 / 1000))
    × (send_window settled ≡ some (8 * (tx settled * 100 / 1000)))
validate-windows_example = validate-windows settled settled passes
