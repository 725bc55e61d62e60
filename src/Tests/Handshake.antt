-- ===== src/Tests/Handshake.antt =====
-- The two sides of the control channel at concrete inputs.
use qcp.Channel.Opening.{wait_for_banner, timeout, closed, timed_out, unsupported_old}
use qcp.Prelude.{◌≡◌, refl, true, false, none, some, [], ◌∷◌, ok, err, is_ok, All, if◌then◌else◌}
use qcp.Prelude.Text.{codes}
use qcp.Protocol.Variant.{coerce_unsigned}
use qcp.Protocol.DataTag.{TaggedData, find_tag, with_bytes, with_unsigned}
use qcp.Protocol.Compat.{level, cmsg_smsg_2, supports}
use qcp.Protocol.Control.{
  CredentialsType, any, raw_public_key, credentials_tag, ConnectionType, client_to_server,
  ClientMessage2Attributes, congestion_from_repr, client_attribute2_tag,
}
use qcp.Protocol.Control.ClientMsg as Request
use qcp.Protocol.Control.ClientMsg.{ClientMessage, ClientMessageV2, rx_bw, some_nonzero}
use qcp.Protocol.Control.ClientMsg.Upgrade.{asked, request_for, search}
use qcp.Protocol.Control.ServerMsg.{ServerMessage}
use qcp.Protocol.Control.ServerMsg.Agreement.{Agree}
use qcp.Config.{Configuration, validate}
use qcp.Transport.{
  incompatible_congestion, combine_bandwidth_configurations, number, short, client_congestion,
  client_ports, congestion_eq,
}
use qcp.Channel.{
  negotiation, Server, run_server_inner, client_finish, controller_known, client_send_message,
}
use qcp.Channel.Cert.{Credentials, to_tagged_data}
use qcp.Channel.Outcome.{run_server_inner-Agree, run_server_inner_failure}
use qcp.Channel.Sending.{client_send_message-received}
use qcp.Tests.Setup.{limited, wants, wants_bbr, credentials, settled, receiver}

abbrev keys : Credentials
keys = record {
  certificate = 1 ∷ 2 ∷ [];
  as_raw_public_key = some (3 ∷ []);
  hostname = codes "host";
}

abbrev key_sent : TaggedData CredentialsType
unfolding with_bytes
key_sent = with_bytes raw_public_key (3 ∷ [])

made : to_tagged_data keys (level 4) none ≡ ok key_sent
unfolding to_tagged_data with_bytes supports
made = refl

abbrev host : Server
host = record {
  reread = λ n. n;
  describe = λ e. [];
  tls_auth_type = any;
  generate = some keys;
  create_endpoint = λ theirs message config mode compat. ok (4000, none);
}

served :
    (run_server_inner host (level 4) (some limited) (some (Request.v2 wants))).result ≡ ok settled
unfolding run_server_inner combine_bandwidth_configurations wants find_tag coerce_unsigned
    congestion_from_repr validate credentials number short client_congestion client_ports
served = refl

run_server_inner-Agree_example :
    (m : ServerMessage) × (client : Configuration) × ((run_server_inner host
        (level 4)
        (some limited)
        (some (Request.v2 wants))).sent
      ≡ m ∷ [])
    × (client_finish (some receiver) m ≡ ok client)
    × Agree receiver settled client
run_server_inner-Agree_example =
    run_server_inner-Agree host (level 4) (some limited) (some (Request.v2 wants)) settled receiver
      served tt tt tt

declined :
    (run_server_inner host (level 4) (some limited) (some (Request.v2 wants_bbr))).result
    ≡ err (negotiation incompatible_congestion)
unfolding run_server_inner combine_bandwidth_configurations wants_bbr find_tag coerce_unsigned
    congestion_from_repr credentials number short client_congestion congestion_eq
declined = refl

run_server_inner_failure_example :
    All
      (λ m. is_ok (client_finish (some receiver) m) ≡ false)
      (run_server_inner host (level 4) (some limited) (some (Request.v2 wants_bbr))).sent
run_server_inner_failure_example =
    run_server_inner_failure host (level 4) (some limited) (some (Request.v2 wants_bbr))
      (negotiation incompatible_congestion) (some receiver) declined

request_sent : ClientMessage
unfolding with_unsigned with_bytes
request_sent = Request.v2 record {
  credentials = key_sent;
  connection_type = ConnectionType.ipv4;
  attributes =
      with_unsigned ClientMessage2Attributes.bandwidth_to_server 3000000
      ∷ with_unsigned ClientMessage2Attributes.bandwidth_to_client 3000000
      ∷ with_unsigned ClientMessage2Attributes.round_trip_time 50
      ∷ with_unsigned ClientMessage2Attributes.direction_of_travel 1
      ∷ [];
  extension = 0;
}

request_made :
    client_send_message (level 4) keys ConnectionType.ipv4 false none receiver client_to_server
    ≡ ok request_sent
unfolding client_send_message request_sent with_bytes with_unsigned supports
request_made = refl

client_send_message-received_example :
    (controller_known (level 4) receiver.congestion ≡ true)
    × (search ClientMessage2Attributes.round_trip_time (Request.received request_sent)
        ≡ asked
            (request_for
              (if supports (level 4) cmsg_smsg_2 then rx_bw receiver else some_nonzero receiver.tx)
              false
              receiver
              client_to_server)
            ClientMessage2Attributes.round_trip_time)
client_send_message-received_example =
    client_send_message-received (level 4) keys ConnectionType.ipv4 false none receiver
      client_to_server request_sent ClientMessage2Attributes.round_trip_time request_made

-- An old server, and one that stops in the middle of its banner.
old_server : wait_for_banner closed (codes "qcp-server-1\n") ≡ err unsupported_old
unfolding wait_for_banner
old_server = refl

stuck_server : wait_for_banner timeout (codes "qcp-s") ≡ err timed_out
unfolding wait_for_banner
stuck_server = refl
