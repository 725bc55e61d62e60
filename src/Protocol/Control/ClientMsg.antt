-- ===== src/Protocol/Control/ClientMsg.antt =====
-- qcp/src/protocol/control/client_msg.rs: what the client sends, in its two versions, and the
-- upgrade of the first to the second. A `Uint` is its number.
pub mod Upgrade
use qcp.Prelude.{
  ℕ, ◌≡◌, Bool, true, false, Option, none, some, List, [], ◌∷◌, ◌++◌, ◌==◌, if◌then◌else◌, get_or,
}
use qcp.Protocol.Variant.{Variant, empty, unsigned, into_bytes}
use qcp.Protocol.DataTag.{
  DataTag, TaggedData, from, new, with_bytes, with_unsigned, find_tag, push_some,
}
use qcp.Protocol.Compat.{Compatibility, cmsg_smsg_2, supports}
use qcp.Protocol.Control.{
  CongestionController, congestion_to_u64, ConnectionType, Direction, direction_to_u64,
  CredentialsType, ClientMessageAttributes, ClientMessage2Attributes, credentials_tag,
  client_attribute_tag, client_attribute2_tag,
}
use qcp.Util.PortRange.{PortRange}
use qcp.Config.{ConfigurationOptional}

pub record ClientMessageV1 : Type 0 where
  pub cert : List ℕ
  pub connection_type : ConnectionType
  pub port : Option PortRange
  pub show_config : Bool
  pub bandwidth_to_server : Option ℕ
  pub bandwidth_to_client : Option ℕ
  pub rtt : Option ℕ
  pub congestion : Option CongestionController
  pub initial_congestion_window : Option ℕ
  pub timeout : Option ℕ
  pub attributes : List (TaggedData ClientMessageAttributes)

pub record ClientMessageV2 : Type 0 where
  pub credentials : TaggedData CredentialsType
  pub connection_type : ConnectionType
  pub attributes : List (TaggedData ClientMessage2Attributes)
  pub extension : ℕ

pub data ClientMessage : Type 0 where
  to_follow : ClientMessage
  v1 : ClientMessageV1 → ClientMessage
  v2 : ClientMessageV2 → ClientMessage

abbrev pub flag : Bool → Option (Unit {0})
flag true = some tt
flag false = none

abbrev pub some_nonzero : Option ℕ → Option ℕ
some_nonzero none = none
some_nonzero (some v) = if v == 0 then none else some v

abbrev pub congestion_variant : CongestionController → Variant
unfolding congestion_to_u64
congestion_variant cc = unsigned (congestion_to_u64 cc)

abbrev Attributes : Type 0
Attributes = List (TaggedData ClientMessage2Attributes)

push_ports : Option PortRange → Attributes → Attributes
unfolding push_some
push_ports port attributes =
    push_some ClientMessage2Attributes.port_range_end (λ pr. unsigned pr.end) port
      (push_some ClientMessage2Attributes.port_range_start (λ pr. unsigned pr.begin) port
        attributes)

push_number : ClientMessage2Attributes → Option ℕ → Attributes → Attributes
unfolding push_some
push_number e = push_some e unsigned

-- The pushes that both ways of building a second version share, in their order.
push_parameters :
    Option ℕ
    → Option ℕ
    → Option ℕ
    → Option CongestionController
    → Option ℕ
    → Option ℕ
    → Attributes
    → Attributes
unfolding push_number
push_parameters to_server to_client rtt congestion window timeout attributes =
    push_number ClientMessage2Attributes.quic_timeout timeout (
      push_number ClientMessage2Attributes.initial_congestion_window window (
        push_some ClientMessage2Attributes.congestion_controller_type congestion_variant congestion
          (push_number ClientMessage2Attributes.round_trip_time rtt (
            push_number ClientMessage2Attributes.bandwidth_to_client to_client
              (push_number ClientMessage2Attributes.bandwidth_to_server to_server attributes)))))

-- The bandwidth that the client asks of the server's receiver: `tx`, or `rx` where `tx` is unset.
abbrev pub rx_bw : ConfigurationOptional → Option ℕ
rx_bw c = elim (some_nonzero c.tx) [ none ↦ c.rx | some i ↦ some i ]

push_output_config : Bool → Attributes → Attributes
unfolding push_some
push_output_config remote_config =
    push_some ClientMessage2Attributes.output_config (λ _. empty) (flag remote_config)

unfoldable pub apply_config_attributes :
    Bool → ConfigurationOptional → ClientMessageV2 → ClientMessageV2
unfolding push_parameters push_ports push_output_config
apply_config_attributes remote_config c self = record self {
  attributes =
      push_parameters (rx_bw c) c.rx c.rtt c.congestion c.initial_congestion_window c.timeout
        (push_ports c.remote_port (push_output_config remote_config self.attributes));
}

-- `From<ClientMessageV1> for ClientMessageV2`
unfoldable pub upgrade : ClientMessageV1 → ClientMessageV2
unfolding push_parameters push_ports push_output_config with_bytes find_tag
upgrade m = record {
  credentials = with_bytes CredentialsType.x509 m.cert;
  connection_type = m.connection_type;
  attributes =
      push_some ClientMessage2Attributes.direction_of_travel (λ v. v)
        (find_tag ClientMessageAttributes.direction_of_travel m.attributes)
        (push_parameters m.bandwidth_to_server m.bandwidth_to_client m.rtt m.congestion
          m.initial_congestion_window m.timeout
          (push_output_config m.show_config (push_ports m.port [])));
  extension = 0;
}

-- `ClientMessageV1::new`
new_v1 : List ℕ → ConnectionType → Bool → ConfigurationOptional → ClientMessageV1
new_v1 cert connection_type remote_config c = record {
  cert = cert;
  connection_type = connection_type;
  port = c.remote_port;
  show_config = remote_config;
  bandwidth_to_server = some_nonzero c.tx;
  bandwidth_to_client = c.rx;
  rtt = c.rtt;
  congestion = c.congestion;
  initial_congestion_window = c.initial_congestion_window;
  timeout = c.timeout;
  attributes = [];
}

-- `ClientMessageV2::new`
new_v2 : TaggedData CredentialsType → ConnectionType → ClientMessageV2
new_v2 credentials connection_type = record {
  credentials = credentials;
  connection_type = connection_type;
  attributes = [];
  extension = 0;
}

-- `ClientMessage::new`; `none` is its assertion that the credentials are bytes.
unfoldable pub new_message :
    Compatibility
    → TaggedData CredentialsType
    → ConnectionType
    → Bool
    → ConfigurationOptional
    → Option ClientMessage
unfolding new_v1 new_v2 apply_config_attributes supports into_bytes
new_message compat cert connection_type remote_config c = elim (into_bytes cert.payload) [
  | none ↦ none
  | some cert_bytes ↦ some (
      if supports compat cmsg_smsg_2
      then v2 (apply_config_attributes remote_config c (new_v2 cert connection_type))
      else v1 (new_v1 cert_bytes connection_type remote_config c))
]

unfoldable pub set_direction : Direction → ClientMessage → ClientMessage
unfolding with_unsigned direction_to_u64
set_direction direction to_follow = to_follow
set_direction direction (v1 m) = v1 (record m {
  attributes =
      m.attributes
      ++ with_unsigned ClientMessageAttributes.direction_of_travel (direction_to_u64 direction)
        ∷ [];
})
set_direction direction (v2 m) = v2 (record m {
  attributes =
      m.attributes
      ++ with_unsigned ClientMessage2Attributes.direction_of_travel (direction_to_u64 direction)
        ∷ [];
})

-- The unpacking of the message in `server_read_client_message`; `none` is its error.
unfoldable pub received : ClientMessage → Option ClientMessageV2
unfolding upgrade
received to_follow = none
received (v1 m) = some (upgrade m)
received (v2 m) = some m
