-- ===== src/Protocol/Control/ServerMsg.antt =====
-- qcp/src/protocol/control/server_msg.rs: what the server sends, in its two versions, the upgrade
-- of the first to the second, and what the client's configuration takes from it.
pub mod Layers
pub mod Agreement
use qcp.Prelude.{
  ℕ, Bool, true, false, not, Option, none, some, List, [], ◌∷◌, ◌++◌, ◌==◌, if◌then◌else◌, get_or,
  Result, ok, err, ◌>>=◌,
}
use qcp.Prelude.Text.{Str}
use qcp.Protocol.Variant.{Variant, unsigned, string, into_bytes, coerce_unsigned}
use qcp.Protocol.DataTag.{TaggedData, DataTag, new, tag, with_bytes, push_some}
use qcp.Protocol.Compat.{Compatibility, cmsg_smsg_2, supports}
use qcp.Protocol.Control.{
  CongestionController, cubic, congestion_to_u64, congestion_from_repr, CredentialsType,
  ServerMessage2Attributes, credentials_tag, server_attribute2_tag,
}
use qcp.Protocol.Control.ClientMsg.{congestion_variant}
use qcp.Config.{Configuration, ConfigurationOptional, rx, tx}

pub record ServerMessageV1 : Type 0 where
  pub port : ℕ
  pub cert : List ℕ
  pub name : Str
  pub bandwidth_to_server : ℕ
  pub bandwidth_to_client : ℕ
  pub rtt : ℕ
  pub congestion : CongestionController
  pub initial_congestion_window : ℕ
  pub timeout : ℕ
  pub warning : Str
  pub extension : ℕ

abbrev pub Attributes : Type 0
Attributes = List (TaggedData ServerMessage2Attributes)

pub record ServerMessageV2 : Type 0 where
  pub port : ℕ
  pub credentials : TaggedData CredentialsType
  pub common_name : Str
  pub bandwidth_to_server : ℕ
  pub bandwidth_to_client : ℕ
  pub rtt : ℕ
  pub attributes : Attributes
  pub extension : ℕ

pub data ServerFailure : Type 0 where
  malformed : ServerFailure
  negotiation_failed endpoint_failed unknown : Str → ServerFailure

pub data ServerMessage : Type 0 where
  to_follow : ServerMessage
  v1 : ServerMessageV1 → ServerMessage
  failure : ServerFailure → ServerMessage
  v2 : ServerMessageV2 → ServerMessage

abbrev pub nonzero : ℕ → Option ℕ
nonzero n = if n == 0 then none else some n

abbrev pub non_empty : Str → Option Str
non_empty [] = none
non_empty (c ∷ s) = some (c ∷ s)

-- A controller other than the default.
abbrev pub non_default : CongestionController → Option CongestionController
non_default cubic = none
non_default cc = some cc

push_window : ℕ → Attributes → Attributes
unfolding push_some
push_window window =
    push_some ServerMessage2Attributes.initial_congestion_window unsigned (nonzero window)

push_timeout : ℕ → Attributes → Attributes
unfolding push_some
push_timeout timeout = push_some ServerMessage2Attributes.quic_timeout unsigned (nonzero timeout)

-- `From<ServerMessageV1> for ServerMessageV2`
unfoldable pub upgrade : ServerMessageV1 → ServerMessageV2
unfolding push_some push_window push_timeout with_bytes
upgrade m = record {
  port = m.port;
  credentials = with_bytes CredentialsType.x509 m.cert;
  common_name = m.name;
  bandwidth_to_server = m.bandwidth_to_server;
  bandwidth_to_client = m.bandwidth_to_client;
  rtt = m.rtt;
  attributes = push_timeout m.timeout (
      push_window m.initial_congestion_window (
        push_some ServerMessage2Attributes.congestion_controller congestion_variant
          (some m.congestion)
          (push_some ServerMessage2Attributes.warning_message string (non_empty m.warning) [])));
  extension = 0;
}

unfoldable pub apply_config_attributes : Configuration → ServerMessageV2 → ServerMessageV2
unfolding push_some push_window push_timeout
apply_config_attributes config self = record self {
  attributes = push_timeout config.timeout (
      push_window config.initial_congestion_window (
        push_some ServerMessage2Attributes.congestion_controller congestion_variant
          (non_default config.congestion) self.attributes));
}

new_v1 : Configuration → ℕ → List ℕ → Str → Str → ServerMessageV1
unfolding rx tx
new_v1 config port cert common_name warning = record {
  port = port;
  cert = cert;
  name = common_name;
  bandwidth_to_server = rx config;
  bandwidth_to_client = tx config;
  rtt = config.rtt;
  congestion = config.congestion;
  initial_congestion_window = config.initial_congestion_window;
  timeout = config.timeout;
  warning = warning;
  extension = 0;
}

new_v2 : Configuration → ℕ → TaggedData CredentialsType → Str → ServerMessageV2
unfolding rx tx apply_config_attributes
new_v2 config port credentials common_name = apply_config_attributes config record {
  port = port;
  credentials = credentials;
  common_name = common_name;
  bandwidth_to_server = rx config;
  bandwidth_to_client = tx config;
  rtt = config.rtt;
  attributes = [];
  extension = 0;
}

-- `ServerMessage::new`; `none` is its assertion that the credentials are bytes.
unfoldable pub new_message :
    Compatibility
    → Configuration
    → ℕ
    → TaggedData CredentialsType
    → Str
    → Str
    → Option ServerMessage
unfolding supports into_bytes new_v1 new_v2
new_message compat config port credentials common_name warning =
    elim (into_bytes credentials.payload) [
      | none ↦ none
      | some cert ↦ some (
          if supports compat cmsg_smsg_2
          then v2 (new_v2 config port credentials common_name)
          else v1 (new_v1 config port cert common_name warning))
    ]

-- `client_read_server_message`; the error is the server's failure, if it sent one.
unfoldable pub received : ServerMessage → Result (Option ServerFailure) ServerMessageV2
unfolding upgrade
received (v1 m) = ok (upgrade m)
received (v2 m) = ok m
received (failure f) = err (some f)
received to_follow = err none

-- The provider that the client's configuration merges in; the error is an unknown tag.
insert_tag : ServerMessage2Attributes → ℕ → ConfigurationOptional → ConfigurationOptional
unfolding congestion_from_repr
insert_tag ServerMessage2Attributes.congestion_controller n dict = record dict {
  congestion = some (get_or (congestion_from_repr n) cubic);
}
insert_tag ServerMessage2Attributes.initial_congestion_window n dict = record dict {
  initial_congestion_window = some n;
}
insert_tag ServerMessage2Attributes.quic_timeout n dict = record dict { timeout = some n }
insert_tag ServerMessage2Attributes.warning_message n dict = dict
insert_tag ServerMessage2Attributes.invalid n dict = dict

insert_attribute :
    TaggedData ServerMessage2Attributes → ConfigurationOptional → Result ℕ ConfigurationOptional
unfolding tag insert_tag
insert_attribute attr dict = elim (tag attr) [
  | none ↦ err attr.tag_raw
  | some t ↦ ok (insert_tag t (coerce_unsigned attr.payload) dict)
]

insert_attributes : Attributes → ConfigurationOptional → Result ℕ ConfigurationOptional
unfolding insert_attribute
insert_attributes [] dict = ok dict
insert_attributes (attr ∷ attrs) dict = do d ← insert_attribute attr dict; insert_attributes attrs d

unfoldable pub provider_data : ServerMessageV2 → Result ℕ ConfigurationOptional
unfolding insert_attributes
provider_data m = insert_attributes m.attributes record {
  rx = some m.bandwidth_to_client;
  tx = some m.bandwidth_to_server;
  rtt = some m.rtt;
  congestion = none;
  initial_congestion_window = none;
  port = none;
  remote_port = none;
  timeout = none;
  udp_buffer = none;
  initial_mtu = none;
  min_mtu = none;
  max_mtu = none;
}
