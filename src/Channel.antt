-- ===== src/Channel.antt =====
-- qcp/src/control/channel.rs: what each side of the control channel does with the messages. A message
-- that does not arrive or does not decode is `none`. The creation of the endpoint and of the
-- server's credentials, and the text of a negotiation error, are parameters; tracing is left out.
pub mod Cert
pub mod Closing
pub mod Opening
pub mod Outcome
pub mod Sending
use qcp.Prelude.{
  ℕ, Bool, true, false, Option, none, some, List, [], ◌∷◌, get_or, Result, ok, err, ensure, ◌>>◌,
  ◌>>=◌, if◌then◌else◌,
}
use qcp.Prelude.Text.{Str}
use qcp.Protocol.DataTag.{TaggedData, find_tag}
use qcp.Protocol.Compat.{Compatibility, Feature, supports}
use qcp.Protocol.Control.{
  CongestionController, cubic, bbr, new_reno, CredentialsType, ConnectionType, Direction,
  direction_from, ThroughputMode, server_mode, ClientMessage2Attributes, client_attribute2_tag,
}
use qcp.Protocol.Control.ClientMsg as Request
use qcp.Protocol.Control.ClientMsg.{ClientMessage, ClientMessageV2, set_direction}
use qcp.Protocol.Control.ServerMsg as Reply
use qcp.Protocol.Control.ServerMsg.{
  ServerMessage, ServerMessageV2, ServerFailure, failure, malformed, negotiation_failed,
  endpoint_failed, provider_data,
}
use qcp.Config.{Configuration, ConfigurationOptional}
use qcp.Config.Manager.{Manager, merge, get}
use qcp.Transport.{NegotiationError, combine_bandwidth_configurations}
use qcp.Util.PortRange.{ParseError}
use qcp.Channel.Cert.{Credentials, CredentialsError, to_tagged_data}

pub data ChannelError : Type 0 where
  new_reno_unsupported malformed_message unexpected_message no_configuration no_credentials
        not_bytes :
      ChannelError
  credentials : CredentialsError → ChannelError
  negotiation : NegotiationError → ChannelError
  endpoint : Str → ChannelError
  server_failed : ServerFailure → ChannelError
  unreadable : ParseError → ChannelError

-- The client's check that the remote knows the controller that it asks for.
abbrev pub controller_known : Compatibility → Option CongestionController → Bool
unfolding supports
controller_known compat (some new_reno) = supports compat Feature.new_reno
controller_known compat _ = true

sent_message : Option ClientMessage → Direction → Result ChannelError ClientMessage
unfolding set_direction
sent_message none direction = err not_bytes
sent_message (some m) direction = ok (set_direction direction m)

with_credentials : {A : Type 0} → Result CredentialsError A → Result ChannelError A
with_credentials (ok a) = ok a
with_credentials (err e) = err (credentials e)

unfoldable pub client_send_message :
    Compatibility
    → Credentials
    → ConnectionType
    → Bool
    → Option CredentialsType
    → ConfigurationOptional
    → Direction
    → Result ChannelError ClientMessage
unfolding with_credentials to_tagged_data sent_message Request.new_message
client_send_message compat mine connection_type remote_config tls_auth_type config direction = do
  ensure (controller_known compat config.congestion) new_reno_unsupported
  tagged ← with_credentials (to_tagged_data mine compat tls_auth_type)
  sent_message (Request.new_message compat tagged connection_type remote_config config) direction

-- What the server sends, and how its side ends.
pub record Answer : Type 0 where
  pub sent : List ServerMessage
  pub result : Result ChannelError Configuration

abbrev pub refuse : ServerFailure → ChannelError → Answer
refuse f e = record { sent = failure f ∷ []; result = err e }

abbrev pub give_up : ChannelError → Answer
give_up e = record { sent = []; result = err e }

pub record Server : Type 0 where
  pub reread : ℕ → ℕ
  pub describe : NegotiationError → Str
  pub tls_auth_type : CredentialsType
  pub generate : Option Credentials
  -- The port that the endpoint is bound to, and a warning.
  pub create_endpoint :
      Credentials
      → ClientMessageV2
      → Configuration
      → ThroughputMode
      → Compatibility
      → Result Str (ℕ × Option Str)

server_message : Configuration → Option ServerMessage → Answer
server_message config none = give_up not_bytes
server_message config (some m) = record { sent = m ∷ []; result = ok config }

-- `server_send_message`
server_send_message : Server → Compatibility → ℕ → Credentials → Configuration → Str → Answer
unfolding server_message to_tagged_data Reply.new_message
server_send_message server compat port theirs config warning =
    elim (to_tagged_data theirs compat (some server.tls_auth_type)) [
      | err e ↦ give_up (credentials e)
      | ok tagged ↦
          server_message config
            (Reply.new_message compat config port tagged theirs.hostname warning)
    ]

-- PHASES 3C and 3D
open_endpoint :
    Server → Compatibility → ClientMessageV2 → Configuration → Option Credentials → Answer
unfolding server_send_message direction_from server_mode find_tag
open_endpoint server compat message config none = give_up no_credentials
open_endpoint server compat message config (some theirs) =
    let direction =
      direction_from (find_tag ClientMessage2Attributes.direction_of_travel message.attributes) in
    elim (server.create_endpoint theirs message config (server_mode direction) compat) [
      | err e ↦ refuse (endpoint_failed e) (endpoint e)
      | ok (port, warning) ↦
          server_send_message server compat port theirs config (get_or warning [])
    ]

-- PHASE 3B
process_message : Server → Compatibility → Manager → Option ClientMessageV2 → Answer
unfolding open_endpoint combine_bandwidth_configurations
process_message server compat manager none = refuse malformed malformed_message
process_message server compat manager (some message) =
    elim (combine_bandwidth_configurations server.reread manager message) [
      | err e ↦ refuse (negotiation_failed (server.describe e)) (negotiation e)
      | ok config ↦ open_endpoint server compat message config server.generate
    ]

unfoldable pub run_server_inner : Server → Compatibility → Manager → Option ClientMessage → Answer
unfolding process_message Request.received
run_server_inner server compat manager none = refuse malformed malformed_message
run_server_inner server compat manager (some m) =
    process_message server compat manager (Request.received m)

extracted : Result ParseError Configuration → Result ChannelError Configuration
extracted (ok c) = ok c
extracted (err e) = err (unreadable e)

-- The client's configuration from the message, merged over its own: a tag that it does not know
-- leaves the manager fused.
assembled :
    ConfigurationOptional → Result ℕ ConfigurationOptional → Result ChannelError Configuration
unfolding merge extracted
assembled mine (err tag) = err no_configuration
assembled mine (ok theirs) = extracted (get (merge mine theirs))

merged : Manager → ServerMessageV2 → Result ChannelError Configuration
unfolding assembled provider_data
merged none m = err no_configuration
merged (some mine) m = assembled mine (provider_data m)

reply_error : Option ServerFailure → ChannelError
reply_error (some f) = server_failed f
reply_error none = unexpected_message

-- The end of `run_client`, and the assembly of the configuration in its caller.
unfoldable pub client_finish : Manager → ServerMessage → Result ChannelError Configuration
unfolding merged reply_error Reply.received
client_finish manager m = elim (Reply.received m) [
  | err f ↦ err (reply_error f)
  | ok m2 ↦ merged manager m2
]
