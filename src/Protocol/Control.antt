-- ===== src/Protocol/Control.antt =====
-- qcp/src/protocol/control.rs, and the tag enumerations and `Direction` of its client and server
-- messages: the types that the control messages and the configuration share.
pub mod ClientMsg
pub mod ServerMsg
use qcp.Prelude.{ℕ, ◌≡◌, refl, Option, none, some, ◌==◌, if◌then◌else◌, get_or}
use qcp.Protocol.Variant.{Variant, coerce_unsigned}
use qcp.Protocol.DataTag.{DataTag}

pub data CongestionController : Type 0 where
  cubic bbr new_reno : CongestionController

-- `as u64` and `from_repr`
unfoldable pub congestion_to_u64 : CongestionController → ℕ
congestion_to_u64 cubic = 0
congestion_to_u64 bbr = 1
congestion_to_u64 new_reno = 2

unfoldable pub congestion_from_repr : ℕ → Option CongestionController
congestion_from_repr n =
    if n == 0
    then some cubic
    else if n == 1
    then some bbr
    else if n == 2
    then some new_reno
    else none

pub data ConnectionType : Type 0 where
  ipv4 ipv6 : ConnectionType

pub data Direction : Type 0 where
  both client_to_server server_to_client : Direction

unfoldable pub direction_to_u64 : Direction → ℕ
direction_to_u64 both = 0
direction_to_u64 client_to_server = 1
direction_to_u64 server_to_client = 2

unfoldable pub direction_from_repr : ℕ → Option Direction
direction_from_repr n =
    if n == 0
    then some both
    else if n == 1
    then some client_to_server
    else if n == 2
    then some server_to_client
    else none

-- `From<&Variant>` and `From<Option<&Variant>> for Direction`
unfoldable pub direction_from : Option Variant → Direction
unfolding direction_from_repr
direction_from none = both
direction_from (some v) = get_or (direction_from_repr (coerce_unsigned v)) both

pub data ThroughputMode : Type 0 where
  tx rx both : ThroughputMode

unfoldable pub server_mode : Direction → ThroughputMode
server_mode client_to_server = ThroughputMode.rx
server_mode server_to_client = ThroughputMode.tx
server_mode Direction.both = ThroughputMode.both

unfoldable pub client_mode : Direction → ThroughputMode
client_mode client_to_server = ThroughputMode.tx
client_mode server_to_client = ThroughputMode.rx
client_mode Direction.both = ThroughputMode.both

-- The tag enumerations.
pub data CredentialsType : Type 0 where
  any x509 raw_public_key : CredentialsType

pub data ClientMessageAttributes : Type 0 where
  invalid direction_of_travel : ClientMessageAttributes

pub data ClientMessage2Attributes : Type 0 where
  invalid direction_of_travel port_range_start port_range_end output_config bandwidth_to_server
        bandwidth_to_client round_trip_time congestion_controller_type initial_congestion_window
        quic_timeout :
      ClientMessage2Attributes

pub data ServerMessage2Attributes : Type 0 where
  invalid congestion_controller initial_congestion_window warning_message quic_timeout :
      ServerMessage2Attributes

abbrev pub credentials_to_u64 : CredentialsType → ℕ
credentials_to_u64 CredentialsType.any = 0
credentials_to_u64 CredentialsType.x509 = 1
credentials_to_u64 CredentialsType.raw_public_key = 2

abbrev pub credentials_try_from : ℕ → Option CredentialsType
credentials_try_from n =
    if n == 0
    then some CredentialsType.any
    else if n == 1
    then some CredentialsType.x509
    else if n == 2
    then some CredentialsType.raw_public_key
    else none

pub credentials_try_from-to_u64 :
    (e : CredentialsType) → credentials_try_from (credentials_to_u64 e) ≡ some e
credentials_try_from-to_u64 CredentialsType.any = refl
credentials_try_from-to_u64 CredentialsType.x509 = refl
credentials_try_from-to_u64 CredentialsType.raw_public_key = refl

instance abbrev pub credentials_tag : DataTag CredentialsType
credentials_tag = record {
  to_u64 = credentials_to_u64;
  try_from = credentials_try_from;
  try_from-to_u64 = credentials_try_from-to_u64;
}

abbrev pub client_attribute_to_u64 : ClientMessageAttributes → ℕ
client_attribute_to_u64 ClientMessageAttributes.invalid = 0
client_attribute_to_u64 ClientMessageAttributes.direction_of_travel = 1

abbrev pub client_attribute_try_from : ℕ → Option ClientMessageAttributes
client_attribute_try_from n =
    if n == 0
    then some ClientMessageAttributes.invalid
    else if n == 1
    then some ClientMessageAttributes.direction_of_travel
    else none

pub client_attribute_try_from-to_u64 :
    (e : ClientMessageAttributes) → client_attribute_try_from (client_attribute_to_u64 e) ≡ some e
client_attribute_try_from-to_u64 ClientMessageAttributes.invalid = refl
client_attribute_try_from-to_u64 ClientMessageAttributes.direction_of_travel = refl

instance abbrev pub client_attribute_tag : DataTag ClientMessageAttributes
client_attribute_tag = record {
  to_u64 = client_attribute_to_u64;
  try_from = client_attribute_try_from;
  try_from-to_u64 = client_attribute_try_from-to_u64;
}

abbrev pub client_attribute2_to_u64 : ClientMessage2Attributes → ℕ
client_attribute2_to_u64 ClientMessage2Attributes.invalid = 0
client_attribute2_to_u64 ClientMessage2Attributes.direction_of_travel = 1
client_attribute2_to_u64 ClientMessage2Attributes.port_range_start = 2
client_attribute2_to_u64 ClientMessage2Attributes.port_range_end = 3
client_attribute2_to_u64 ClientMessage2Attributes.output_config = 4
client_attribute2_to_u64 ClientMessage2Attributes.bandwidth_to_server = 5
client_attribute2_to_u64 ClientMessage2Attributes.bandwidth_to_client = 6
client_attribute2_to_u64 ClientMessage2Attributes.round_trip_time = 7
client_attribute2_to_u64 ClientMessage2Attributes.congestion_controller_type = 8
client_attribute2_to_u64 ClientMessage2Attributes.initial_congestion_window = 9
client_attribute2_to_u64 ClientMessage2Attributes.quic_timeout = 10

abbrev pub client_attribute2_try_from : ℕ → Option ClientMessage2Attributes
client_attribute2_try_from n =
    if n == 0
    then some ClientMessage2Attributes.invalid
    else if n == 1
    then some ClientMessage2Attributes.direction_of_travel
    else if n == 2
    then some ClientMessage2Attributes.port_range_start
    else if n == 3
    then some ClientMessage2Attributes.port_range_end
    else if n == 4
    then some ClientMessage2Attributes.output_config
    else if n == 5
    then some ClientMessage2Attributes.bandwidth_to_server
    else if n == 6
    then some ClientMessage2Attributes.bandwidth_to_client
    else if n == 7
    then some ClientMessage2Attributes.round_trip_time
    else if n == 8
    then some ClientMessage2Attributes.congestion_controller_type
    else if n == 9
    then some ClientMessage2Attributes.initial_congestion_window
    else if n == 10
    then some ClientMessage2Attributes.quic_timeout
    else none

pub client_attribute2_try_from-to_u64 :
    (e : ClientMessage2Attributes)
    → client_attribute2_try_from (client_attribute2_to_u64 e) ≡ some e
client_attribute2_try_from-to_u64 ClientMessage2Attributes.invalid = refl
client_attribute2_try_from-to_u64 ClientMessage2Attributes.direction_of_travel = refl
client_attribute2_try_from-to_u64 ClientMessage2Attributes.port_range_start = refl
client_attribute2_try_from-to_u64 ClientMessage2Attributes.port_range_end = refl
client_attribute2_try_from-to_u64 ClientMessage2Attributes.output_config = refl
client_attribute2_try_from-to_u64 ClientMessage2Attributes.bandwidth_to_server = refl
client_attribute2_try_from-to_u64 ClientMessage2Attributes.bandwidth_to_client = refl
client_attribute2_try_from-to_u64 ClientMessage2Attributes.round_trip_time = refl
client_attribute2_try_from-to_u64 ClientMessage2Attributes.congestion_controller_type = refl
client_attribute2_try_from-to_u64 ClientMessage2Attributes.initial_congestion_window = refl
client_attribute2_try_from-to_u64 ClientMessage2Attributes.quic_timeout = refl

instance abbrev pub client_attribute2_tag : DataTag ClientMessage2Attributes
client_attribute2_tag = record {
  to_u64 = client_attribute2_to_u64;
  try_from = client_attribute2_try_from;
  try_from-to_u64 = client_attribute2_try_from-to_u64;
}

abbrev pub server_attribute2_to_u64 : ServerMessage2Attributes → ℕ
server_attribute2_to_u64 ServerMessage2Attributes.invalid = 0
server_attribute2_to_u64 ServerMessage2Attributes.congestion_controller = 1
server_attribute2_to_u64 ServerMessage2Attributes.initial_congestion_window = 2
server_attribute2_to_u64 ServerMessage2Attributes.warning_message = 3
server_attribute2_to_u64 ServerMessage2Attributes.quic_timeout = 4

abbrev pub server_attribute2_try_from : ℕ → Option ServerMessage2Attributes
server_attribute2_try_from n =
    if n == 0
    then some ServerMessage2Attributes.invalid
    else if n == 1
    then some ServerMessage2Attributes.congestion_controller
    else if n == 2
    then some ServerMessage2Attributes.initial_congestion_window
    else if n == 3
    then some ServerMessage2Attributes.warning_message
    else if n == 4
    then some ServerMessage2Attributes.quic_timeout
    else none

pub server_attribute2_try_from-to_u64 :
    (e : ServerMessage2Attributes)
    → server_attribute2_try_from (server_attribute2_to_u64 e) ≡ some e
server_attribute2_try_from-to_u64 ServerMessage2Attributes.invalid = refl
server_attribute2_try_from-to_u64 ServerMessage2Attributes.congestion_controller = refl
server_attribute2_try_from-to_u64 ServerMessage2Attributes.initial_congestion_window = refl
server_attribute2_try_from-to_u64 ServerMessage2Attributes.warning_message = refl
server_attribute2_try_from-to_u64 ServerMessage2Attributes.quic_timeout = refl

instance abbrev pub server_attribute2_tag : DataTag ServerMessage2Attributes
server_attribute2_tag = record {
  to_u64 = server_attribute2_to_u64;
  try_from = server_attribute2_try_from;
  try_from-to_u64 = server_attribute2_try_from-to_u64;
}
