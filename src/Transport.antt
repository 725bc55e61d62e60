-- ===== src/Transport.antt =====
-- qcp/src/transport.rs: the server's resolution of its own configuration with the client's request.
-- Reading a quantity back from its engineering notation is the parameter `reread`; the text itself
-- is not modelled.
pub mod Parameters
pub mod Resolution
pub mod Errors
pub mod Gathering
pub mod Unreadable
use qcp.Prelude.{
  ℕ, ◌%◌, ◌^◌, min, Bool, true, false, Option, none, some, List, ◌==◌, ◌&&◌, if◌then◌else◌, Result,
  ok, err, ◌>>=◌,
}
use mathlib.Core.Option
use qcp.Protocol.Variant.{Variant, coerce_unsigned}
use qcp.Protocol.DataTag.{DataTag, TaggedData, find_tag}
use qcp.Protocol.Control.{
  CongestionController, congestion_to_u64, congestion_from_repr, ClientMessage2Attributes,
  client_attribute2_tag,
}
use qcp.Protocol.Control.ClientMsg.{ClientMessageV2}
use qcp.Util.PortRange
use qcp.Util.PortRange.{PortRange, ParseError}
use qcp.Config.{Configuration, ConfigurationOptional, ValidationError, validate}
use qcp.Config.Manager.{Manager, merge, get_optional, get}

pub data NegotiationError : Type 0 where
  fused incompatible_congestion : NegotiationError
  ports : PortRange × PortRange → NegotiationError
  invalid : ValidationError → NegotiationError
  unreadable : ParseError → NegotiationError

pub data CombinationResponse (T : Type 0) : Type 0 where
  server client : CombinationResponse T
  combined : T → CombinationResponse T
  failure : NegotiationError → CombinationResponse T

-- The entries for `client_out` and for `resolved_out`.
abbrev pub Entries : Type 0 → Type 0
Entries T = Option T × Option T

respond : {T : Type 0} → T → CombinationResponse T → Result NegotiationError (Entries T)
respond cc server = ok (none, none)
respond cc client = ok (some cc, none)
respond cc (combined val) = ok (none, some val)
respond cc (failure e) = err e

unfoldable pub negotiate_v3 :
    {T : Type 0}
    → (T → T → Bool)
    → Option T
    → Option T
    → (T → T → CombinationResponse T)
    → Result NegotiationError (Entries T)
unfolding respond
negotiate_v3 same none none resolve = ok (none, none)
negotiate_v3 same (some cc) none resolve = ok (some cc, none)
negotiate_v3 same none (some ss) resolve = ok (none, none)
negotiate_v3 same (some cc) (some ss) resolve =
    if same cc ss then ok (none, none) else respond cc (resolve cc ss)

unfoldable pub min_ignoring_zero : ℕ → ℕ → CombinationResponse ℕ
min_ignoring_zero cli srv =
    if cli == 0 then server else if srv == 0 then client else combined (min cli srv)

unfoldable pub congestion_eq : CongestionController → CongestionController → Bool
unfolding congestion_to_u64
congestion_eq a b = congestion_to_u64 a == congestion_to_u64 b

abbrev pub port_eq : PortRange → PortRange → Bool
port_eq a b = a.begin == b.begin && a.end == b.end

unfoldable pub combine_ports : PortRange → PortRange → CombinationResponse PortRange
combine_ports a b = elim (PortRange.combine a b) [ ok r ↦ combined r | err e ↦ failure (ports e) ]

abbrev Attributes : Type 0
Attributes = List (TaggedData ClientMessage2Attributes)

-- `find_tag(t).map(Variant::coerce_unsigned)`
unfoldable pub number : ClientMessage2Attributes → Attributes → Option ℕ
number t ca = Option.map coerce_unsigned (find_tag t ca)

-- The same, cast to 16 bits.
unfoldable pub short : ClientMessage2Attributes → Attributes → Option ℕ
unfolding number
short t ca = Option.map (λ n. n % 2 ^ 16) (number t ca)

port_pair : Option ℕ → Option ℕ → Option PortRange
port_pair none none = none
port_pair (some it) none = some (record { begin = it; end = it })
port_pair none (some it) = some (record { begin = it; end = it })
port_pair (some begin) (some end) = some (record { begin = begin; end = end })

unfoldable pub client_ports : Attributes → Option PortRange
unfolding short port_pair
client_ports ca =
    port_pair (short ClientMessage2Attributes.port_range_start ca)
      (short ClientMessage2Attributes.port_range_end ca)

unfoldable pub client_congestion : Attributes → Option CongestionController
unfolding number congestion_from_repr
client_congestion ca = elim (number ClientMessage2Attributes.congestion_controller_type ca) [
  | none ↦ none
  | some v ↦ congestion_from_repr v
]

-- The negotiation of each parameter, from the server's point of view.
module _ (s : ConfigurationOptional) (ca : Attributes) where
  pub rx_entries : Result NegotiationError (Entries ℕ)
  unfolding negotiate_v3 min_ignoring_zero
  rx_entries =
      negotiate_v3 (◌==◌) (number ClientMessage2Attributes.bandwidth_to_server ca) s.rx
        min_ignoring_zero

  pub tx_entries : Result NegotiationError (Entries ℕ)
  unfolding negotiate_v3 min_ignoring_zero
  tx_entries =
      negotiate_v3 (◌==◌) (number ClientMessage2Attributes.bandwidth_to_client ca) s.tx
        min_ignoring_zero

  pub rtt_entries : Result NegotiationError (Entries ℕ)
  unfolding negotiate_v3
  rtt_entries =
      negotiate_v3 (◌==◌) (short ClientMessage2Attributes.round_trip_time ca) s.rtt (λ _ _. client)

  pub congestion_entries : Result NegotiationError (Entries CongestionController)
  unfolding negotiate_v3
  congestion_entries =
      negotiate_v3 congestion_eq (client_congestion ca) s.congestion
        (λ _ _. failure incompatible_congestion)

  pub window_entries : Result NegotiationError (Entries ℕ)
  unfolding negotiate_v3
  window_entries =
      negotiate_v3 (◌==◌) (number ClientMessage2Attributes.initial_congestion_window ca)
        s.initial_congestion_window (λ _ _. server)

  pub port_entries : Result NegotiationError (Entries PortRange)
  unfolding negotiate_v3
  port_entries = negotiate_v3 port_eq (client_ports ca) s.port combine_ports

  pub timeout_entries : Result NegotiationError (Entries ℕ)
  unfolding negotiate_v3
  timeout_entries =
      negotiate_v3 (◌==◌) (short ClientMessage2Attributes.quic_timeout ca) s.timeout (λ _ _. client)

checked : Result ValidationError Configuration → Result NegotiationError Configuration
checked (ok c) = ok c
checked (err e) = err (invalid e)

pub extracted : {A : Type 0} → Result ParseError A → Result NegotiationError A
extracted (ok a) = ok a
extracted (err e) = err (unreadable e)

-- The two layers that the negotiation adds, from the entries of each parameter.
module _ (reread : ℕ → ℕ) where
  pub layer :
      Option ℕ
      → Option ℕ
      → Option ℕ
      → Option CongestionController
      → Option ℕ
      → Option PortRange
      → Option ℕ
      → ConfigurationOptional
  layer rx tx rtt congestion window port timeout = record {
    rx = Option.map reread rx;
    tx = Option.map reread tx;
    rtt = rtt;
    congestion = congestion;
    initial_congestion_window = window;
    port = port;
    remote_port = none;
    timeout = timeout;
    udp_buffer = none;
    initial_mtu = none;
    min_mtu = none;
    max_mtu = none;
  }

  -- The first parameter that fails ends the negotiation.
  gather :
      Result NegotiationError (Entries ℕ)
      → Result NegotiationError (Entries ℕ)
      → Result NegotiationError (Entries ℕ)
      → Result NegotiationError (Entries CongestionController)
      → Result NegotiationError (Entries ℕ)
      → Result NegotiationError (Entries PortRange)
      → Result NegotiationError (Entries ℕ)
      → Result NegotiationError (ConfigurationOptional × ConfigurationOptional)
  unfolding layer
  gather rxs txs rtts congestions windows port_ranges timeouts = do
    rx ← rxs
    tx ← txs
    rtt ← rtts
    congestion ← congestions
    window ← windows
    port ← port_ranges
    timeout ← timeouts
    ok (
      layer rx.0 tx.0 rtt.0 congestion.0 window.0 port.0 timeout.0,
      layer rx.1 tx.1 rtt.1 congestion.1 window.1 port.1 timeout.1,
    )

  unfoldable pub negotiate :
      ConfigurationOptional
      → Attributes
      → Result NegotiationError (ConfigurationOptional × ConfigurationOptional)
  unfolding gather rx_entries tx_entries rtt_entries congestion_entries window_entries port_entries
      timeout_entries
  negotiate s ca =
      gather (rx_entries s ca) (tx_entries s ca) (rtt_entries s ca) (congestion_entries s ca)
        (window_entries s ca) (port_entries s ca) (timeout_entries s ca)

  negotiate_with : ConfigurationOptional → ClientMessageV2 → Result NegotiationError Configuration
  unfolding negotiate checked merge extracted get get_optional
  negotiate_with manager message = do
    s ← extracted (get_optional manager)
    layers ← negotiate s message.attributes
    c ← extracted (get (merge (merge manager layers.0) layers.1))
    checked (validate c)

  -- The configuration for the connection.
  unfoldable pub combine_bandwidth_configurations :
      Manager → ClientMessageV2 → Result NegotiationError Configuration
  unfolding negotiate_with
  combine_bandwidth_configurations none message = err fused
  combine_bandwidth_configurations (some s) message = negotiate_with s message
