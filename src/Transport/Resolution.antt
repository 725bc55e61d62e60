-- ===== src/Transport/Resolution.antt =====
-- The result of the negotiation, one field at a time: `Resolved` says how the code resolves each
-- parameter. The table above `combine_bandwidth_configurations` differs for the window, where it has
-- the client's preference win and the code the server's.
use qcp.Prelude.{
  ℕ, ◌≡◌, refl, Option, none, some, get_or, Result, ok, err, >>=-eq-ok, ap, sym, ◌∙◌, arith,
  Option-cases, inl, inr,
}
use mathlib.Core.Option
use mathlib.Core.Path.{subst}
use qcp.Protocol.Control.{ClientMessage2Attributes}
use qcp.Protocol.Control.ClientMsg.{ClientMessageV2}
use qcp.Config.{Configuration, ConfigurationOptional, ValidationError, validate, system_default}
use qcp.Config.Bounds.{IsUsable, validate_sound}
use qcp.Config.Manager.{Manager, over, merge, with_system_default, get_optional, get}
use qcp.Config.Manager.Reading.{IsReadable, get_optional_sound, get_sound}
use qcp.Util.PortRange.{ParseError, IsValid}
use qcp.Transport.{
  number, short, client_ports, client_congestion, layer, rx_entries, tx_entries, rtt_entries,
  congestion_entries, window_entries, port_entries, timeout_entries, negotiate, checked, extracted,
  negotiate_with, combine_bandwidth_configurations, Attributes,
}
use qcp.Transport.Parameters.{
  smaller, agreed, SolvesPorts, effective, negotiate_smaller, negotiate_client_first,
  negotiate_server_first, negotiate_agreed, negotiate_ports, IsWithin, smaller-IsWithin,
}
use qcp.Transport.Gathering.{Gathered, negotiate-Gathered}

map_id : (reread : ℕ → ℕ) → ((n : ℕ) → reread n ≡ n) → (o : Option ℕ) → Option.map reread o ≡ o
map_id reread h none = refl
map_id reread h (some n) = ap some (h n)

-- The configuration of a successful negotiation, field by field. The client's requests are what its
-- attributes hold: 16 bits of the round trip time, the ports and the timeout, 64 of the others.
pub record Resolved (s : ConfigurationOptional) (ca : Attributes) (c : Configuration) : Type 0 where
  pub rx :
      c.rx_
      ≡ get_or
          (smaller (number ClientMessage2Attributes.bandwidth_to_server ca) s.rx)
          system_default.rx_
  pub tx :
      c.tx_
      ≡ get_or
          (smaller (number ClientMessage2Attributes.bandwidth_to_client ca) s.tx)
          system_default.tx_
  pub rtt :
      c.rtt
      ≡ get_or (over (short ClientMessage2Attributes.round_trip_time ca) s.rtt) system_default.rtt
  pub congestion :
      c.congestion ≡ get_or (agreed (client_congestion ca) s.congestion) system_default.congestion
  pub initial_congestion_window :
      c.initial_congestion_window
      ≡ get_or
          (over s.initial_congestion_window
            (number ClientMessage2Attributes.initial_congestion_window ca))
          system_default.initial_congestion_window
  pub port : SolvesPorts (client_ports ca) s.port c.port
  pub timeout :
      c.timeout
      ≡ get_or
          (over (short ClientMessage2Attributes.quic_timeout ca) s.timeout)
          system_default.timeout
  pub udp_buffer : c.udp_buffer ≡ get_or s.udp_buffer system_default.udp_buffer

checked_sound :
    (r : Result ValidationError Configuration) (c : Configuration) → checked r ≡ ok c → r ≡ ok c
unfolding checked
checked_sound (ok d) c h = cc
checked_sound (err e) c h = cc

pub extracted_sound : {A : Type 0} (r : Result ParseError A) (a : A) → extracted r ≡ ok a → r ≡ ok a
unfolding extracted
extracted_sound (ok b) a h = cc
extracted_sound (err e) a h = cc

port-IsValid :
    (m : ConfigurationOptional) → IsReadable m.port → IsValid (with_system_default m).port
unfolding with_system_default
port-IsValid m h = elim (Option-cases m.port) [
  | inl e ↦ rw e (record { increasing = omega arith; bounded = omega arith; any_port = λ z. refl })
  | inr (p, e) ↦ rw e (rw e at h)
]

module _ (reread : ℕ → ℕ) (exact : (n : ℕ) → reread n ≡ n) (s : ConfigurationOptional) where
  pub Gathered-Resolved :
      (ca : Attributes) (layers : ConfigurationOptional × ConfigurationOptional)
      → Gathered reread s ca layers
      → Resolved s ca (with_system_default (merge (merge s layers.0) layers.1))
  unfolding with_system_default merge layer effective rx_entries tx_entries rtt_entries
      congestion_entries window_entries port_entries timeout_entries
  Gathered-Resolved ca layers g =
      rw (g.client_layer, g.resolved_layer)
        record {
          rx =
              rw (map_id reread exact g.rx.1, map_id reread exact g.rx.0)
                (ap (λ o. get_or o system_default.rx_)
                  (negotiate_smaller (number ClientMessage2Attributes.bandwidth_to_server ca) s.rx
                    g.rx g.rx_ok));
          tx =
              rw (map_id reread exact g.tx.1, map_id reread exact g.tx.0)
                (ap (λ o. get_or o system_default.tx_)
                  (negotiate_smaller (number ClientMessage2Attributes.bandwidth_to_client ca) s.tx
                    g.tx g.tx_ok));
          rtt =
              ap (λ o. get_or o system_default.rtt)
                (negotiate_client_first (short ClientMessage2Attributes.round_trip_time ca) s.rtt
                  g.rtt g.rtt_ok);
          congestion =
              ap (λ o. get_or o system_default.congestion)
                (negotiate_agreed (client_congestion ca) s.congestion g.congestion g.congestion_ok);
          initial_congestion_window =
              ap (λ o. get_or o system_default.initial_congestion_window)
                (negotiate_server_first
                  (number ClientMessage2Attributes.initial_congestion_window ca)
                  s.initial_congestion_window g.window g.window_ok);
          port = negotiate_ports (client_ports ca) s.port g.port g.port_ok;
          timeout =
              ap (λ o. get_or o system_default.timeout)
                (negotiate_client_first (short ClientMessage2Attributes.quic_timeout ca) s.timeout
                  g.timeout g.timeout_ok);
          udp_buffer = refl;
        }

  negotiate_with-Resolved :
      (message : ClientMessageV2) (c : Configuration)
      → negotiate_with reread s message ≡ ok c
      → Resolved s message.attributes c × IsUsable c × IsValid c.port
  unfolding negotiate_with
  negotiate_with-Resolved message c h =
      let (o, ho, h1) = >>=-eq-ok (extracted (get_optional s)) _ h in
      let (known, _, _) = get_optional_sound s o (extracted_sound (get_optional s) o ho) in
      let (layers, agreed_ok, h2) = >>=-eq-ok (negotiate reread o message.attributes) _ h1 in
      let whole = merge (merge s layers.0) layers.1 in
      let (d, hd, valid) = >>=-eq-ok (extracted (get whole)) _ h2 in
      let (filled, readable, _) = get_sound whole d (extracted_sound (get whole) d hd) in
      let (same, usable) = validate_sound d c (checked_sound (validate d) c valid) in
      let g = negotiate-Gathered reread s message.attributes layers (rw known at agreed_ok) in
      let resolved = Gathered-Resolved message.attributes layers g in
      let back : with_system_default whole ≡ c = sym (same ∙ filled) in
      (
        subst (Resolved s message.attributes) back resolved,
        subst IsUsable (sym same) usable,
        subst (λ x. IsValid x.port) back (port-IsValid whole readable),
      )

module _ (reread : ℕ → ℕ) (exact : (n : ℕ) → reread n ≡ n) where
  -- Where reading a printed quantity gives it back: if the negotiation returns a configuration, then
  -- each bandwidth is the smaller of two preferences, of which a zero gives way to the other, or the
  -- only one; the round trip time and the timeout are those of the client before those of the server,
  -- and the window that of the server before that of the client (unlike the documented table); the
  -- controller is the only one named or the same on both sides; the port range is the only one named,
  -- the same on both sides, or the combination of both; and what neither side names is the default.
  -- The port range is valid, and the configuration passed the validation.
  pub combine_bandwidth_configurations-Resolved :
      (m : Manager) (message : ClientMessageV2) (c : Configuration)
      → combine_bandwidth_configurations reread m message ≡ ok c
      → (s : ConfigurationOptional) × (m ≡ some s)
        × Resolved s message.attributes c
        × IsUsable c
        × IsValid c.port
  unfolding combine_bandwidth_configurations
  combine_bandwidth_configurations-Resolved none message c h = cc
  combine_bandwidth_configurations-Resolved (some s) message c h =
      let (resolved, usable, valid) = negotiate_with-Resolved reread exact s message c h in
      (s, refl, resolved, usable, valid)

  -- A bandwidth of the result is at most that which the server's configuration sets, and at most that
  -- which the client asks for, where these are not zero; each of the two bandwidths on its own.
  pub combine_bandwidth_configurations_bounds :
      (s : ConfigurationOptional) (message : ClientMessageV2) (c : Configuration)
      → combine_bandwidth_configurations reread (some s) message ≡ ok c
      → IsWithin s.rx c.rx_
        × IsWithin s.tx c.tx_
        × IsWithin (number ClientMessage2Attributes.bandwidth_to_server message.attributes) c.rx_
        × IsWithin (number ClientMessage2Attributes.bandwidth_to_client message.attributes) c.tx_
  unfolding combine_bandwidth_configurations
  combine_bandwidth_configurations_bounds s message c h =
      let (resolved, _, _) = negotiate_with-Resolved reread exact s message c h in
      let to_server = number ClientMessage2Attributes.bandwidth_to_server message.attributes in
      let to_client = number ClientMessage2Attributes.bandwidth_to_client message.attributes in
      (
        rw resolved.rx (smaller-IsWithin to_server s.rx system_default.rx_).1,
        rw resolved.tx (smaller-IsWithin to_client s.tx system_default.tx_).1,
        rw resolved.rx (smaller-IsWithin to_server s.rx system_default.rx_).0,
        rw resolved.tx (smaller-IsWithin to_client s.tx system_default.tx_).0,
      )
