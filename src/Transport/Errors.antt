-- ===== src/Transport/Errors.antt =====
-- Why a negotiation fails: every error that it returns has a cause in the server's configuration and
-- the client's attributes.
use qcp.Prelude.{
  ℕ, ◌≡◌, refl, false, Option, none, some, ◌==◌, Result, ok, err, arith, sym, ◌>>=◌, >>=-eq-err,
  ◌⊎◌, Bool-cases, Result-cases, inl, inr,
}
use mathlib.Core.Path.{subst}
use qcp.Protocol.Control.{CongestionController, ClientMessage2Attributes}
use qcp.Protocol.Control.ClientMsg.{ClientMessageV2}
use qcp.Util.PortRange
use qcp.Util.PortRange.{PortRange, ParseError, IsValid, display, from_str}
use qcp.Config.{Configuration, ConfigurationOptional, ValidationError, validate}
use qcp.Config.Manager.{merge, read_port, get_optional, get}
use qcp.Config.Manager.Reading.{get_failure, IsReadable, get_optional_sound, get_sound}
use qcp.Transport.Parameters.{effective}
use qcp.Transport.Unreadable.{NoPreference, ports_unreadable}
use qcp.Transport.{
  NegotiationError, server, client, failure, Entries, negotiate_v3, min_ignoring_zero,
  congestion_eq, port_eq, combine_ports, number, short, client_ports, client_congestion, gather,
  rx_entries, tx_entries, rtt_entries, congestion_entries, window_entries, port_entries,
  timeout_entries, negotiate, checked, negotiate_with, combine_bandwidth_configurations,
  incompatible_congestion, ports, invalid, unreadable, extracted, Attributes, layer,
}
use qcp.Transport.Gathering.{Gathered, negotiate-Gathered}
use qcp.Transport.Resolution.{Resolved, Gathered-Resolved, extracted_sound}

-- The causes of an error, for the server's configuration and the client's attributes.
pub data Cause (s : ConfigurationOptional) (ca : Attributes) (e : NegotiationError) : Type 0 where
  controllers :
      (x y : CongestionController)
      → client_congestion ca ≡ some x
      → s.congestion ≡ some y
      → congestion_eq x y ≡ false
      → e ≡ incompatible_congestion
      → Cause s ca e
  disjoint_ports :
      (x y : PortRange) (p : PortRange × PortRange)
      → client_ports ca ≡ some x
      → s.port ≡ some y
      → PortRange.combine x y ≡ err p
      → e ≡ ports p
      → Cause s ca e
  unreadable_server : (v : ParseError) → get_optional s ≡ err v → e ≡ unreadable v → Cause s ca e
  unreadable_client :
      (x : PortRange) (v : ParseError)
      → client_ports ca ≡ some x
      → NoPreference s.port
      → from_str (display x) ≡ err v
      → e ≡ unreadable v
      → Cause s ca e
  unusable :
      (c : Configuration) (v : ValidationError)
      → Resolved s ca c
      → validate c ≡ err v
      → e ≡ invalid v
      → Cause s ca e

smaller_never :
    (c s : Option ℕ) (e : NegotiationError) → negotiate_v3 (◌==◌) c s min_ignoring_zero ≡ err e → ⊥
unfolding negotiate_v3 min_ignoring_zero
smaller_never none none e h = cc
smaller_never none (some y) e h = cc
smaller_never (some x) none e h = cc
smaller_never (some x) (some y) e h = ground arith

client_never :
    (c s : Option ℕ) (e : NegotiationError) → negotiate_v3 (◌==◌) c s (λ _ _. client) ≡ err e → ⊥
unfolding negotiate_v3
client_never none none e h = cc
client_never none (some y) e h = cc
client_never (some x) none e h = cc
client_never (some x) (some y) e h = ground arith

server_never :
    (c s : Option ℕ) (e : NegotiationError) → negotiate_v3 (◌==◌) c s (λ _ _. server) ≡ err e → ⊥
unfolding negotiate_v3
server_never none none e h = cc
server_never none (some y) e h = cc
server_never (some x) none e h = cc
server_never (some x) (some y) e h = ground arith

congestion_cause :
    (c s : Option CongestionController) (e : NegotiationError)
    → negotiate_v3 congestion_eq c s (λ _ _. failure incompatible_congestion) ≡ err e
    → (x : CongestionController) × (y : CongestionController) × (c ≡ some x)
      × (s ≡ some y)
      × (congestion_eq x y ≡ false)
      × (e ≡ incompatible_congestion)
unfolding negotiate_v3
congestion_cause none none e h = cc
congestion_cause none (some y) e h = cc
congestion_cause (some x) none e h = cc
congestion_cause (some x) (some y) e h = elim (Bool-cases (congestion_eq x y)) [
  | inl same ↦ let k = rw same at h in cc
  | inr differ ↦ let k = rw differ at h in (x, y, refl, refl, differ, cc)
]

ports_cause :
    (c s : Option PortRange) (e : NegotiationError)
    → negotiate_v3 port_eq c s combine_ports ≡ err e
    → (x : PortRange) × (y : PortRange) × (p : PortRange × PortRange) × (c ≡ some x)
      × (s ≡ some y)
      × (PortRange.combine x y ≡ err p)
      × (e ≡ ports p)
unfolding negotiate_v3 combine_ports
ports_cause none none e h = cc
ports_cause none (some y) e h = cc
ports_cause (some x) none e h = cc
ports_cause (some x) (some y) e h = elim (Bool-cases (port_eq x y)) [
  | inl same ↦ let k = rw same at h in cc
  | inr differ ↦
      let k = rw differ at h in
      elim (Result-cases (PortRange.combine x y)) [
        | inl (r, c) ↦ let l = rw (c, combine_ports) at k in cc
        | inr (p, c) ↦ let l = rw (c, combine_ports) at k in (x, y, p, refl, refl, c, cc)
      ]
]

abbrev Failures :
    Result NegotiationError (Entries ℕ)
    → Result NegotiationError (Entries ℕ)
    → Result NegotiationError (Entries ℕ)
    → Result NegotiationError (Entries CongestionController)
    → Result NegotiationError (Entries ℕ)
    → Result NegotiationError (Entries PortRange)
    → Result NegotiationError (Entries ℕ)
    → NegotiationError
    → Type 0
Failures a b c d f g h e =
    (a ≡ err e) ⊎ (b ≡ err e) ⊎ (c ≡ err e) ⊎ (d ≡ err e) ⊎ (f ≡ err e) ⊎ (g ≡ err e) ⊎ (h ≡ err e)

gather-Failures :
    (reread : ℕ → ℕ) (rxs txs rtts : Result NegotiationError (Entries ℕ))
    (congestions : Result NegotiationError (Entries CongestionController))
    (windows : Result NegotiationError (Entries ℕ))
    (port_ranges : Result NegotiationError (Entries PortRange))
    (timeouts : Result NegotiationError (Entries ℕ)) (e : NegotiationError)
    → gather reread rxs txs rtts congestions windows port_ranges timeouts ≡ err e
    → Failures rxs txs rtts congestions windows port_ranges timeouts e
unfolding gather
gather-Failures reread (err x) _ _ _ _ _ _ e h = inl cc
gather-Failures reread (ok a) (err x) _ _ _ _ _ e h = inr (inl cc)
gather-Failures reread (ok a) (ok b) (err x) _ _ _ _ e h = inr (inr (inl cc))
gather-Failures reread (ok a) (ok b) (ok c) (err x) _ _ _ e h = inr (inr (inr (inl cc)))
gather-Failures reread (ok a) (ok b) (ok c) (ok d) (err x) _ _ e h = inr (inr (inr (inr (inl cc))))
gather-Failures reread (ok a) (ok b) (ok c) (ok d) (ok f) (err x) _ e h =
    inr (inr (inr (inr (inr (inl cc)))))
gather-Failures reread (ok a) (ok b) (ok c) (ok d) (ok f) (ok g) (err x) e h =
    inr (inr (inr (inr (inr (inr cc)))))
gather-Failures reread (ok a) (ok b) (ok c) (ok d) (ok f) (ok g) (ok t) e h = cc

negotiate-Cause :
    (reread : ℕ → ℕ) (s : ConfigurationOptional) (ca : Attributes) (e : NegotiationError)
    → negotiate reread s ca ≡ err e
    → Cause s ca e
unfolding negotiate rx_entries tx_entries rtt_entries congestion_entries window_entries port_entries
    timeout_entries
negotiate-Cause reread s ca e h =
    elim (gather-Failures reread (rx_entries s ca) (tx_entries s ca) (rtt_entries s ca)
      (congestion_entries s ca) (window_entries s ca) (port_entries s ca) (timeout_entries s ca) e
      h) [
        | inl f ↦
            absurd (smaller_never (number ClientMessage2Attributes.bandwidth_to_server ca) s.rx e f)
        | inr (inl f) ↦
            absurd (smaller_never (number ClientMessage2Attributes.bandwidth_to_client ca) s.tx e f)
        | inr (inr (inl f)) ↦
            absurd (client_never (short ClientMessage2Attributes.round_trip_time ca) s.rtt e f)
        | inr (inr (inr (inl f))) ↦
            let (x, y, a, b, differ, same) =
              congestion_cause (client_congestion ca) s.congestion e f in
            controllers x y a b differ same
        | inr (inr (inr (inr (inl f)))) ↦ absurd (
            server_never (number ClientMessage2Attributes.initial_congestion_window ca)
              s.initial_congestion_window e f)
        | inr (inr (inr (inr (inr (inl f))))) ↦
            let (x, y, p, a, b, apart, same) = ports_cause (client_ports ca) s.port e f in
            disjoint_ports x y p a b apart same
        | inr (inr (inr (inr (inr (inr f))))) ↦
            absurd (client_never (short ClientMessage2Attributes.quic_timeout ca) s.timeout e f)
      ]

checked_failure :
    (r : Result ValidationError Configuration) (e : NegotiationError)
    → checked r ≡ err e
    → (v : ValidationError) × (r ≡ err v) × (e ≡ invalid v)
unfolding checked
checked_failure (ok c) e h = cc
checked_failure (err v) e h = (v, refl, cc)

extracted_failure :
    {A : Type 0} (r : Result ParseError A) (e : NegotiationError)
    → extracted r ≡ err e
    → (v : ParseError) × (r ≡ err v) × (e ≡ unreadable v)
unfolding extracted
extracted_failure (ok c) e h = cc
extracted_failure (err v) e h = (v, refl, cc)

module _ (reread : ℕ → ℕ) (s : ConfigurationOptional) (ca : Attributes) where
  -- The ports of the result cannot be read.
  get-Cause :
      (layers : ConfigurationOptional × ConfigurationOptional) (v : ParseError)
      → Gathered reread s ca layers
      → IsReadable s.port
      → IsReadable s.remote_port
      → get (merge (merge s layers.0) layers.1) ≡ err v
      → Cause s ca (unreadable v)
  unfolding merge layer effective port_entries
  get-Cause layers v g port remote failed =
      let h =
        get_failure (merge (merge s layers.0) layers.1) v failed
          (rw (g.client_layer, g.resolved_layer) remote) in
      let k : read_port (effective g.port s.port) ≡ err v =
        rw (g.client_layer, g.resolved_layer) at h in
      let (x, asked, free, unread) =
        ports_unreadable (client_ports ca) s.port g.port v g.port_ok port k in
      unreadable_client x v asked free unread refl

module _ (reread : ℕ → ℕ) (exact : (n : ℕ) → reread n ≡ n) (s : ConfigurationOptional)
    (ca : Attributes) where
  -- The negotiation has an outcome, and what is left of it fails.
  settled-Cause :
      (layers : ConfigurationOptional × ConfigurationOptional) (e : NegotiationError)
      → Gathered reread s ca layers
      → IsReadable s.port
      → IsReadable s.remote_port
      → (extracted (get (merge (merge s layers.0) layers.1)) >>= λ c. checked (validate c)) ≡ err e
      → Cause s ca e
  unfolding checked extracted
  settled-Cause layers e g port remote h =
      let whole = merge (merge s layers.0) layers.1 in
      elim (Result-cases (get whole)) [
        | inr (v, failed) ↦
            let k = rw (failed, extracted) at h in
            let same : unreadable v ≡ e = cc in
            subst (Cause s ca) same (get-Cause reread s ca layers v g port remote failed)
        | inl (c, got) ↦
            let k = rw (got, extracted) at h in
            let (v, refused, same) = checked_failure (validate c) e k in
            let filled = (get_sound whole c got).0 in
            unusable c v
              (subst (Resolved s ca) (sym filled) (Gathered-Resolved reread exact s ca layers g))
              refused same
      ]

module _ (reread : ℕ → ℕ) (exact : (n : ℕ) → reread n ≡ n) where
  -- Where reading a printed quantity gives it back: if a negotiation with a configuration that is
  -- not fused fails, then the server's own port ranges cannot be read back from their text, or both
  -- sides name different congestion controllers, or the two port ranges do not combine, or the
  -- client's port range cannot be read back and the server has no preference for a port, or the
  -- configuration that the resolution gives is refused by the validation.
  pub combine_bandwidth_configurations-Cause :
      (s : ConfigurationOptional) (message : ClientMessageV2) (e : NegotiationError)
      → combine_bandwidth_configurations reread (some s) message ≡ err e
      → Cause s message.attributes e
  unfolding combine_bandwidth_configurations negotiate_with
  combine_bandwidth_configurations-Cause s message e h =
      elim (>>=-eq-err (extracted (get_optional s)) _ h) [
        | inl failed ↦
            let (v, unread, same) = extracted_failure (get_optional s) e failed in
            unreadable_server v unread same
        | inr (o, read, h1) ↦
            let (known, port, remote) =
              get_optional_sound s o (extracted_sound (get_optional s) o read) in
            elim (>>=-eq-err (negotiate reread o message.attributes) _ h1) [
              | inl failed ↦ negotiate-Cause reread s message.attributes e (rw known at failed)
              | inr (layers, agreed, h2) ↦
                  settled-Cause reread exact s message.attributes layers e
                    (negotiate-Gathered reread s message.attributes layers (rw known at agreed))
                    port remote h2
            ]
      ]
