-- ===== src/Transport/Unreadable.antt =====
-- When the ports that a negotiation settles on cannot be read back from their text.
use qcp.Prelude.{
  ◌≡◌, refl, true, false, Option, none, some, ok, err, arith, sym, ◌⊎◌, Bool-cases, Result-cases,
  inl, inr,
}
use mathlib.Core.Path.{subst}
use qcp.Util.PortRange
use qcp.Util.PortRange.{PortRange, ParseError, IsValid, display, from_str}
use qcp.Config.Manager.{read_port}
use qcp.Config.Manager.Reading.{read_port_failure, readable_fails, IsReadable}
use qcp.Transport.Parameters.{effective}
use qcp.Transport.{Entries, negotiate_v3, port_eq, combine_ports}

-- A server that leaves the choice of the port to the client.
abbrev pub NoPreference : Option PortRange → Type 0
NoPreference none = Unit
NoPreference (some y) = PortRange.is_default y ≡ true

-- Two ranges that both express a preference, the second one readable.
overlap-IsValid :
    (x y r : PortRange)
    → IsValid y
    → PortRange.is_default x ≡ false
    → PortRange.is_default y ≡ false
    → PortRange.combine x y ≡ ok r
    → IsValid r
unfolding PortRange.combine PortRange.is_default
overlap-IsValid x y r v fixed set h = record {
  increasing = ground arith;
  bounded = ground arith;
  any_port = ground arith;
}

-- A client's range combined with a readable one of the server's can be read, but for the client's
-- range itself where the server leaves the choice to it.
combined-IsReadable :
    (x y r : PortRange)
    → IsValid y
    → PortRange.combine x y ≡ ok r
    → IsValid r ⊎ ((PortRange.is_default y ≡ true) × (r ≡ x))
unfolding PortRange.combine
combined-IsReadable x y r v h = elim (Bool-cases (PortRange.is_default x)) [
  | inl free ↦ let k = rw free at h in let same : y ≡ r = cc in inl (subst IsValid same v)
  | inr fixed ↦ elim (Bool-cases (PortRange.is_default y)) [
    | inl any ↦ let k = rw (fixed, any) at h in let same : x ≡ r = cc in inr (any, sym same)
    | inr set ↦ inl (overlap-IsValid x y r v fixed set h)
  ]
]

-- Only the client's own range can make the result unreadable.
pub ports_unreadable :
    (c s : Option PortRange) (e : Entries PortRange) (v : ParseError)
    → negotiate_v3 port_eq c s combine_ports ≡ ok e
    → IsReadable s
    → read_port (effective e s) ≡ err v
    → (x : PortRange) × (c ≡ some x) × NoPreference s × (from_str (display x) ≡ err v)
unfolding negotiate_v3 effective combine_ports
ports_unreadable none none e v h readable failed =
    let same : (none, none) ≡ e = cc in
    absurd (
      readable_fails none v tt
        (subst (λ x. read_port (effective x none) ≡ err v) (sym same) failed))
ports_unreadable none (some y) e v h readable failed =
    let same : (none, none) ≡ e = cc in
    absurd (
      readable_fails (some y) v readable
        (subst (λ x. read_port (effective x (some y)) ≡ err v) (sym same) failed))
ports_unreadable (some x) none e v h readable failed =
    let same : (some x, none) ≡ e = cc in
    (
      x,
      refl,
      tt,
      read_port_failure x v (subst (λ x. read_port (effective x none) ≡ err v) (sym same) failed),
    )
ports_unreadable (some x) (some y) e v h readable failed = elim (Bool-cases (port_eq x y)) [
  | inl equal ↦
      let k = rw equal at h in
      let same : (none, none) ≡ e = cc in
      absurd (
        readable_fails (some y) v readable
          (subst (λ x. read_port (effective x (some y)) ≡ err v) (sym same) failed))
  | inr differ ↦
      let k = rw differ at h in
      elim (Result-cases (PortRange.combine x y)) [
        | inl (r, c) ↦
            let l = rw (c, combine_ports) at k in
            let same : (none, some r) ≡ e = cc in
            let unread = subst (λ x. read_port (effective x (some y)) ≡ err v) (sym same) failed in
            elim (combined-IsReadable x y r readable c) [
              | inl valid ↦ absurd (readable_fails (some r) v valid unread)
              | inr (any, one) ↦ (
                x,
                refl,
                any,
                read_port_failure x v (subst (λ z. read_port (some z) ≡ err v) one unread),
              )
            ]
        | inr (p, c) ↦ let l = rw (c, combine_ports) at k in cc
      ]
]
