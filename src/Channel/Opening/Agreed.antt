-- ===== src/Channel/Opening/Agreed.antt =====
-- What the two ends know when the control channel is open.
use mathlib.Core.Path.{sym, subst}
use qcp.Prelude.{
  ℕ, zero, suc, ◌≡◌, ◌↔◌, refl, Bool, Option, none, [], ◌∷◌, ◌++◌, ltb, min, length, take, drop, ok,
  arith, Bool-cases, inl, inr,
}
use qcp.Prelude.Text.{Str, str_eq, str_eq_sound}
use qcp.Protocol.Compat.{Compatibility, level, basic_protocol, our_compatibility_numeric}
use qcp.Protocol.Compat.Laws.{agreed_level}
use qcp.Channel.Opening.{
  banner, old_banner, End, wait_for_banner, our_compatibility_level, client_greeting,
  server_greeting, client_selects, server_selects,
}

take-drop : (n : ℕ) (s : Str) → take n s ++ drop n s ≡ s
take-drop zero s = refl
take-drop (suc n) [] = refl
take-drop (suc n) (c ∷ s) = rw (take-drop n s) refl

banner_read : (end : End) (s rest : Str) → wait_for_banner end s ≡ ok rest → s ≡ banner ++ rest
unfolding wait_for_banner
banner_read end [] rest h = cc
banner_read end (b ∷ s) rest h = elim (Bool-cases (ltb (length (b ∷ s)) (length banner))) [
  | inl e ↦ let k = rw e at h in cc
  | inr e ↦ elim (Bool-cases (str_eq (take (length banner) (b ∷ s)) banner)) [
    | inl m ↦
        let k = rw (e, m) at h in
        let same = str_eq_sound (take (length banner) (b ∷ s)) banner m in
        let whole = take-drop (length banner) (b ∷ s) in
        let tail : drop (length banner) (b ∷ s) ≡ rest = cc in
        subst (λ x. b ∷ s ≡ x ++ rest) same
          (subst (λ y. b ∷ s ≡ take (length banner) (b ∷ s) ++ y) tail (sym whole))
    | inr m ↦ elim (Bool-cases (str_eq (take (length banner) (b ∷ s)) old_banner)) [
      | inl o ↦ let k = rw (e, m, o) at h in cc
      | inr o ↦ let k = rw (e, m, o) at h in cc
    ]
  ]
]

banner_accepted : (end : End) (rest : Str) → wait_for_banner end (banner ++ rest) ≡ ok rest
unfolding wait_for_banner
banner_accepted end rest = ground arith

-- The client goes on exactly if what arrives starts with the banner, and reads no more than that.
pub wait_for_banner_iff :
    (end : End) (s rest : Str) → (wait_for_banner end s ≡ ok rest) ↔ (s ≡ banner ++ rest)
wait_for_banner_iff end s rest = (banner_read end s rest, (λ e. rw e (banner_accepted end rest)))

-- Each end selects the lower of its own level and the one that the other declares, and then uses
-- exactly the features of that level. Without forced levels the two ends select the same level,
-- which is their own.
pub greetings-Agreed :
    (remote_debug : Bool) (client_force server_force : Option Compatibility)
    → (client_selects (server_greeting server_force)
        ≡ level (min our_compatibility_numeric (server_greeting server_force).compatibility))
      × (server_selects (client_greeting remote_debug client_force)
          ≡ level (
              min our_compatibility_numeric
                (client_greeting remote_debug client_force).compatibility))
      × (client_selects (server_greeting none) ≡ server_selects (client_greeting remote_debug none))
      × (client_selects (server_greeting none) ≡ our_compatibility_level)
unfolding client_selects server_selects client_greeting server_greeting
greetings-Agreed remote_debug client_force server_force = (
  (agreed_level (server_greeting server_force).compatibility basic_protocol).0,
  (agreed_level (client_greeting remote_debug client_force).compatibility basic_protocol).0,
  refl,
  refl,
)
