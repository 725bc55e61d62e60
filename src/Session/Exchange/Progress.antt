-- ===== src/Session/Exchange/Progress.antt =====
-- Stretches of an exchange: what a file's bytes and a row of packets do to the two ends.
use mathlib.Core.List
use mathlib.Core.Path.{subst}
use qcp.Prelude.{
  ℕ, zero, suc, ◌+◌, ◌≡◌, refl, Option, some, List, [], ◌∷◌, ◌++◌, append_assoc, append-nil, Result,
  ok, err, length, Result-cases, inl, inr,
}
use qcp.Session.Effects.{M, then_, send_bytes, arrived, copy_in}
use qcp.Session.Exchange.{Endpoint, send, receive, Connection, connection, step_first, step_second}
use qcp.Session.Exchange.Schedule.{Step, first, second, Steps, here, then, IsOver, Steps-join}
use qcp.Session.Files.{FileSystem}
use qcp.Session.Messages.{IoError, Packet, byte_}

module _ {Item R S : Type 0} where
  -- Some schedule leads from here to there.
  abbrev pub Reaches : Connection Item R S → Connection Item R S → Type 0
  Reaches c d = (n : ℕ) × Steps n c d

  pub stays : (c : Connection Item R S) → Reaches c c
  stays c = (zero, here)

  pub goes : {c d e : Connection Item R S} → Step c d → Reaches d e → Reaches c e
  goes st (n, run) = (suc n, then st run)

  Steps-trans : {n : ℕ} {c d e : Connection Item R S} → Steps n c d → Reaches d e → Reaches c e
  Steps-trans here r = r
  Steps-trans (then st rest) r = goes st (Steps-trans rest r)

  pub Reaches-trans : {c d e : Connection Item R S} → Reaches c d → Reaches d e → Reaches c e
  Reaches-trans (n, run) r = Steps-trans run r

  pub first_sends :
      (i : Item) (p : Endpoint Item R) (q : Endpoint Item S) (up down : List Item)
      → Step (connection (send i p) q up down) (connection p q (up ++ i ∷ []) down)
  unfolding step_first
  first_sends i p q up down = first refl

  pub second_sends :
      (i : Item) (p : Endpoint Item R) (q : Endpoint Item S) (up down : List Item)
      → Step (connection p (send i q) up down) (connection p q up (down ++ i ∷ []))
  unfolding step_second
  second_sends i p q up down = second refl

  pub first_receives :
      (i : Item) (k : Option Item → Endpoint Item R) (q : Endpoint Item S) (up down : List Item)
      → Step (connection (receive k) q up (i ∷ down)) (connection (k (some i)) q up down)
  unfolding step_first
  first_receives i k q up down = first refl

  pub second_receives :
      (i : Item) (p : Endpoint Item R) (k : Option Item → Endpoint Item S) (up down : List Item)
      → Step (connection p (receive k) (i ∷ up) down) (connection p (k (some i)) up down)
  unfolding step_second
  second_receives i p k up down = second refl

abbrev pub as_bytes : List ℕ → List Packet
as_bytes = List.map byte_

-- What is written byte by byte, if every write succeeds.
unfoldable pub write_all : {W : Type 0} → FileSystem W → ℕ → List ℕ → W → Result IoError W
write_all fs file [] w = ok w
write_all fs file (b ∷ bs) w = elim (fs.write file b w) [
  | ok w' ↦ write_all fs file bs w'
  | err e ↦ err e
]

module _ {W B S : Type 0} where
  pub send_bytes-Reaches :
      (bs : List ℕ) (f : Unit {0} → M W B) (w : W) (q : Endpoint Packet S) (up down : List Packet)
      → Reaches
          (connection (then_ (send_bytes bs w) f) q up down)
          (connection (f tt w) q (up ++ as_bytes bs) down)
  send_bytes-Reaches [] f w q up down = rw append-nil (stays _)
  send_bytes-Reaches (b ∷ bs) f w q up down =
      goes (first_sends (byte_ b) (then_ (send_bytes bs w) f) q up down) (
        rw (← append_assoc up (byte_ b ∷ []) (as_bytes bs))
          (send_bytes-Reaches bs f w q (up ++ byte_ b ∷ []) down))

module _ {R W B : Type 0} (fs : FileSystem W) (file : ℕ) where
  pub copy_in-Reaches :
      (bs : List ℕ) (f : Result IoError (Unit {0}) → M W B) (w w' : W) (p : Endpoint Packet R)
      (up down : List Packet)
      → write_all fs file bs w ≡ ok w'
      → Reaches
          (connection p (then_ (copy_in fs file (length bs) w) f) (as_bytes bs ++ up) down)
          (connection p (f (ok tt) w') up down)
  unfolding copy_in write_all
  copy_in-Reaches [] f w w' p up down h =
      let same : w ≡ w' = cc in
      subst (λ v. Reaches (connection p (f (ok tt) w) up down) (connection p (f (ok tt) v) up down))
        same (stays _)
  copy_in-Reaches (b ∷ bs) f w w' p up down h = elim (Result-cases (fs.write file b w)) [
    | inl (v, e) ↦
        let rest = copy_in-Reaches bs f v w' p up down (rw (e, write_all) at h) in
        goes
          (second_receives (byte_ b) p
            (λ o. then_ (arrived fs file (copy_in fs file (length bs)) o w) f) (as_bytes bs ++ up)
            down)
          (rw (e, arrived) rest)
    | inr (x, e) ↦ let k = rw (e, write_all) at h in cc
  ]

-- The exchange has one end, to which every schedule leads on in the same number of steps.
abbrev pub AlwaysEnds : {R S : Type 0} → Connection Packet R S → Connection Packet R S → Type 0
AlwaysEnds {R} {S} c t =
    (n : ℕ) × ((m : ℕ) (d : Connection Packet R S)
      → Steps m c d
      → (k : ℕ) × (n ≡ m + k) × Steps k d t)

pub Reaches-AlwaysEnds :
    {R S : Type 0} (c t : Connection Packet R S) → IsOver t → Reaches c t → AlwaysEnds c t
Reaches-AlwaysEnds c t over (n, run) = (n, λ m d st. Steps-join n m c d t over run st)
