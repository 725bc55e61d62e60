-- ===== src/Session/Exchange/Schedule.antt =====
-- Every order in which the two ends of a stream go on leads to the same end.
use mathlib.Core.Path.{subst}
use qcp.Prelude.{ℕ, zero, suc, ◌+◌, ◌≡◌, refl, sym, Option, some, [], ◌∷◌, ◌++◌, arith}
use qcp.Session.Exchange.{
  finish, send, receive, diverge, Connection, connection, step_first, step_second,
}

module _ {Item R S : Type 0} where
  pub data Step (c d : Connection Item R S) : Type 0 where
    first : step_first c ≡ some d → Step c d
    second : step_second c ≡ some d → Step c d

  -- A schedule of so many steps.
  pub data Steps : ℕ → Connection Item R S → Connection Item R S → Type 0 where
    here : {c : Connection Item R S} → Steps zero c c
    then : {n : ℕ} {c d e : Connection Item R S} → Step c d → Steps n d e → Steps (suc n) c e

  -- Both ends have finished.
  abbrev pub IsOver : Connection Item R S → Type 0
  IsOver (connection (finish r) (finish s) up down) = Unit
  IsOver (connection _ _ up down) = ⊥

  not-Step-IsOver : (c d : Connection Item R S) → IsOver c → Step c d → ⊥
  unfolding step_first step_second
  not-Step-IsOver (connection (finish r) (finish s) up down) d o (first h) = cc
  not-Step-IsOver (connection (finish r) (finish s) up down) d o (second h) = cc
  not-Step-IsOver (connection (finish r) (send i q) up down) d o st = absurd o
  not-Step-IsOver (connection (finish r) (receive k) up down) d o st = absurd o
  not-Step-IsOver (connection (finish r) diverge up down) d o st = absurd o
  not-Step-IsOver (connection (send i p) q up down) d o st = absurd o
  not-Step-IsOver (connection (receive k) q up down) d o st = absurd o
  not-Step-IsOver (connection diverge q up down) d o st = absurd o

  -- Where both ends can go on, the order does not matter.
  abbrev Commute : Option (Connection Item R S) → Option (Connection Item R S) → Type 0
  Commute (some d) (some e) =
      (f : Connection Item R S) × (step_second d ≡ some f) × (step_first e ≡ some f)
  Commute _ _ = Unit

  commute : (c : Connection Item R S) → Commute (step_first c) (step_second c)
  unfolding step_first step_second
  commute (connection (finish r) q up down) = tt
  commute (connection (send i p) (finish s) up down) = tt
  commute (connection (send i p) (send j q) up down) =
      (connection p q (up ++ i ∷ []) (down ++ j ∷ []), refl, refl)
  commute (connection (send i p) (receive k) [] down) = tt
  commute (connection (send i p) (receive k) (j ∷ up) down) =
      (connection p (k (some j)) (up ++ i ∷ []) down, refl, refl)
  commute (connection (send i p) diverge up down) = tt
  commute (connection (receive k) (finish s) up []) = tt
  commute (connection (receive k) (finish s) up (i ∷ down)) = tt
  commute (connection (receive k) (send j q) up []) = tt
  commute (connection (receive k) (send j q) up (i ∷ down)) =
      (connection (k (some i)) q up (down ++ j ∷ []), refl, refl)
  commute (connection (receive k) (receive l) up []) = tt
  commute (connection (receive k) (receive l) [] (i ∷ down)) = tt
  commute (connection (receive k) (receive l) (j ∷ up) (i ∷ down)) =
      (connection (k (some i)) (l (some j)) up down, refl, refl)
  commute (connection (receive k) diverge up []) = tt
  commute (connection (receive k) diverge up (i ∷ down)) = tt
  commute (connection diverge q up down) = tt

  first-second :
      (c d e : Connection Item R S)
      → step_first c ≡ some d
      → step_second c ≡ some e
      → (f : Connection Item R S) × (step_second d ≡ some f) × (step_first e ≡ some f)
  first-second c d e h k = let j = commute c in let j' = rw h at j in rw k at j'

  -- A first step leads on to the end of any schedule that reaches one, in one step less.
  Steps-strip :
      (n : ℕ) (c d t : Connection Item R S)
      → IsOver t
      → Steps n c t
      → Step c d
      → (m : ℕ) × (n ≡ suc m) × Steps m d t
  Steps-strip n c d t o here st = absurd (not-Step-IsOver c d o st)
  Steps-strip (suc n) c d t o (then {d = e} (first h) rest) (first k) =
      let same : e ≡ d = cc in (n, refl, subst (λ x. Steps n x t) same rest)
  Steps-strip (suc n) c d t o (then {d = e} (second h) rest) (second k) =
      let same : e ≡ d = cc in (n, refl, subst (λ x. Steps n x t) same rest)
  Steps-strip (suc n) c d t o (then {d = e} (first h) rest) (second k) =
      let (f, hf, kf) = first-second c e d h k in
      let (m, small, later) = Steps-strip n e f t o rest (second hf) in
      (n, refl, subst (λ x. Steps x d t) (sym small) (then (first kf) later))
  Steps-strip (suc n) c d t o (then {d = e} (second h) rest) (first k) =
      let (f, kf, hf) = first-second c d e k h in
      let (m, small, later) = Steps-strip n e f t o rest (first hf) in
      (n, refl, subst (λ x. Steps x d t) (sym small) (then (second kf) later))

  -- If one schedule takes a stream to its end, then every schedule of its two ends is a front part
  -- of one that takes it to the same end, in the same number of steps.
  pub Steps-join :
      (n m : ℕ) (c d t : Connection Item R S)
      → IsOver t
      → Steps n c t
      → Steps m c d
      → (k : ℕ) × (n ≡ m + k) × Steps k d t
  Steps-join n zero c d t o run here = (n, omega arith, run)
  Steps-join n (suc m) c d t o run (then {d = e} st rest) =
      let (n', small, later) = Steps-strip n c e t o run st in
      let (k, eq, end) = Steps-join n' m e d t o later rest in (k, omega arith, end)
