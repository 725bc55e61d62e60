-- ===== src/Prelude/Results.antt =====
-- Results of fallible code: `Result` with its error type, and its monad.
use mathlib.Core.Path.{◌≡◌, refl}
use mathlib.Core.Logic.{◌⊎◌, inl, inr}
use mathlib.Core.Bool.{Bool, true, false}

pub data Result {ℓ} (E : Type 0) (A : Type ℓ) : Type ℓ where
  ok : A → Result E A
  err : E → Result E A

module _ {E : Type 0} where
  abbrev pub is_ok {ℓ} : {A : Type ℓ} → Result E A → Bool
  is_ok (err x) = false
  is_ok (ok r) = true

  -- `anyhow::ensure!`
  abbrev pub ensure : Bool → E → Result E (Unit {0})
  ensure false failure = err failure
  ensure true failure = ok tt

  -- Rust's `?`: the first error ends the rest.
  infixl 5 ◌>>=◌
  abbrev pub ◌>>=◌ {ℓ κ} : {A : Type ℓ} {B : Type κ} → Result E A → (A → Result E B) → Result E B
  err x >>= rest = err x
  ok r >>= rest = rest r

  infixl 5 ◌>>◌
  abbrev pub ◌>>◌ {κ} : {B : Type κ} → Result E (Unit {0}) → Result E B → Result E B
  first >> second = first >>= λ _. second

pub Result-cases {ℓ} :
    {E : Type 0} {A : Type ℓ} (r : Result E A) → ((a : A) × (r ≡ ok a)) ⊎ ((x : E) × (r ≡ err x))
Result-cases (ok a) = inl (a, refl)
Result-cases (err x) = inr (x, refl)

-- What a chain that ends well went through on its way.
module _ {ℓ κ} {E : Type 0} {A : Type ℓ} {B : Type κ} where
  pub >>=-eq-ok :
      (step : Result E A) (next : A → Result E B) {end : B}
      → step >>= next ≡ ok end
      → (mid : A) × (step ≡ ok mid) × (next mid ≡ ok end)
  >>=-eq-ok (err x) next done = cc
  >>=-eq-ok (ok mid) next done = (mid, refl, done)

-- What stopped a chain that fails.
module _ {ℓ κ} {E : Type 0} {A : Type ℓ} {B : Type κ} where
  pub >>=-eq-err :
      (step : Result E A) (next : A → Result E B) {failure : E}
      → step >>= next ≡ err failure
      → (step ≡ err failure) ⊎ ((mid : A) × (step ≡ ok mid) × (next mid ≡ err failure))
  >>=-eq-err (err x) next stopped = inl cc
  >>=-eq-err (ok mid) next stopped = inr (mid, refl, stopped)

module _ {ℓ κ μ} {E : Type 0} {A : Type ℓ} {B : Type κ} {C : Type μ} where
  -- Two ways to go on that agree at each value agree behind a bind.
  pub >>=_step :
      (r : Result E A) (f : A → Result E C) (g : A → Result E B) (k : B → Result E C)
      → ((a : A) → f a ≡ (g a >>= k))
      → (r >>= f) ≡ ((r >>= g) >>= k)
  >>=_step (ok a) f g k h = h a
  >>=_step (err e) f g k h = refl

module _ {ℓ} {E : Type 0} {A : Type ℓ} where
  pub >>=-ok : (r : Result E A) → (r >>= λ a. ok a) ≡ r
  >>=-ok (ok a) = refl
  >>=-ok (err e) = refl
