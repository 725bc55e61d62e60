-- ===== src/Protocol/Variant/Casts.antt =====
-- The coercions of a variant agree with one another.
use qcp.Prelude.{ℕ, ◌<◌, ◌^◌, ◌≡◌, ◌≢◌, ◌↔◌, refl, true, false, arith}
use qcp.Prelude.Int.{ℤ, pos, negsuc}
use qcp.Protocol.Variant.{
  Variant, empty, boolean, signed, unsigned, FitsI64, as_i64, as_u64, coerce_bool, coerce_signed,
  coerce_unsigned,
}

-- The ranges of the machine integers inside a variant, at its top.
abbrev pub InRange : Variant → Type 0
InRange (signed i) = FitsI64 i
InRange (unsigned u) = u < 2 ^ 64
InRange _ = Unit

as_u64-as_i64 : (u : ℕ) → u < 2 ^ 64 → as_u64 (as_i64 u) ≡ u
unfolding as_i64 as_u64
as_u64-as_i64 u h = ground arith

as_i64-as_u64 : (i : ℤ) → FitsI64 i → as_i64 (as_u64 i) ≡ i
unfolding as_i64 as_u64
as_i64-as_u64 (pos n) h = ground arith
as_i64-as_u64 (negsuc n) h = ground arith

-- Coercing to the signed type keeps the 64 bits: the unsigned and the signed reading determine one
-- another, for every variant.
pub coerce_signed-coerce_unsigned :
    (v : Variant)
    → InRange v
    → (as_i64 (coerce_unsigned v) ≡ coerce_signed v)
      × (as_u64 (coerce_signed v) ≡ coerce_unsigned v)
unfolding coerce_signed coerce_unsigned
coerce_signed-coerce_unsigned empty h = (refl, refl)
coerce_signed-coerce_unsigned (boolean true) h = (refl, refl)
coerce_signed-coerce_unsigned (boolean false) h = (refl, refl)
coerce_signed-coerce_unsigned (signed i) h = (as_i64-as_u64 i h, refl)
coerce_signed-coerce_unsigned (unsigned u) h = (refl, as_u64-as_i64 u h)
coerce_signed-coerce_unsigned _ h = (refl, refl)

-- A variant coerces to true exactly if it does not coerce to 0.
pub coerce_bool_iff : (v : Variant) → InRange v → (coerce_bool v ≡ true) ↔ (coerce_unsigned v ≢ 0)
unfolding coerce_bool coerce_unsigned
coerce_bool_iff (boolean b) h = ground arith
coerce_bool_iff (signed (pos n)) h = ground arith
coerce_bool_iff (signed (negsuc n)) h = ground arith
coerce_bool_iff (unsigned u) h = ground arith
coerce_bool_iff _ h = ground arith
