-- ===== src/Protocol/Variant.antt =====
-- qcp/src/protocol/variant.rs: the variant type that attributes are sent in, its conversions and
-- its limited coercions. An `i64` is an integer, a `u64` a number; `FitsI64` and `< 2 ^ 64` are their
-- ranges. `Text` holds code points; a map is the list of its entries.
pub mod Casts
use qcp.Prelude.{
  ℕ, ◌+◌, ◌-◌, ◌%◌, ◌^◌, ◌<◌, ◌≡◌, Bool, true, false, not, Option, none, some, List, ltb, ◌==◌,
  if◌then◌else◌, Result, ok, err,
}
use qcp.Prelude.Int.{ℤ, pos, negsuc}
use qcp.Prelude.Text.{Str}

mutual
  pub data Variant : Type 0 where
    empty : Variant
    boolean : Bool → Variant
    signed : ℤ → Variant
    unsigned : ℕ → Variant
    string : Str → Variant
    bytes : List ℕ → Variant
    list : VariantList → Variant
    map : VariantMap → Variant

  pub data VariantList : Type 0 where
    nil : VariantList
    cons : Variant → VariantList → VariantList

  pub data VariantMap : Type 0 where
    end : VariantMap
    entry : Str → Variant → VariantMap → VariantMap

-- `into_…` and `as_…_ref`: the inner value, if the variant is of that type.
unfoldable pub into_bool : Variant → Option Bool
into_bool (boolean b) = some b
into_bool _ = none

unfoldable pub into_bytes : Variant → Option (List ℕ)
into_bytes (bytes b) = some b
into_bytes _ = none

unfoldable pub into_string : Variant → Option Str
into_string (string s) = some s
into_string _ = none

unfoldable pub into_list : Variant → Option VariantList
into_list (list l) = some l
into_list _ = none

unfoldable pub into_map : Variant → Option VariantMap
into_map (map m) = some m
into_map _ = none

unfoldable pub into_unsigned : Variant → Option ℕ
into_unsigned (unsigned u) = some u
into_unsigned _ = none

unfoldable pub into_signed : Variant → Option ℤ
into_signed (signed i) = some i
into_signed _ = none

-- `u64 as i64` and `i64 as u64` keep the 64 bits.
unfoldable pub as_i64 : ℕ → ℤ
as_i64 u = if ltb u (2 ^ 63) then pos u else negsuc (2 ^ 64 - 1 - u)

unfoldable pub as_u64 : ℤ → ℕ
as_u64 (pos n) = n % 2 ^ 64
as_u64 (negsuc n) = 2 ^ 64 - 1 - n % 2 ^ 64

abbrev pub FitsI64 : ℤ → Type 0
FitsI64 (pos n) = n < 2 ^ 63
FitsI64 (negsuc n) = n < 2 ^ 63

unfoldable pub coerce_bool : Variant → Bool
coerce_bool (boolean b) = b
coerce_bool (unsigned u) = not (u == 0)
coerce_bool (signed (pos n)) = not (n == 0)
coerce_bool (signed (negsuc n)) = true
coerce_bool _ = false

unfoldable pub coerce_signed : Variant → ℤ
unfolding as_i64
coerce_signed (signed i) = i
coerce_signed (unsigned u) = as_i64 u
coerce_signed (boolean b) = pos (if b then 1 else 0)
coerce_signed _ = pos 0

unfoldable pub coerce_unsigned : Variant → ℕ
unfolding as_u64
coerce_unsigned (signed i) = as_u64 i
coerce_unsigned (unsigned u) = u
coerce_unsigned (boolean b) = if b then 1 else 0
coerce_unsigned _ = 0
