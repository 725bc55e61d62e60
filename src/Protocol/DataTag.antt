-- ===== src/Protocol/DataTag.antt =====
-- qcp/src/protocol/data_tag.rs: data under a numeric tag, and the search for a tag in a list.
-- A tag enumeration is an instance of `DataTag`; a tag that it does not know stays a number.
pub mod Laws
use qcp.Prelude.{ℕ, ◌≡◌, Option, none, some, List, [], ◌∷◌, ◌++◌, ◌==◌, if◌then◌else◌}
use qcp.Prelude.Int.{ℤ}
use qcp.Prelude.Text.{Str}
use qcp.Protocol.Variant.{Variant, empty, unsigned, signed, bytes, string}

-- `Into<u64> + TryFrom<u64>`, as `int_enum::IntEnum` derives them.
pub record DataTag (E : Type 0) : Type 0 where
  pub to_u64 : E → ℕ
  pub try_from : ℕ → Option E
  pub try_from-to_u64 : (e : E) → try_from (to_u64 e) ≡ some e

pub record TaggedData (E : Type 0) : Type 0 where
  pub tag_raw : ℕ
  pub payload : Variant

module _ {E : Type 0} ⦃d : DataTag E⦄ where
  unfoldable pub new : E → Variant → TaggedData E
  new option v = record { tag_raw = d.to_u64 option; payload = v }

  unfoldable pub from : E → TaggedData E
  unfolding new
  from value = new value empty

  unfoldable pub with_unsigned : E → ℕ → TaggedData E
  unfolding new
  with_unsigned e u = new e (unsigned u)

  unfoldable pub with_signed : E → ℤ → TaggedData E
  unfolding new
  with_signed e i = new e (signed i)

  unfoldable pub with_bytes : E → List ℕ → TaggedData E
  unfolding new
  with_bytes e b = new e (bytes b)

  unfoldable pub with_str : E → Str → TaggedData E
  unfolding new
  with_str e s = new e (string s)

  unfoldable pub tag : TaggedData E → Option E
  tag td = d.try_from td.tag_raw

  -- The first item under the tag wins.
  unfoldable pub find_tag : E → List (TaggedData E) → Option Variant
  find_tag wanted [] = none
  find_tag wanted (item ∷ items) =
      if item.tag_raw == d.to_u64 wanted then some item.payload else find_tag wanted items

  -- `if let Some(a) = o { attributes.push(e.with_…(a)) }`
  unfoldable pub push_some {κ} :
      {A : Type κ} → E → (A → Variant) → Option A → List (TaggedData E) → List (TaggedData E)
  unfolding new
  push_some e f none attributes = attributes
  push_some e f (some a) attributes = attributes ++ new e (f a) ∷ []
