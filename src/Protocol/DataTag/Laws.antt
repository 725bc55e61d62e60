-- ===== src/Protocol/DataTag/Laws.antt =====
-- Looking a tag up in a list that is built by pushing items.
use qcp.Prelude.{
  ◌≡◌, refl, Bool, true, false, Option, none, some, List, [], ◌∷◌, ◌++◌, ◌==◌, if◌then◌else◌, arith,
  ap, ◌∙◌,
}
use qcp.Protocol.Variant.{Variant}
use qcp.Protocol.DataTag.{DataTag, TaggedData, new, tag, find_tag, push_some}

abbrev pub or_else {ℓ} : {A : Type ℓ} → Option A → Option A → Option A
or_else none o = o
or_else (some a) o = some a

-- What an item under the tag `e`, if it is sent, shows to a search.
abbrev pub sent {κ} : {A : Type κ} → Bool → (A → Variant) → Option A → Option Variant
sent true f none = none
sent true f (some a) = some (f a)
sent false f o = none

module _ {E : Type 0} ⦃d : DataTag E⦄ where
  -- The tag of a new item is read back.
  pub tag-new : (e : E) (v : Variant) → tag (new e v) ≡ some e
  unfolding tag new
  tag-new e v = d.try_from-to_u64 e

  pub find_tag-append :
      (t : E) (xs ys : List (TaggedData E))
      → find_tag t (xs ++ ys) ≡ or_else (find_tag t xs) (find_tag t ys)
  unfolding find_tag
  find_tag-append t [] ys = refl
  find_tag-append t (x ∷ xs) ys = ground (arith, find_tag-append t xs ys)

  pub find_tag-nil : (t : E) → find_tag t [] ≡ none
  unfolding find_tag
  find_tag-nil t = refl

  pub find_tag-one :
      (t e : E) (v : Variant)
      → find_tag t (new e v ∷ []) ≡ (if d.to_u64 e == d.to_u64 t then some v else none)
  unfolding find_tag new
  find_tag-one t e v = refl

  -- An item pushed at the end is found where nothing before it has its tag.
  pub find_tag-push_some {κ} :
      {A : Type κ} (t e : E) (f : A → Variant) (o : Option A) (xs : List (TaggedData E))
      → find_tag t (push_some e f o xs)
        ≡ or_else (find_tag t xs) (sent (d.to_u64 e == d.to_u64 t) f o)
  unfolding push_some
  find_tag-push_some t e f none xs = ground arith
  find_tag-push_some t e f (some a) xs =
      find_tag-append t xs (new e (f a) ∷ [])
      ∙ ap (or_else (find_tag t xs)) (ground (arith, find_tag-one t e (f a)))
