-- ===== src/Ssh/Keywords/Spelling.antt =====
-- How a keyword may be spelt: case, hyphens and underscores do not count.
use mathlib.Core.List.{Memᴰ}
use mathlib.Core.List.Memᴰ
use qcp.Prelude.{ℕ, ◌≡◌, refl, ◌||◌, List, [], ◌∷◌, ◌==◌, arith, All, Bool-cases, inl, inr}
use qcp.Prelude.Text.{Str}
use qcp.Ssh.Keywords.{to_ascii_lowercase, canonical, field_names, to_configuration_field}

All-Memᴰ : {A : Type 0} (P : A → Type 0) {a : A} (xs : List A) → All P xs → Memᴰ a xs → P a
All-Memᴰ P [] all m = absurd (Memᴰ.not-nil m)
All-Memᴰ P (x ∷ xs) (px, all) (Memᴰ.head e) = rw e px
All-Memᴰ P (x ∷ xs) (px, all) (Memᴰ.tail m) = All-Memᴰ P xs all m

to_ascii_lowercase_twice :
    (c : ℕ) → to_ascii_lowercase (to_ascii_lowercase c) ≡ to_ascii_lowercase c
to_ascii_lowercase_twice c = ground arith

-- The canonical form is its own canonical form.
pub canonical_twice : (s : Str) → canonical (canonical s) ≡ canonical s
unfolding canonical
canonical_twice [] = refl
canonical_twice (c ∷ s) =
    let ch = to_ascii_lowercase c in
    elim (Bool-cases (ch == b'_' || ch == b'-')) [
      | inl e ↦ rw e (canonical_twice s)
      | inr e ↦ rw (e, to_ascii_lowercase_twice c, e, canonical_twice s) refl
    ]

fields_found : All (λ name. to_configuration_field field_names (canonical name) ≡ name) field_names
unfolding to_configuration_field
fields_found = (
  refl,
  (
    refl,
    (
      refl,
      (
        refl,
        (
          refl,
          (
            refl,
            (
              refl,
              (
                refl,
                (
                  refl,
                  (
                    refl,
                    (
                      refl,
                      (
                        refl,
                        (
                          refl,
                          (
                            refl,
                            (
                              refl,
                              (
                                refl,
                                (
                                  refl,
                                  (
                                    refl,
                                    (refl, (refl, (refl, (refl, (refl, (refl, (refl, tt))))))),
                                  ),
                                ),
                              ),
                            ),
                          ),
                        ),
                      ),
                    ),
                  ),
                ),
              ),
            ),
          ),
        ),
      ),
    ),
  ),
)

-- A field of the configuration is found under every spelling that differs from its name in
-- upper and lower case, hyphens and underscores only.
pub to_configuration_field_spelling :
    (name s : Str)
    → Memᴰ name field_names
    → canonical s ≡ canonical name
    → to_configuration_field field_names (canonical s) ≡ name
to_configuration_field_spelling name s m e = rw e (
    All-Memᴰ (λ n. to_configuration_field field_names (canonical n) ≡ n) field_names fields_found m)
