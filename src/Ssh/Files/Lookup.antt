-- ===== src/Ssh/Files/Lookup.antt =====
-- The settings that a parse ends with: for each key the first that a matching section holds.
use qcp.Prelude.{
  ◌≡◌, refl, Bool, true, false, Option, none, some, List, [], ◌∷◌, ◌++◌, if◌then◌else◌, ok,
  >>=-eq-ok, Bool-cases, Option-cases, inl, inr, sym, ◌∙◌,
}
use qcp.Prelude.Text.{Str, str_eq, str_eq_sound}
use qcp.Ssh.Matching.{evaluate_host_match}
use qcp.Ssh.Files.{
  Files, Setting, Data, get, insert_new, add_setting, parse_file_inner, parse_file_for,
  include_depth_limit,
}
use qcp.Ssh.Files.Flat.{Item, section, setting, flat_file, apply, parse_file_inner-flat_file}

abbrev pub or_else : Option Setting → Option Setting → Option Setting
or_else (some v) o = some v
or_else none o = o

-- The first setting of the key in the sections that apply; `accepting` is whether the present
-- section does.
abbrev pub first : (List Str → Bool) → Str → Bool → List Item → Option Setting
first applies key accepting [] = none
first applies key accepting (section args ∷ items) = first applies key (applies args) items
first applies key accepting (setting source n keyword args ∷ items) =
    let later = first applies key accepting items in
    if accepting
    then if str_eq keyword key
      then some (record { source = source; line_number = n; args = args })
      else later
    else later

or_else-none : (o : Option Setting) → o ≡ or_else o none
or_else-none none = refl
or_else-none (some v) = refl

or_else_assoc : (a b c : Option Setting) → or_else (or_else a b) c ≡ or_else a (or_else b c)
or_else_assoc none b c = refl
or_else_assoc (some v) b c = refl

get-append :
    (key k : Str) (v : Setting) (xs : Data)
    → get key (xs ++ (k, v) ∷ []) ≡ or_else (get key xs) (if str_eq k key then some v else none)
unfolding get
get-append key k v [] = refl
get-append key k v ((k', v') ∷ xs) = elim (Bool-cases (str_eq k' key)) [
  | inl e ↦ rw e refl
  | inr e ↦ rw e (get-append key k v xs)
]

get-insert_new :
    (key k : Str) (v : Setting) (xs : Data)
    → get key (insert_new k v xs) ≡ or_else (get key xs) (if str_eq k key then some v else none)
unfolding insert_new
get-insert_new key k v xs = elim (Option-cases (get k xs)) [
  | inl e ↦ rw (e, insert_new) (get-append key k v xs)
  | inr (w, e) ↦ elim (Bool-cases (str_eq k key)) [
    | inl same ↦ rw (e, insert_new, same, ← str_eq_sound k key same, e) refl
    | inr other ↦ rw (e, insert_new, other) (or_else-none (get key xs))
  ]
]

or_else_hit :
    (b : Bool) (v : Setting) (o : Option Setting)
    → or_else (if b then some v else none) o ≡ (if b then some v else o)
or_else_hit true v o = refl
or_else_hit false v o = refl

module _ (files : Files) (for_host : Option Str) where
  abbrev pub applies : List Str → Bool
  applies args = evaluate_host_match files.matches for_host args

  get-apply :
      (key : Str) (items : List Item) (accepting : Bool) (out : Data)
      → get key (apply files for_host items (record { accepting = accepting; output = out })).output
        ≡ or_else (get key out) (first applies key accepting items)
  unfolding add_setting
  get-apply key [] accepting out = or_else-none (get key out)
  get-apply key (section args ∷ items) accepting out = get-apply key items (applies args) out
  get-apply key (setting source n keyword args ∷ items) true out =
      let v : Setting = record { source = source; line_number = n; args = args } in
      rw
        (
          get-apply key items true (insert_new keyword v out),
          get-insert_new key keyword v out,
          or_else_assoc (get key out) (if str_eq keyword key then some v else none)
              (first applies key true items),
          or_else_hit (str_eq keyword key) v (first applies key true items),
        )
        refl
  get-apply key (setting source n keyword args ∷ items) false out = get-apply key items false out

  -- If a text is parsed for a host, its lines and those of its includes, 16 deep, are one list of
  -- lines, and the value of every key is the first that a section matching the host holds, where
  -- what stands before the first section always applies.
  pub parse_file_for-first :
      (source : Str) (lines : List (Option Str)) (output : Data)
      → parse_file_for files for_host source lines ≡ ok output
      → (items : List Item) × (flat_file files include_depth_limit source lines ≡ ok items)
        × ((key : Str) → get key output ≡ first applies key true items)
  unfolding parse_file_for
  parse_file_for-first source lines output h =
      let (st, parsed, same) =
        >>=-eq-ok
          (parse_file_inner files for_host include_depth_limit source lines
            (record { accepting = true; output = [] }))
          _ h in
      let flat =
        sym (
          parse_file_inner-flat_file files for_host include_depth_limit source lines
            (record { accepting = true; output = [] }))
        ∙ parsed in
      let (items, read, applied) =
        >>=-eq-ok (flat_file files include_depth_limit source lines) _ flat in
      let end : (apply files for_host items (record { accepting = true; output = [] })).output
          ≡ output =
        cc in
      (items, read, λ key. rw (← end) (get-apply key items true []))
