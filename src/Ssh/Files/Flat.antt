-- ===== src/Ssh/Files/Flat.antt =====
-- A file with its includes, as one list of lines.
use qcp.Prelude.{
  ℕ, zero, suc, ◌≡◌, refl, Option, none, some, List, [], ◌∷◌, ◌++◌, Result, ok, err, ◌>>=◌,
  Option-cases, inl, inr,
}
use qcp.Prelude.Text.{Str}
use qcp.Ssh.Matching.{evaluate_host_match}
use qcp.Ssh.Files.{
  Line, host, include, generic, ParseError, cannot_open, cannot_expand, cannot_read,
  too_many_nested_includes, parse_line, Files, State, add_setting, each, open_and, include_arg,
  process_line, parse_lines, parse_file_inner,
}

-- A line that counts: where it stands, and what it says.
pub data Item : Type 0 where
  section : List Str → Item
  setting : Str → ℕ → Str → List Str → Item

-- The lists of several parts, one behind the other.
abbrev pub collect :
    {A : Type 0} → (A → Result ParseError (List Item)) → List A → Result ParseError (List Item)
collect g [] = ok []
collect g (a ∷ rest) = g a >>= λ xs. collect g rest >>= λ ys. ok (xs ++ ys)

module _ (files : Files) where
  unfoldable pub flat_open :
      (Str → List (Option Str) → Result ParseError (List Item))
      → Str
      → Result ParseError (List Item)
  flat_open inner f = elim (files.read_file f) [
    | none ↦ err (cannot_open f)
    | some lines ↦ inner f lines
  ]

  unfoldable pub flat_arg :
      (Str → Result ParseError (List Item)) → Str → Result ParseError (List Item)
  flat_arg sub arg = elim (files.find_include_files arg files.is_user) [
    | none ↦ err (cannot_expand arg)
    | some found ↦ collect sub found
  ]

  unfoldable pub flat_line :
      (Str → Result ParseError (List Item)) → Str → ℕ → Line → Result ParseError (List Item)
  unfolding flat_arg
  flat_line sub source n (host args) = ok (section args ∷ [])
  flat_line sub source n (include args) = collect (flat_arg sub) args
  flat_line sub source n (generic keyword args) = ok (setting source n keyword args ∷ [])
  flat_line sub source n _ = ok []

  unfoldable pub flat_lines :
      (Str → Result ParseError (List Item))
      → Str
      → ℕ
      → List (Option Str)
      → Result ParseError (List Item)
  unfolding flat_line
  flat_lines sub source n [] = ok []
  flat_lines sub source n (none ∷ lines) = err (cannot_read source)
  flat_lines sub source n (some text ∷ lines) = parse_line n text >>= λ line.
      flat_line sub source n line >>= λ xs.
      flat_lines sub source (suc n) lines >>= λ ys. ok (xs ++ ys)

  unfoldable pub flat_file : ℕ → Str → List (Option Str) → Result ParseError (List Item)
  unfolding flat_open flat_lines
  flat_file zero source lines = err too_many_nested_includes
  flat_file (suc fuel) source lines = flat_lines (flat_open (flat_file fuel)) source 1 lines

module _ (files : Files) (for_host : Option Str) where
  abbrev pub apply_item : Item → State → State
  apply_item (section args) st = record st {
    accepting = evaluate_host_match files.matches for_host args;
  }
  apply_item (setting source n keyword args) st = add_setting source n keyword args st

  abbrev pub apply : List Item → State → State
  apply [] st = st
  apply (i ∷ items) st = apply items (apply_item i st)

  apply-append : (xs ys : List Item) (st : State) → apply (xs ++ ys) st ≡ apply ys (apply xs st)
  apply-append [] ys st = refl
  apply-append (x ∷ xs) ys st = apply-append xs ys (apply_item x st)

  abbrev After : Result ParseError (List Item) → State → Result ParseError State
  After r st = r >>= λ items. ok (apply items st)

  -- A step that applies a list, then one that applies another, apply the lists put together.
  glue :
      (r t : Result ParseError (List Item)) (st : State) (m : Result ParseError State)
      (k : State → Result ParseError State)
      → m ≡ After r st
      → ((s : State) → k s ≡ After t s)
      → (m >>= k) ≡ After (r >>= λ xs. t >>= λ ys. ok (xs ++ ys)) st
  glue (ok xs) (ok ys) st m k hm hk = rw (hm, hk (apply xs st), apply-append xs ys st) refl
  glue (ok xs) (err e) st m k hm hk = rw (hm, hk (apply xs st)) refl
  glue (err e) t st m k hm hk = rw hm refl

  each-collect :
      {A : Type 0} (f : A → State → Result ParseError State) (g : A → Result ParseError (List Item))
      → ((a : A) (st : State) → f a st ≡ After (g a) st)
      → (xs : List A) (st : State) → each f xs st ≡ After (collect g xs) st
  each-collect f g h [] st = refl
  each-collect f g h (a ∷ xs) st =
      glue (g a) (collect g xs) st (f a st) (each f xs) (h a st) (λ s. each-collect f g h xs s)

  module _ (sub : Str → State → Result ParseError State)
      (flat : Str → Result ParseError (List Item))
      (same : (f : Str) (st : State) → sub f st ≡ After (flat f) st) where
    include_arg-flat_arg :
        (arg : Str) (st : State)
        → include_arg files for_host sub arg st ≡ After (flat_arg files flat arg) st
    unfolding include_arg flat_arg
    include_arg-flat_arg arg st = elim (Option-cases (files.find_include_files arg files.is_user)) [
      | inl e ↦ rw (e, include_arg, flat_arg) refl
      | inr (found, e) ↦ rw (e, include_arg, flat_arg) (each-collect sub flat same found st)
    ]

    process_line-flat_line :
        (source : Str) (n : ℕ) (line : Line) (st : State)
        → process_line files for_host sub source n line st
          ≡ After (flat_line files flat source n line) st
    unfolding process_line flat_line
    process_line-flat_line source n (include args) st =
        each-collect (include_arg files for_host sub) (flat_arg files flat) include_arg-flat_arg
          args st
    process_line-flat_line source n _ st = refl

    parsed_line :
        (source : Str) (n : ℕ) (st : State) (r : Result ParseError Line)
        (k : State → Result ParseError State) (t : Result ParseError (List Item))
        → ((s : State) → k s ≡ After t s)
        → (r >>= λ line. process_line files for_host sub source n line st >>= k)
          ≡ After
              (r >>= λ line. flat_line files flat source n line >>= λ xs. t >>= λ ys. ok (xs ++ ys))
              st
    parsed_line source n st (err e) k t h = refl
    parsed_line source n st (ok line) k t h =
        glue (flat_line files flat source n line) t st
          (process_line files for_host sub source n line st) k
          (process_line-flat_line source n line st) h

    parse_lines-flat_lines :
        (source : Str) (n : ℕ) (lines : List (Option Str)) (st : State)
        → parse_lines files for_host sub source n lines st
          ≡ After (flat_lines files flat source n lines) st
    unfolding parse_lines flat_lines
    parse_lines-flat_lines source n [] st = refl
    parse_lines-flat_lines source n (none ∷ lines) st = refl
    parse_lines-flat_lines source n (some text ∷ lines) st =
        parsed_line source n st (parse_line n text)
          (parse_lines files for_host sub source (suc n) lines)
          (flat_lines files flat source (suc n) lines)
          (λ s. parse_lines-flat_lines source (suc n) lines s)

  open_and-flat_open :
      (inner : Str → List (Option Str) → State → Result ParseError State)
      (flat : Str → List (Option Str) → Result ParseError (List Item))
      → ((f : Str) (lines : List (Option Str)) (st : State)
          → inner f lines st ≡ After (flat f lines) st)
      → (f : Str) (st : State)
      → open_and files for_host inner f st ≡ After (flat_open files flat f) st
  unfolding open_and flat_open
  open_and-flat_open inner flat h f st = elim (Option-cases (files.read_file f)) [
    | inl e ↦ rw (e, open_and, flat_open) refl
    | inr (lines, e) ↦ rw (e, open_and, flat_open) (h f lines st)
  ]

  -- At any depth, parsing a file is reading it with all its includes as one list of lines, or failing
  -- with the same error, and then applying the lines in order.
  pub parse_file_inner-flat_file :
      (fuel : ℕ) (source : Str) (lines : List (Option Str)) (st : State)
      → parse_file_inner files for_host fuel source lines st
        ≡ (flat_file files fuel source lines >>= λ items. ok (apply items st))
  unfolding parse_file_inner flat_file
  parse_file_inner-flat_file zero source lines st = refl
  parse_file_inner-flat_file (suc fuel) source lines st =
      parse_lines-flat_lines (open_and files for_host (parse_file_inner files for_host fuel))
        (flat_open files (flat_file files fuel))
        (open_and-flat_open (parse_file_inner files for_host fuel) (flat_file files fuel)
          (parse_file_inner-flat_file fuel))
        source 1 lines st
