-- ===== src/Ssh/Files.antt =====
-- qcp/src/config/ssh/files.rs: `Parser`, one line and then a file with the files it includes. The
-- files are a parameter: `read_file` opens one and gives its lines (`none` for one that is not read), `find_include_files` expands
-- the argument of an Include directive. Errors keep their kind, not their text; the warning on
-- Match is left out. The depth limit of includes is the fuel.
pub mod Flat
pub mod Lookup
use qcp.Prelude.{
  ℕ, zero, suc, ◌+◌, ◌≡◌, Bool, true, false, not, ◌&&◌, ◌||◌, Option, none, some, List, [], ◌∷◌,
  ◌++◌, ltb, leb, ◌==◌, if◌then◌else◌, get_or, reverse, Result, ok, err, ◌>>=◌,
}
use qcp.Prelude.Text.{Str, codes, str_eq}
use qcp.Ssh.Lines.{LexError, split_args, is_blank}
use qcp.Ssh.Matching.{evaluate_host_match}
use qcp.Ssh.Keywords.{canonical, field_names, to_configuration_field}

pub data Line : Type 0 where
  empty : Line
  host match include : List Str → Line
  generic : Str → List Str → Line

pub data ParseError : Type 0 where
  lex : LexError → ℕ → ParseError
  missing_argument : ℕ → ParseError
  too_many_nested_includes : ParseError
  cannot_open cannot_expand cannot_read : Str → ParseError

-- `char::is_whitespace`
abbrev pub is_whitespace : ℕ → Bool
is_whitespace c =
    leb 9 c && leb c 13
    || c == 32
    || c == 133
    || c == 160
    || c == 5760
    || leb 8192 c && leb c 8202
    || c == 8232
    || c == 8233
    || c == 8239
    || c == 8287
    || c == 12288

abbrev pub trim_start : Str → Str
trim_start [] = []
trim_start (c ∷ s) = let rest = trim_start s in if is_whitespace c then rest else c ∷ s

abbrev pub trim : Str → Str
trim s = reverse (trim_start (reverse (trim_start s)))

-- `splitn(2, &[' ', '\t', '='])`, with the missing second part as an empty one.
abbrev pub cut : Str → Str × Str
cut [] = ([], [])
cut (c ∷ s) =
    let (keyword, rest) = cut s in if is_blank c || c == b'=' then ([], s) else (c ∷ keyword, rest)

abbrev pub line_of : Str → List Str → Line
line_of keyword args =
    if str_eq keyword (codes "host")
    then host args
    else if str_eq keyword (codes "match")
    then match args
    else if str_eq keyword (codes "include")
    then include args
    else generic (to_configuration_field field_names keyword) args

abbrev with_arguments : ℕ → Str → Result LexError (List Str) → Result ParseError Line
with_arguments n keyword (err e) = err (lex e n)
with_arguments n keyword (ok []) = err (missing_argument n)
with_arguments n keyword (ok (a ∷ args)) = ok (line_of keyword (a ∷ args))

abbrev pub starts_comment : Str → Bool
starts_comment [] = false
starts_comment (c ∷ s) = c == b'#'

abbrev pub is_empty : Str → Bool
is_empty [] = true
is_empty (c ∷ s) = false

unfoldable pub parse_line : ℕ → Str → Result ParseError Line
parse_line n line =
    let (word, rest) = cut (trim line) in
    let keyword = canonical word in
    if is_empty word
    then ok empty
    else if starts_comment keyword
    then ok empty
    else with_arguments n keyword (split_args rest)

pub record Setting : Type 0 where
  pub source : Str
  pub line_number : ℕ
  pub args : List Str

-- The map of the output: the keys are distinct.
abbrev pub Data : Type 0
Data = List (Str × Setting)

unfoldable pub get : Str → Data → Option Setting
get key [] = none
get key ((k, v) ∷ data_) = if str_eq k key then some v else get key data_

-- `entry(key).or_insert(value)`
unfoldable pub insert_new : Str → Setting → Data → Data
unfolding get
insert_new key value data_ = elim (get key data_) [
  | none ↦ data_ ++ (key, value) ∷ []
  | some v ↦ data_
]

pub record Files : Type 0 where
  pub matches : Str → Str → Bool
  pub is_user : Bool
  pub read_file : Str → Option (List (Option Str))
  pub find_include_files : Str → Bool → Option (List Str)

-- What the parser changes: whether it accepts settings, and the output.
pub record State : Type 0 where
  pub accepting : Bool
  pub output : Data

abbrev pub include_depth_limit : ℕ
include_depth_limit = 16

-- A setting, kept if the section applies and the key is new.
unfoldable pub add_setting : Str → ℕ → Str → List Str → State → State
unfolding insert_new
add_setting source n keyword args st =
    if st.accepting
    then record st {
      output =
          insert_new keyword (record { source = source; line_number = n; args = args }) st.output;
    }
    else st

-- One step after another over a list, until one fails.
abbrev pub each : {A S : Type 0} → (A → S → Result ParseError S) → List A → S → Result ParseError S
each f [] st = ok st
each f (a ∷ rest) st = f a st >>= each f rest

module _ (files : Files) (for_host : Option Str) where
  unfoldable pub open_and :
      (Str → List (Option Str) → State → Result ParseError State)
      → Str
      → State
      → Result ParseError State
  open_and inner f st = elim (files.read_file f) [
    | none ↦ err (cannot_open f)
    | some lines ↦ inner f lines st
  ]

  -- An Include directive's argument: the files it stands for, in order.
  unfoldable pub include_arg :
      (Str → State → Result ParseError State) → Str → State → Result ParseError State
  include_arg sub arg st = elim (files.find_include_files arg files.is_user) [
    | none ↦ err (cannot_expand arg)
    | some found ↦ each sub found st
  ]

  unfoldable pub process_line :
      (Str → State → Result ParseError State) → Str → ℕ → Line → State → Result ParseError State
  unfolding include_arg add_setting evaluate_host_match
  process_line sub source n empty st = ok st
  process_line sub source n (host args) st =
      ok record st { accepting = evaluate_host_match files.matches for_host args }
  process_line sub source n (match args) st = ok st
  process_line sub source n (include args) st = each (include_arg sub) args st
  process_line sub source n (generic keyword args) st = ok (add_setting source n keyword args st)

  -- The loop over the lines of one file; `n` is the number of the next line.
  unfoldable pub parse_lines :
      (Str → State → Result ParseError State)
      → Str
      → ℕ
      → List (Option Str)
      → State
      → Result ParseError State
  unfolding process_line parse_line
  parse_lines sub source n [] st = ok st
  parse_lines sub source n (none ∷ lines) st = err (cannot_read source)
  parse_lines sub source n (some text ∷ lines) st = parse_line n text >>= λ line.
      process_line sub source n line st >>= parse_lines sub source (suc n) lines

  unfoldable pub parse_file_inner : ℕ → Str → List (Option Str) → State → Result ParseError State
  unfolding open_and parse_lines
  parse_file_inner zero source lines st = err too_many_nested_includes
  parse_file_inner (suc fuel) source lines st =
      parse_lines (open_and (parse_file_inner fuel)) source 1 lines st

  -- `source` is empty for text that is no file.
  unfoldable pub parse_file_for : Str → List (Option Str) → Result ParseError Data
  unfolding parse_file_inner
  parse_file_for source lines =
      parse_file_inner include_depth_limit source lines (record { accepting = true; output = [] })
      >>= λ st. ok st.output
