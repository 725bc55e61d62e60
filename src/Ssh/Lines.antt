-- ===== src/Ssh/Lines.antt =====
-- qcp/src/config/ssh/lines.rs: splitting the rest of a line into arguments. The loops index the
-- characters; here they consume them. The fuel of the outer loop is above the number of characters.
pub mod Total
pub mod Quoting
use qcp.Prelude.{
  ℕ, zero, suc, Bool, true, false, Option, none, some, List, [], ◌∷◌, ◌++◌, ◌||◌, ◌&&◌, ◌==◌,
  if◌then◌else◌, length, drop, Result, ok, err,
}
use qcp.Prelude.Text.{Str}

pub data LexError : Type 0 where
  unterminated_quote out_of_fuel : LexError

abbrev pub backslash : ℕ
backslash = b'\\'

abbrev pub single_quote : ℕ
single_quote = 39

abbrev pub double_quote : ℕ
double_quote = 34

abbrev pub is_quote : ℕ → Bool
is_quote c = c == single_quote || c == double_quote

-- What a backslash may escape.
abbrev pub is_special : ℕ → Bool
is_special c = is_quote c || c == backslash

abbrev pub is_blank : ℕ → Bool
is_blank c = c == b' ' || c == b'\t'

abbrev pub head? : Str → Option ℕ
head? [] = none
head? (c ∷ s) = some c

-- The state of the inner loop: the argument so far, the quote that is open (0 for none), and
-- whether the next character has been taken by an escape.
pub record Token : Type 0 where
  pub current_arg : Str
  pub quote_state : ℕ
  pub skip : Bool

abbrev pub push : ℕ → Token → Token
push c t = record t { current_arg = t.current_arg ++ c ∷ [] }

escaped : ℕ → Option ℕ → Token → Token
escaped ch none t = push ch t
escaped ch (some nn) t = if is_special nn then record (push nn t) { skip = true } else push ch t

-- One character; `none` is the end of the token.
step : ℕ → Option ℕ → Token → Option Token
unfolding escaped
step ch next t =
    if ch == backslash
    then some (escaped ch next t)
    else if is_blank ch && t.quote_state == 0
    then none
    else if is_quote ch && t.quote_state == 0
    then some (record t { quote_state = ch })
    else if ch == t.quote_state
    then some (record t { quote_state = 0 })
    else some (push ch t)

-- The inner loop: the token, and the input from where it ended.
token : Str → ℕ → Str → Bool → Token × Str
unfolding step
token arg quote [] skip = (record { current_arg = arg; quote_state = quote; skip = skip }, [])
token arg quote (ch ∷ rest) true = token arg quote rest false
token arg quote (ch ∷ rest) false =
    elim (step ch (head? rest) (record { current_arg = arg; quote_state = quote; skip = false })) [
      | none ↦ (record { current_arg = arg; quote_state = quote; skip = false }, ch ∷ rest)
      | some t ↦ token t.current_arg t.quote_state rest t.skip
    ]

-- The outer loop.
arguments : ℕ → Str → List Str → Result LexError (List Str)
unfolding token
arguments zero input output = err out_of_fuel
arguments (suc fuel) [] output = ok output
arguments (suc fuel) (ch ∷ input) output =
    let later = arguments fuel input output in
    let (t, rest) = token [] 0 (ch ∷ input) false in
    let more = arguments fuel (drop 1 rest) (output ++ t.current_arg ∷ []) in
    if is_blank ch
    then later
    else if ch == b'#'
    then ok output
    else if t.quote_state == 0
    then more
    else err unterminated_quote

unfoldable pub split_args : Str → Result LexError (List Str)
unfolding arguments
split_args input = arguments (suc (length input)) input []
