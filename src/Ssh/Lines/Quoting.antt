-- ===== src/Ssh/Lines/Quoting.antt =====
-- Quoted arguments are read back, whatever characters they hold.
use qcp.Prelude.{
  ℕ, zero, suc, ◌<◌, ◌≡◌, refl, true, false, List, [], ◌∷◌, ◌++◌, append_assoc, append-nil,
  if◌then◌else◌, length, length-append, ok, arith, Bool-cases, inl, inr,
}
use qcp.Prelude.Text.{Str}
use qcp.Ssh.Lines.{backslash, double_quote, is_special, escaped, step, token, arguments, split_args}

-- The characters of an argument, with a backslash before each that needs one.
pub escape : Str → Str
escape [] = []
escape (c ∷ w) = let rest = escape w in if is_special c then backslash ∷ c ∷ rest else c ∷ rest

pub quote : Str → Str
unfolding escape
quote w = double_quote ∷ (escape w ++ double_quote ∷ [])

-- A line of arguments, each in quotes and with a blank behind it.
pub write_args : List Str → Str
unfolding quote
write_args [] = []
write_args (w ∷ ws) = quote w ++ b' ' ∷ write_args ws

token_escaped :
    (arg rest : Str) (c : ℕ)
    → is_special c ≡ true
    → token arg double_quote (backslash ∷ c ∷ rest) false
      ≡ token (arg ++ c ∷ []) double_quote rest false
unfolding token step escaped
token_escaped arg rest c e = ground arith

token_plain :
    (arg rest : Str) (c : ℕ)
    → is_special c ≡ false
    → token arg double_quote (c ∷ rest) false ≡ token (arg ++ c ∷ []) double_quote rest false
unfolding token step escaped
token_plain arg rest c e = ground arith

token_close :
    (arg rest : Str)
    → token arg double_quote (double_quote ∷ b' ' ∷ rest) false
      ≡ (record { current_arg = arg; quote_state = 0; skip = false }, b' ' ∷ rest)
unfolding token step escaped
token_close arg rest = refl

token_open :
    (rest : Str) → token [] 0 (double_quote ∷ rest) false ≡ token [] double_quote rest false
unfolding token step escaped
token_open rest = refl

token-escape :
    (w arg rest : Str)
    → token arg double_quote (escape w ++ rest) false ≡ token (arg ++ w) double_quote rest false
unfolding escape
token-escape [] arg rest = rw append-nil
token-escape (c ∷ w) arg rest = elim (Bool-cases (is_special c)) [
  | inl e ↦
      rw (e, token_escaped arg (escape w ++ rest) c e, token-escape w (arg ++ c ∷ []) rest)
        (rw append_assoc refl)
  | inr e ↦
      rw (e, token_plain arg (escape w ++ rest) c e, token-escape w (arg ++ c ∷ []) rest)
        (rw append_assoc refl)
]

token-quote :
    (w rest : Str)
    → token [] 0 (quote w ++ b' ' ∷ rest) false
      ≡ (record { current_arg = w; quote_state = 0; skip = false }, b' ' ∷ rest)
unfolding quote
token-quote w rest =
    rw
      (
        append_assoc (escape w) (double_quote ∷ []) (b' ' ∷ rest),
        token_open (escape w ++ double_quote ∷ b' ' ∷ rest),
        token-escape w [] (double_quote ∷ b' ' ∷ rest),
        token_close w rest,
      )
      refl

arguments-quote :
    (w rest : Str) (fuel : ℕ) (output : List Str)
    → arguments (suc fuel) (quote w ++ b' ' ∷ rest) output ≡ arguments fuel rest (output ++ w ∷ [])
unfolding arguments quote
arguments-quote w rest fuel output = rw (token-quote w rest) refl

arguments-write_args :
    (ws : List Str) (fuel : ℕ) (output : List Str)
    → length (write_args ws) < fuel
    → arguments fuel (write_args ws) output ≡ ok (output ++ ws)
unfolding write_args
arguments-write_args ws zero output h = absurd (omega arith)
arguments-write_args [] (suc fuel) output h = unfold arguments in rw append-nil refl
arguments-write_args (w ∷ ws) (suc fuel) output h =
    rw
      (
        arguments-quote w (write_args ws) fuel output,
        arguments-write_args ws fuel (output ++ w ∷ [])
            (omega (arith, length-append (quote w) (b' ' ∷ write_args ws))),
        append_assoc output (w ∷ []) ws,
      )
      refl

-- Arguments written in quotes, with a backslash before each quote and backslash, are split back
-- into the same arguments, whatever characters they hold.
pub split_args-write_args : (ws : List Str) → split_args (write_args ws) ≡ ok ws
unfolding split_args
split_args-write_args ws = arguments-write_args ws (suc (length (write_args ws))) [] (omega arith)
