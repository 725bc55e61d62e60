-- ===== src/Ssh/Lines/Total.antt =====
-- `split_args` ends: its fuel is enough for every input.
use qcp.Prelude.{
  ℕ, zero, suc, ◌≤◌, ◌<◌, ◌≢◌, Bool, true, false, List, [], ◌∷◌, ◌++◌, length, drop, err, arith,
  Option-cases, inl, inr,
}
use qcp.Prelude.Text.{Str}
use qcp.Ssh.Lines.{out_of_fuel, head?, step, token, arguments, split_args}

token-le :
    (arg : Str) (quote : ℕ) (s : Str) (skip : Bool) → length (token arg quote s skip).1 ≤ length s
unfolding token
token-le arg quote [] skip = omega arith
token-le arg quote (ch ∷ s) true = omega (arith, token-le arg quote s false)
token-le arg quote (ch ∷ s) false =
    elim (Option-cases
      (step ch (head? s) (record { current_arg = arg; quote_state = quote; skip = false }))) [
        | inl e ↦ rw (e, token) (omega arith)
        | inr (t, e) ↦ rw (e, token) (omega (arith, token-le t.current_arg t.quote_state s t.skip))
      ]

length-drop_one : (xs : Str) (n : ℕ) → length xs ≤ suc n → length (drop 1 xs) ≤ n
length-drop_one [] n h = omega arith
length-drop_one (x ∷ xs) n h = omega arith

arguments-ne-out_of_fuel :
    (fuel : ℕ) (s : Str) (output : List Str)
    → length s < fuel
    → arguments fuel s output ≢ err out_of_fuel
unfolding arguments
arguments-ne-out_of_fuel zero s output h = absurd (omega arith)
arguments-ne-out_of_fuel (suc fuel) [] output h = λ e. cc
arguments-ne-out_of_fuel (suc fuel) (ch ∷ s) output h =
    let r = token [] 0 (ch ∷ s) false in
    let shorter : length (drop 1 r.1) ≤ length s =
      length-drop_one r.1 (length s) (token-le [] 0 (ch ∷ s) false) in
    ground (
      arith,
      arguments-ne-out_of_fuel fuel s output (omega arith),
      arguments-ne-out_of_fuel fuel (drop 1 r.1) (output ++ r.0.current_arg ∷ []) (omega arith),
    )

-- Every line is split, or has a quote that nothing closes: the loops never run out of fuel.
pub split_args-ne-out_of_fuel : (s : Str) → split_args s ≢ err out_of_fuel
unfolding split_args
split_args-ne-out_of_fuel s = arguments-ne-out_of_fuel (suc (length s)) s [] (omega arith)
