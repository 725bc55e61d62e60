-- ===== src/Util/Stopwatch.antt =====
-- qcp/src/util/time.rs: `Stopwatch` and `StopwatchChain`. An instant is a number, and the clock is
-- read by the caller. Subtraction of instants stops at 0, as that of Rust does. `none` where the
-- code panics.
pub mod Laps
use mathlib.Core.Option
use qcp.Prelude.{ℕ, ◌-◌, Option, none, some, List, [], ◌∷◌}
use qcp.Prelude.Text.{Str}

pub record Stopwatch : Type 0 where
  pub name : Str
  pub start_ : Option ℕ
  pub stop_ : Option ℕ

unfoldable pub new : ℕ → Str → Stopwatch
new now n = record { name = n; start_ = some now; stop_ = none }

interval : Option ℕ → Option ℕ → Option ℕ
interval (some start) (some stop) = some (stop - start)
interval _ none = none
interval none _ = none

unfoldable pub elapsed : Stopwatch → Option ℕ
unfolding interval
elapsed w = interval w.start_ w.stop_

-- The assertion of `stop`, its effect on the watch, and the time it reports.
stop_once : ℕ → Stopwatch → Option ℕ → Option (Stopwatch × Option ℕ)
unfolding elapsed
stop_once now w none = let w' = record w { stop_ = some now } in some (w', elapsed w')
stop_once now w (some _) = none

unfoldable pub stop : ℕ → Stopwatch → Option (Stopwatch × Option ℕ)
unfolding stop_once
stop now w = stop_once now w w.stop_

-- The stopped watch, and the one that takes over.
unfoldable pub chain : ℕ → Str → Stopwatch → Option (Stopwatch × Stopwatch)
unfolding stop
chain now new_name w =
    Option.map (λ r. (r.0, record { name = new_name; start_ = r.0.stop_; stop_ = none }))
      (stop now w)

-- What `last_mut` does is done in place: the watches before the last stay as they are.
unfoldable pub next : ℕ → Str → List Stopwatch → Option (List Stopwatch)
unfolding new chain
next now name [] = some (new now name ∷ [])
next now name (w ∷ []) = Option.map (λ r. r.0 ∷ r.1 ∷ []) (chain now name w)
next now name (w ∷ v ∷ ws) = Option.map (λ vs. w ∷ vs) (next now name (v ∷ ws))

unfoldable pub stop_chain : ℕ → List Stopwatch → Option (List Stopwatch)
unfolding stop
stop_chain now [] = some []
stop_chain now (w ∷ []) = Option.map (λ r. r.0 ∷ []) (stop now w)
stop_chain now (w ∷ v ∷ ws) = Option.map (λ vs. w ∷ vs) (stop_chain now (v ∷ ws))
