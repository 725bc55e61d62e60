-- ===== src/Util/Stopwatch/Laps.antt =====
-- A chain of stopwatches measures the time between one mark and the next, and nothing is lost.
use mathlib.Core.Option
use qcp.Prelude.{
  ℕ, ◌+◌, ◌-◌, ◌≤◌, ◌≡◌, refl, Option, none, some, get_or, List, [], ◌∷◌, ◌++◌, arith, append_assoc,
  ap,
}
use qcp.Prelude.Text.{Str}
use qcp.Util.Stopwatch.{Stopwatch, new, elapsed, stop, chain, next, stop_chain}

-- The names and the instants at which the chain moves on.
abbrev pub Marks : Type 0
Marks = List (Str × ℕ)

after :
    (List Stopwatch → Option (List Stopwatch)) → Option (List Stopwatch) → Option (List Stopwatch)
after f none = none
after f (some ws) = f ws

-- A timed run: the chain moves on at every mark, and stops at the end.
unfoldable pub run : Marks → ℕ → List Stopwatch → Option (List Stopwatch)
unfolding after next stop_chain
run [] end ws = stop_chain end ws
run ((name, now) ∷ marks) end ws = after (run marks end) (next now name ws)

abbrev finished : Str → ℕ → ℕ → Stopwatch
finished name from to = record { name = name; start_ = some from; stop_ = some to }

-- The phases between the marks.
abbrev pub laps : Str → ℕ → Marks → ℕ → List Stopwatch
laps name from [] end = finished name from end ∷ []
laps name from ((next_name, now) ∷ marks) end =
    finished name from now ∷ laps next_name now marks end

abbrev pub total : List Stopwatch → ℕ
total [] = 0
total (w ∷ ws) = get_or (elapsed w) 0 + total ws

-- The marks are in the order of time, from the instant given to the end.
abbrev pub Ordered : ℕ → Marks → ℕ → Type 0
Ordered from [] end = from ≤ end
Ordered from ((name, now) ∷ marks) end = (from ≤ now) × Ordered now marks end

next-running :
    (ws : List Stopwatch) (name m : Str) (from now : ℕ)
    → next now m (ws ++ (new from name ∷ []))
      ≡ some (ws ++ (finished name from now ∷ new now m ∷ []))
unfolding next chain stop new
next-running [] name m from now = refl
next-running (w ∷ []) name m from now = refl
next-running (w ∷ v ∷ ws) name m from now =
    ap (Option.map (λ vs. w ∷ vs)) (next-running (v ∷ ws) name m from now)

stop_chain-running :
    (ws : List Stopwatch) (name : Str) (from now : ℕ)
    → stop_chain now (ws ++ (new from name ∷ [])) ≡ some (ws ++ (finished name from now ∷ []))
unfolding stop_chain stop new
stop_chain-running [] name from now = refl
stop_chain-running (w ∷ []) name from now = refl
stop_chain-running (w ∷ v ∷ ws) name from now =
    ap (Option.map (λ vs. w ∷ vs)) (stop_chain-running (v ∷ ws) name from now)

run-running :
    (marks : Marks) (ws : List Stopwatch) (name : Str) (from end : ℕ)
    → run marks end (ws ++ (new from name ∷ [])) ≡ some (ws ++ laps name from marks end)
unfolding run after
run-running [] ws name from end = stop_chain-running ws name from end
run-running ((m, now) ∷ marks) ws name from end =
    rw
      (
        next-running ws name m from now,
        ← append_assoc ws (finished name from now ∷ []) (new now m ∷ []),
        run-running marks (ws ++ (finished name from now ∷ [])) m now end,
        append_assoc ws (finished name from now ∷ []) (laps m now marks end),
      )
      refl

Ordered-le : (marks : Marks) (from end : ℕ) → Ordered from marks end → from ≤ end
Ordered-le [] from end o = o
Ordered-le ((m, now) ∷ marks) from end (first, others) =
    let rest = Ordered-le marks now end others in omega arith

total-laps :
    (marks : Marks) (name : Str) (from end : ℕ)
    → Ordered from marks end
    → total (laps name from marks end) ≡ end - from
unfolding elapsed
total-laps [] name from end o = omega arith
total-laps ((m, now) ∷ marks) name from end (first, others) =
    let rest = total-laps marks m now end others in
    let bound = Ordered-le marks now end others in omega arith

next-laps :
    (marks : Marks) (name m : Str) (from end later : ℕ)
    → next later m (laps name from marks end) ≡ none
unfolding next chain stop
next-laps [] name m from end later = refl
next-laps ((other, now) ∷ []) name m from end later = refl
next-laps ((other, now) ∷ next_mark ∷ marks) name m from end later =
    ap (Option.map (λ vs. finished name from now ∷ vs))
      (next-laps (next_mark ∷ marks) other m now end later)

-- Where the clock does not run backwards: a chain that starts with a mark, moves on at others and
-- stops, never panics. Its watches are the phases between the marks, each from its mark to the
-- next, their times add up to the time from the first mark to the end, and moving on again panics.
pub run-laps :
    (name : Str) (from : ℕ) (marks : Marks) (end : ℕ)
    → Ordered from marks end
    → (run ((name, from) ∷ marks) end [] ≡ some (laps name from marks end))
      × (total (laps name from marks end) ≡ end - from)
      × ((later : ℕ) (m : Str) → next later m (laps name from marks end) ≡ none)
unfolding run after next
run-laps name from marks end o = (
  run-running marks [] name from end,
  total-laps marks name from end o,
  λ later m. next-laps marks name m from end later,
)
