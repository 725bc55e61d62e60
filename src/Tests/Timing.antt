-- ===== src/Tests/Timing.antt =====
-- A chain of stopwatches at concrete instants.
use qcp.Prelude.{◌≡◌, refl, some, [], ◌∷◌}
use qcp.Prelude.Text.{codes}
use qcp.Util.Stopwatch.Laps.{Marks, run, laps}

abbrev marks : Marks
marks = (codes "quic", 7) ∷ (codes "transfer", 9) ∷ []

timed : run ((codes "control", 3) ∷ marks) 20 [] ≡ some (laps (codes "control") 3 marks 20)
unfolding run
timed = refl
