-- ===== src/Logs/Tests.antt =====
-- A log buffer at concrete inputs.
use podscape.Common.{ℕ, List, [], ◌∷◌, ◌≤◌, length, ◌≡◌, refl, arith}
use podscape.Logs.{empty, Operation, appends, timer_fires, run, step, flush, flush_pending, append}
use podscape.Common.Slices.{slice_last}
use podscape.Logs.Stream.{lines, Shows, run-LogBuffer}

abbrev session : List (Operation ℕ)
session =
    appends (1 ∷ 2 ∷ []) ∷ timer_fires ∷ appends (3 ∷ 4 ∷ []) ∷ timer_fires ∷ appends (5 ∷ []) ∷ []

two_shown : (run 2 session empty).items ≡ 3 ∷ 4 ∷ []
unfolding run step append flush_pending flush slice_last
two_shown = refl

run-LogBuffer_example :
    let s = run 2 session empty in Shows 2 (omega arith) (lines session []) s × (length s.items ≤ 2)
run-LogBuffer_example = run-LogBuffer 2 (omega arith) session
