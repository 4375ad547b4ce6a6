-- ===== src/Main/Sidecar/Outcomes.antt =====
-- What the invariant of main/sidecar/sidecar.ts says from the start of the program on.
use podscape.Common.{Bool, true, false, some, List, ◌≡◌, ◌≢◌, ◌⊎◌, ℕ, refl, arith}
use podscape.Main.Sidecar.{pending, idle, not_asked, Child, initial, is_process, Event, run}
use podscape.Main.Sidecar.Sound.{is_sound}
use podscape.Main.Sidecar.Invariant.{noticed, IsValid, run-IsValid}

initial-IsValid : IsValid initial
initial-IsValid = record { sound = λ j. refl; fresh = λ j h. refl }

live_sound :
    (current noticed : Bool) (c : Child)
    → is_sound current noticed (some c) ≡ true
    → c.promise ≡ pending
    → (c.exit_handler ≡ true) × (c.exited ≡ false) × ((c.check ≢ idle) ⊎ (current ≡ false))
live_sound current noticed c h waits = ground arith

told_sound :
    (current noticed : Bool) (c : Child)
    → is_sound current noticed (some c) ≡ true
    → c.stop ≢ not_asked
    → noticed ≡ false
told_sound current noticed c h asked = ground arith

-- In every order of calls, answers, timers, errors and exits, a call of `startSidecar` that still
-- waits can end: its process has not exited, its exit ends the call, and its next health check comes
-- unless the process is not the current one any more.
pub pending_start_can_end :
    (es : List Event) (j : ℕ) (c : Child)
    → (run es initial).children j ≡ some c
    → c.promise ≡ pending
    → (c.exit_handler ≡ true)
      × (c.exited ≡ false)
      × ((c.check ≢ idle) ⊎ (is_process j (run es initial).sidecar_process ≡ false))
pending_start_can_end es j c here waits =
    let h = (run-IsValid es initial initial-IsValid).sound j in
    live_sound _ _ c (rw here at h) waits

-- In every order of events, a process that `stopSidecar` was called on is never told of as crashed,
-- neither before nor after it exits.
pub stopped_never_crashes :
    (es : List Event) (j : ℕ) (c : Child)
    → (run es initial).children j ≡ some c
    → c.stop ≢ not_asked
    → noticed j (run es initial).crashes ≡ false
stopped_never_crashes es j c here asked =
    let h = (run-IsValid es initial initial-IsValid).sound j in
    told_sound _ _ c (rw here at h) asked
