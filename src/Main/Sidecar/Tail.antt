-- ===== src/Main/Sidecar/Tail.antt =====
-- What main/sidecar/sidecar.ts keeps of the sidecar's stderr for its error messages.
use mathlib.Core.List.{append-nil, append_assoc}
use podscape.Common.{
  ℕ, String, Bool, true, false, ◌-◌, ◌≤◌, ◌<◌, Option, none, some, List, [], ◌∷◌, ◌++◌, length,
  length-append, filter, eqb, ltb, is_some, if◌then◌else◌, ◌≡◌, refl, ◌∙◌, sym, ap, arith,
  Bool-cases, inl, inr, ltb→lt,
}
use podscape.Common.Slices.{
  slice_last, slice_last-pos, slice_last-append, slice_last-nil, length-slice_last-le,
}
use podscape.Main.Sidecar.{
  Child, Sidecar, changed, with_child, has_text, split_lines, push_line, push_lines, on_stderr,
  on_error, exit_handler_runs, on_exit, ready, not_yet, answer, timer, exit, stop_sidecar,
  force_kill, prepare, launch, quit, Event, stops, quits, prepares, launches, answers, timer_fires,
  timeout_fires, exits, errors, prints, step, run,
}

-- The lines with text that an event prints for a process, and those of a run.
abbrev pub printed_by : ℕ → Event → List (List ℕ)
printed_by i (prints j text) = if eqb j i then filter has_text (split_lines text) else []
printed_by i _ = []

abbrev pub printed : ℕ → List Event → List (List ℕ)
printed i [] = []
printed i (e ∷ es) = printed_by i e ++ printed i es

abbrev pub stderr_of : Option Child → List (List ℕ)
stderr_of none = []
stderr_of (some c) = c.stderr_lines

abbrev tail : List (List ℕ) → List (List ℕ)
tail = slice_last 30

push_line-tail :
    (lines : List (List ℕ)) (line : List ℕ)
    → length lines ≤ 30
    → push_line 30 lines line ≡ tail (lines ++ line ∷ [])
unfolding push_line
push_line-tail lines line h = elim (Bool-cases (ltb 30 (length (lines ++ line ∷ [])))) [
  | inl long ↦
      let one : length (lines ++ line ∷ []) - 30 ≡ 1 =
        omega (arith, length-append lines (line ∷ []), ltb→lt _ _ long) in
      rw (long, slice_last-pos 30 (lines ++ line ∷ []) (omega arith), one) refl
  | inr short ↦
      let nothing : length (lines ++ line ∷ []) - 30 ≡ 0 = ground arith in
      rw (short, slice_last-pos 30 (lines ++ line ∷ []) (omega arith), nothing) refl
]

push_lines-tail :
    (ls before : List (List ℕ))
    → push_lines 30 (tail before) ls ≡ tail (before ++ filter has_text ls)
unfolding push_lines
push_lines-tail [] before = ap tail (sym (append-nil before))
push_lines-tail (l ∷ ls) before = elim (Bool-cases (has_text l)) [
  | inl text ↦ rw text (
      ap (λ lines. push_lines 30 lines ls)
        (push_line-tail (tail before) l (length-slice_last-le 30 before (omega arith))
          ∙ slice_last-append 30 before (l ∷ []) (omega arith))
      ∙ push_lines-tail ls (before ++ l ∷ [])
      ∙ ap tail (append_assoc before (l ∷ []) (filter has_text ls)))
  | inr blank ↦ rw blank (push_lines-tail ls before)
]

-- An event that prints nothing.
IsQuiet : ℕ → Sidecar → Sidecar → Type 0
IsQuiet i w v =
    (w.next ≤ v.next)
    × (is_some (v.children i) ≡ is_some (w.children i))
    × (stderr_of (v.children i) ≡ stderr_of (w.children i))

stops-IsQuiet : (i : ℕ) (w : Sidecar) → IsQuiet i w (stop_sidecar w)
unfolding stop_sidecar IsQuiet
stops-IsQuiet i w = ground arith

quit-IsQuiet : (i : ℕ) (w : Sidecar) → IsQuiet i w (quit w)
unfolding quit IsQuiet
quit-IsQuiet i w = ground arith

prepare-IsQuiet : (i : ℕ) (b : Bool) (w : Sidecar) → IsQuiet i w (prepare b w)
unfolding prepare IsQuiet
prepare-IsQuiet i b w = ground arith

launch-IsQuiet :
    (i port : ℕ) (path : String) (w : Sidecar) → i < w.next → IsQuiet i w (launch port path w)
unfolding launch IsQuiet
launch-IsQuiet i port path w k = ground arith

answer-IsQuiet : (i j : ℕ) (ok : Bool) (w : Sidecar) → IsQuiet i w (answer j ok w)
unfolding answer IsQuiet ready not_yet
answer-IsQuiet i j ok w = ground arith

timer-IsQuiet : (i j : ℕ) (w : Sidecar) → IsQuiet i w (timer j w)
unfolding timer IsQuiet
timer-IsQuiet i j w = ground arith

force_kill-IsQuiet : (i j : ℕ) (w : Sidecar) → IsQuiet i w (force_kill j w)
unfolding force_kill IsQuiet
force_kill-IsQuiet i j w = ground arith

exit-IsQuiet :
    (i j : ℕ) (code : Option ℕ) (signal : Option String) (w : Sidecar)
    → IsQuiet i w (exit j code signal w)
unfolding exit IsQuiet on_exit exit_handler_runs
exit-IsQuiet i j code signal w = ground arith

errors-IsQuiet :
    (i j : ℕ) (message : String) (w : Sidecar) → IsQuiet i w (with_child j (on_error message) w)
unfolding IsQuiet on_error
errors-IsQuiet i j message w = ground arith

-- The tail that is kept of a process that was spawned.
pub record Keeps (i : ℕ) (w : Sidecar) (before : List (List ℕ)) : Type 0 where
  pub spawned : i < w.next
  pub there : is_some (w.children i) ≡ true
  pub kept : stderr_of (w.children i) ≡ tail before

quiet :
    (i : ℕ) (w v : Sidecar) (before : List (List ℕ))
    → Keeps i w before
    → IsQuiet i w v
    → Keeps i v (before ++ [])
unfolding IsQuiet
quiet i w v before k q = record {
  spawned = let h = k.spawned in omega arith;
  there = q.1 ∙ k.there;
  kept = q.2 ∙ k.kept ∙ ap tail (sym (append-nil before));
}

prints_at :
    (b : Bool) (text : List ℕ) (o : Option Child) (before : List (List ℕ))
    → is_some o ≡ true
    → stderr_of o ≡ tail before
    → let p = if b then changed (on_stderr text) o else o in
      (is_some p ≡ true)
      × (stderr_of p ≡ tail (before ++ (if b then filter has_text (split_lines text) else [])))
unfolding on_stderr
prints_at b text none before s h = absurd (ground arith)
prints_at false text (some c) before s h = (refl, h ∙ ap tail (sym (append-nil before)))
prints_at true text (some c) before s h = (
  refl,
  ap (λ lines. push_lines 30 lines (split_lines text)) h
      ∙ push_lines-tail (split_lines text) before,
)

step-Keeps :
    (i : ℕ) (e : Event) (w : Sidecar) (before : List (List ℕ))
    → Keeps i w before
    → Keeps i (step e w) (before ++ printed_by i e)
unfolding step
step-Keeps i stops w before k = quiet i w _ before k (stops-IsQuiet i w)
step-Keeps i quits w before k = quiet i w _ before k (quit-IsQuiet i w)
step-Keeps i (prepares b) w before k = quiet i w _ before k (prepare-IsQuiet i b w)
step-Keeps i (launches port path) w before k =
    quiet i w _ before k (launch-IsQuiet i port path w k.spawned)
step-Keeps i (answers j ok) w before k = quiet i w _ before k (answer-IsQuiet i j ok w)
step-Keeps i (timer_fires j) w before k = quiet i w _ before k (timer-IsQuiet i j w)
step-Keeps i (timeout_fires j) w before k = quiet i w _ before k (force_kill-IsQuiet i j w)
step-Keeps i (exits j code signal) w before k =
    quiet i w _ before k (exit-IsQuiet i j code signal w)
step-Keeps i (errors j message) w before k = quiet i w _ before k (errors-IsQuiet i j message w)
step-Keeps i (prints j text) w before k =
    let (there, kept) = prints_at (eqb j i) text (w.children i) before k.there k.kept in
    record { spawned = k.spawned; there = there; kept = kept }

run-Keeps :
    (i : ℕ) (es : List Event) (w : Sidecar) (before : List (List ℕ))
    → Keeps i w before
    → Keeps i (run es w) (before ++ printed i es)
unfolding run
run-Keeps i [] w before k = rw (append-nil before) k
run-Keeps i (e ∷ es) w before k =
    rw (sym (append_assoc before (printed_by i e) (printed i es)))
      (run-Keeps i es (step e w) (before ++ printed_by i e) (step-Keeps i e w before k))

launch-Keeps : (port : ℕ) (path : String) (w : Sidecar) → Keeps w.next (launch port path w) []
unfolding launch
launch-Keeps port path w = record {
  spawned = omega arith;
  there = ground arith;
  kept = let same : eqb w.next w.next ≡ true = ground arith in rw same (sym (slice_last-nil 30));
}

-- Whatever happens after a process is spawned, and whatever other processes print, the lines kept
-- for its error messages are the last 30 of the lines that are not blank, or all of them where they
-- are fewer, of the pieces in which its stderr arrives.
run-stderr :
    (port : ℕ) (path : String) (es : List Event) (w : Sidecar)
    → stderr_of ((run es (launch port path w)).children w.next) ≡ slice_last 30 (printed w.next es)
run-stderr port path es w =
    (run-Keeps w.next es (launch port path w) [] (launch-Keeps port path w)).kept
