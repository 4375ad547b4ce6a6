-- ===== src/Main/Sidecar/Polling.antt =====
-- The health checks of main/sidecar/sidecar.ts end: `checkReady` with its 180 attempts.
use podscape.Common.{
  ℕ, zero, suc, String, Bool, true, false, ◌+◌, ◌≤◌, Option, none, some, List, [], ◌∷◌, length, any,
  take, eqb, leb, is_some, if◌then◌else◌, ◌≡◌, refl, ◌∙◌, ap, arith,
}
use podscape.Main.Sidecar.{
  Promise, pending, resolved, rejected, not_ready, in_flight, idle, Child, Sidecar, changed, ready,
  not_yet, is_in_flight, is_scheduled, answer, timer, spawned, launch,
}

-- The answers to the health checks of a process, one after the other, each after its timer.
pub check_loop : ℕ → List Bool → Sidecar → Sidecar
check_loop i [] w = w
check_loop i (ok ∷ answers) w = check_loop i answers (timer i (answer i ok w))

abbrev pub promise_of : Option Child → Option Promise
promise_of none = none
promise_of (some c) = some c.promise

-- One turn of the loop, on the process alone.
abbrev tick : Child → Child
tick c = if is_scheduled (some c) then record c { check = in_flight } else c

abbrev check_child : Bool → Child → Child
check_child ok c =
    tick (if is_in_flight (some c) then (if ok then ready c else not_yet true c) else c)

abbrev child_loop : List Bool → Child → Child
child_loop [] c = c
child_loop (ok ∷ answers) c = child_loop answers (check_child ok c)

-- A process whose check is under way for the (n + 1)-th time.
abbrev checking : ℕ → Child → Child
checking n c = record c { attempts = n; check = in_flight; promise = pending }

child_loop-settled :
    (answers : List Bool) (c : Child)
    → child_loop answers (record c { check = idle }) ≡ record c { check = idle }
child_loop-settled [] c = refl
child_loop-settled (ok ∷ answers) c = child_loop-settled answers c

check_more :
    (n : ℕ) (c : Child)
    → leb 180 (suc n) ≡ false
    → check_child false (checking n c) ≡ checking (suc n) c
unfolding not_yet
check_more n c h = rw h refl

-- The process after its last check.
abbrev given_up : ℕ → Child → Child
given_up n c = record c {
  attempts = suc n;
  check = idle;
  error_handler = false;
  exit_handler = false;
  promise = rejected (not_ready 900) c.stderr_lines;
}

check_last :
    (n : ℕ) (c : Child) → leb 180 (suc n) ≡ true → check_child false (checking n c) ≡ given_up n c
unfolding not_yet
check_last n c h = rw h refl

child_loop-settles :
    (answers : List Bool) (m n : ℕ) (c : Child)
    → n + suc m ≡ 180
    → suc m ≤ length answers
    → (child_loop answers (checking n c)).promise ≡ (
        if any (λ ok. ok) (take (suc m) answers)
        then resolved
        else rejected (not_ready 900) c.stderr_lines)
unfolding ready
child_loop-settles [] m n c e h = absurd (omega arith)
child_loop-settles (true ∷ answers) m n c e h =
    ap (λ (d : Child). d.promise) (child_loop-settled answers (ready (checking n c)))
child_loop-settles (false ∷ answers) zero n c e h =
    let last : leb 180 (suc n) ≡ true = ground arith in
    ap (λ d. (child_loop answers d).promise) (check_last n c last)
    ∙ ap (λ (d : Child). d.promise) (child_loop-settled answers (given_up n c))
child_loop-settles (false ∷ answers) (suc m) n c e h =
    let more : leb 180 (suc n) ≡ false = ground arith in
    ap (λ d. (child_loop answers d).promise) (check_more n c more)
    ∙ child_loop-settles answers m (suc n) c (omega arith) (omega arith)

changed-loop :
    (ok : Bool) (answers : List Bool) (o : Option Child)
    → changed (child_loop answers) (changed (check_child ok) o)
      ≡ changed (child_loop (ok ∷ answers)) o
changed-loop ok answers none = refl
changed-loop ok answers (some c) = refl

changed-nothing : (o : Option Child) → o ≡ changed (child_loop []) o
changed-nothing none = refl
changed-nothing (some c) = refl

eqb_refl : (i : ℕ) → eqb i i ≡ true
eqb_refl i = ground arith

answer-child :
    (i : ℕ) (ok : Bool) (w : Sidecar)
    → is_some w.sidecar_process ≡ true
    → (timer i (answer i ok w)).children i ≡ changed (check_child ok) (w.children i)
      × ((timer i (answer i ok w)).sidecar_process ≡ w.sidecar_process)
unfolding answer timer
answer-child i ok w h = ground (arith, eqb_refl i)

check_loop-child :
    (i : ℕ) (answers : List Bool) (w : Sidecar)
    → is_some w.sidecar_process ≡ true
    → (check_loop i answers w).children i ≡ changed (child_loop answers) (w.children i)
unfolding check_loop
check_loop-child i [] w h = changed-nothing (w.children i)
check_loop-child i (ok ∷ answers) w h =
    let (child, process) = answer-child i ok w h in
    check_loop-child i answers (timer i (answer i ok w)) (ap is_some process ∙ h)
    ∙ ap (changed (child_loop answers)) child
    ∙ changed-loop ok answers (w.children i)

-- Whatever the answers to its health checks are, a process that neither exits nor fails ends the
-- call of `startSidecar` with its 180th check at the latest: the call succeeds if one of the first
-- 180 answers is ok, and is rejected after 90 seconds if none is.
check_loop_settles :
    (port : ℕ) (path : String) (w : Sidecar) (answers : List Bool)
    → 180 ≤ length answers
    → promise_of ((check_loop w.next answers (launch port path w)).children w.next)
      ≡ some (if any (λ ok. ok) (take 180 answers) then resolved else rejected (not_ready 900) [])
unfolding launch
check_loop_settles port path w answers h =
    ap promise_of (check_loop-child w.next answers (launch port path w) refl)
    ∙ rw (eqb_refl w.next) (ap some (child_loop-settles answers 179 0 (spawned port path) refl h))
