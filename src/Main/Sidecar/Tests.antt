-- ===== src/Main/Sidecar/Tests.antt =====
-- Runs of the sidecar's process at concrete inputs.
use podscape.Common.{
  ℕ, zero, suc, String, Bool, true, false, Option, none, some, List, [], ◌∷◌, ◌≡◌, ◌≢◌, refl, codes,
  arith, ◌⊎◌,
}
use podscape.Main.Sidecar.{
  Promise, pending, resolved, rejected, failed_to_start, exited_during_startup, idle, waiting,
  Child, initial, find_free_port, push_lines, push_line, on_stderr, on_error, exit_handler_runs,
  on_exit, ready, not_yet, answer, timer, exit, stop_sidecar, force_kill, prepare, launch, Event,
  stops, prepares, launches, answers, timer_fires, timeout_fires, exits, errors, prints, step, run,
  is_process, sigterm, sigkill,
}
use podscape.Common.Splits.{split}
use podscape.Main.Sidecar.Invariant.{noticed}
use podscape.Main.Sidecar.Outcomes.{pending_start_can_end, stopped_never_crashes}
use podscape.Main.Sidecar.Polling.{promise_of}

abbrev config : String
config = "/home/user/.kube/config"

abbrev started : List Event
started = prepares true ∷ launches 5050 config ∷ []

abbrev promise_after : ℕ → List Event → Option Promise
promise_after i es = promise_of ((run es initial).children i)

-- A process whose second health check is ok; then it crashes.
crash :
    promise_after 0 (
      prepares true
      ∷ launches 5050 config
      ∷ answers 0 false
      ∷ timer_fires 0
      ∷ answers 0 true
      ∷ exits 0 (some 1) none
      ∷ [])
    ≡ some resolved
unfolding run step prepare launch answer timer exit not_yet ready on_exit exit_handler_runs
crash = refl

abbrev crashed : List Event
crashed = prepares true ∷ launches 5050 config ∷ answers 0 true ∷ exits 0 (some 1) none ∷ []

crash_is_told : (run crashed initial).crashes ≡ 0 ∷ []
unfolding run step prepare launch answer exit ready on_exit exit_handler_runs
crash_is_told = refl

-- `startupComplete` stays after a crash: the next process is told of as crashed although its start
-- has only failed.
abbrev restarted : List Event
restarted =
    prepares true
    ∷ launches 5050 config
    ∷ answers 0 true
    ∷ exits 0 (some 1) none
    ∷ stops
    ∷ prepares true
    ∷ launches 5050 config
    ∷ exits 1 (some 2) none
    ∷ []

failed_start_is_told :
    ((run restarted initial).crashes ≡ 1 ∷ 0 ∷ [])
    × (promise_after 1 restarted ≡ some (rejected (exited_during_startup (some 2) none) []))
unfolding run step prepare launch answer exit ready on_exit exit_handler_runs stop_sidecar
failed_start_is_told = (refl, refl)

-- A process that could not be spawned stays the current one: the next stop waits for its exit.
abbrev unspawned : List Event
unspawned = prepares true ∷ launches 5050 config ∷ errors 0 "EACCES" ∷ []

unspawned_is_current :
    ((run unspawned initial).sidecar_process ≡ some 0)
    × (promise_after 0 unspawned ≡ some (rejected (failed_to_start "EACCES") []))
unfolding run step prepare launch on_error
unspawned_is_current = (refl, refl)

-- A stop while the start is under way resolves it, after SIGTERM and then SIGKILL.
abbrev interrupted : List Event
interrupted =
    prepares true
    ∷ launches 5051 config
    ∷ prints 0 (codes "no such\n\n  \nfile")
    ∷ stops
    ∷ answers 0 false
    ∷ timeout_fires 0
    ∷ []

interrupted_kills :
    ((run interrupted initial).kills ≡ sigkill 0 ∷ sigterm 0 ∷ [])
    × (promise_after 0 interrupted ≡ some pending)
unfolding run step prepare launch answer not_yet stop_sidecar force_kill on_stderr push_lines
    push_line split
interrupted_kills = (refl, refl)

port_in_use : find_free_port 5050 false 49152 ≡ 49152
unfolding find_free_port
port_in_use = refl

abbrev pending_child : Child
pending_child = record {
  port = 5051;
  kubeconfig_path = config;
  stderr_lines = codes "no such" ∷ codes "file" ∷ [];
  attempts = 1;
  check = idle;
  error_handler = true;
  exit_handler = true;
  promise = pending;
  exited = false;
  stop = waiting;
  force_kill_timeout = false;
}

pending_start_can_end_example :
    (pending_child.exit_handler ≡ true)
    × (pending_child.exited ≡ false)
    × ((pending_child.check ≢ idle)
        ⊎ (is_process 0 (run interrupted initial).sidecar_process ≡ false))
unfolding run step prepare launch answer not_yet stop_sidecar force_kill on_stderr push_lines
    push_line split
pending_start_can_end_example = pending_start_can_end interrupted 0 pending_child refl refl

stopped_never_crashes_example : noticed 0 (run interrupted initial).crashes ≡ false
unfolding run step prepare launch answer not_yet stop_sidecar force_kill on_stderr push_lines
    push_line split
stopped_never_crashes_example =
    stopped_never_crashes interrupted 0 pending_child refl (ground arith)

abbrev repeat : ℕ → List Bool
repeat zero = []
repeat (suc n) = false ∷ repeat n
