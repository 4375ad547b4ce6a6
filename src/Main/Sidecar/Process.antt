-- ===== src/Main/Sidecar/Process.antt =====
-- One process of the sidecar with its listeners, its health checks and the promise of its start:
-- startSidecar of main/sidecar/sidecar.ts.
use podscape.Common.{
  ℕ, suc, String, Bool, true, false, not, Option, none, some, List, [], ◌∷◌, ◌++◌, length, drop,
  any, ltb, leb, if◌then◌else◌, ◌*◌,
}
use podscape.Common.Splits.{split, is_space}

abbrev pub max_attempts : ℕ
max_attempts = 180

-- Half a second, in tenths of a second.
abbrev pub interval : ℕ
interval = 5

abbrev pub max_stderr_lines : ℕ
max_stderr_lines = 30

pub data Reason : Type 0 where
  failed_to_start : String → Reason
  exited_during_startup : (code : Option ℕ) (signal : Option String) → Reason
  -- the time, in tenths of a second
  not_ready : ℕ → Reason

-- The promise that `startSidecar` returns; an error has the lines of stderr with it.
pub data Promise : Type 0 where
  pending resolved : Promise
  rejected : Reason → List (List ℕ) → Promise

-- Whether the next `checkReady` waits for its answer, for its timer, or does not come.
pub data Check : Type 0 where
  in_flight scheduled idle : Check

-- Whether `stopSidecar` was called on the process, and whether its promise has resolved.
pub data Stop : Type 0 where
  not_asked waiting stopped : Stop

pub record Child : Type 0 where
  pub port : ℕ
  pub kubeconfig_path : String
  pub stderr_lines : List (List ℕ)
  pub attempts : ℕ
  pub check : Check
  pub error_handler : Bool
  pub exit_handler : Bool
  pub promise : Promise
  pub exited : Bool
  pub stop : Stop
  pub force_kill_timeout : Bool

-- A promise settles once.
abbrev pub settle : Promise → Promise → Promise
settle p pending = p
settle p resolved = resolved
settle p (rejected reason lines) = rejected reason lines

-- `text.split('\n')`.
abbrev pub split_lines : List ℕ → List (List ℕ)
split_lines = split b'\n'

-- `line.trim()` is not empty.
abbrev pub has_text : List ℕ → Bool
has_text = any (λ c. not (is_space c))

unfoldable pub push_line : ℕ → List (List ℕ) → List ℕ → List (List ℕ)
push_line most lines line =
    let longer = lines ++ line ∷ [] in if ltb most (length longer) then drop 1 longer else longer

unfoldable pub push_lines : ℕ → List (List ℕ) → List (List ℕ) → List (List ℕ)
push_lines most lines [] = lines
push_lines most lines (l ∷ ls) =
    push_lines most (if has_text l then push_line most lines l else lines) ls

-- The listener of `stderr`.
unfoldable pub on_stderr : List ℕ → Child → Child
on_stderr text c = record c {
  stderr_lines = push_lines max_stderr_lines c.stderr_lines (split_lines text);
}

abbrev pub clear_timer : Check → Check
clear_timer in_flight = in_flight
clear_timer scheduled = idle
clear_timer idle = idle

-- `errorHandler`, a listener for one event.
unfoldable pub on_error : String → Child → Child
on_error message c =
    if c.error_handler
    then record c {
      error_handler = false;
      check = clear_timer c.check;
      promise = settle (rejected (failed_to_start message) c.stderr_lines) c.promise;
    }
    else c

-- `exitHandler`, a listener for one event.
unfoldable pub exit_handler_runs : Bool → Option ℕ → Option String → Child → Child
exit_handler_runs shutting_down code signal c =
    if c.exit_handler
    then record c {
      exit_handler = false;
      check = clear_timer c.check;
      promise =
          settle
            (if shutting_down
              then resolved
              else rejected (exited_during_startup code signal) c.stderr_lines)
            c.promise;
    }
    else c

-- The listener of `stopSidecar`, if it was called.
abbrev pub on_stopped : Stop → Stop
on_stopped not_asked = not_asked
on_stopped waiting = stopped
on_stopped stopped = stopped

-- The listeners of the process itself for its exit, in the order of their registration.
unfoldable pub on_exit : Bool → Option ℕ → Option String → Child → Child
on_exit shutting_down code signal c =
    let d = exit_handler_runs shutting_down code signal c in
    record d { exited = true; stop = on_stopped d.stop; force_kill_timeout = false }

-- `checkReady` after an answer that is ok.
unfoldable pub ready : Child → Child
ready c = record c {
  check = idle;
  error_handler = false;
  exit_handler = false;
  promise = settle resolved c.promise;
}

-- `checkReady` after an answer that is not, or none.
unfoldable pub not_yet : Bool → Child → Child
not_yet has_process c =
    if leb max_attempts (suc c.attempts)
    then record c {
      attempts = suc c.attempts;
      check = idle;
      error_handler = false;
      exit_handler = false;
      promise = settle (rejected (not_ready (max_attempts * interval)) c.stderr_lines) c.promise;
    }
    else record c { attempts = suc c.attempts; check = if has_process then scheduled else idle }

abbrev pub is_in_flight : Option Child → Bool
is_in_flight none = false
is_in_flight (some c) = elim c.check [ in_flight ↦ true | _ ↦ false ]

abbrev pub is_scheduled : Option Child → Bool
is_scheduled none = false
is_scheduled (some c) = elim c.check [ scheduled ↦ true | _ ↦ false ]

abbrev pub has_exited : Option Child → Bool
has_exited none = true
has_exited (some c) = c.exited

abbrev pub has_timeout : Option Child → Bool
has_timeout none = false
has_timeout (some c) = c.force_kill_timeout

abbrev pub spawned : ℕ → String → Child
spawned port kubeconfig_path = record {
  port = port;
  kubeconfig_path = kubeconfig_path;
  stderr_lines = [];
  attempts = 0;
  check = in_flight;
  error_handler = true;
  exit_handler = true;
  promise = pending;
  exited = false;
  stop = not_asked;
  force_kill_timeout = false;
}
