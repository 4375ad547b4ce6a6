-- ===== src/Main/Sidecar.antt =====
-- main/sidecar/sidecar.ts with main/sidecar/runtime.ts: the start of the sidecar process, its health
-- checks, its exit, and its stop. The three variables of the module and each process that was
-- spawned are the state; what happens between two turns of the event loop is an event. Node's own
-- promises, timers and sockets are not modelled: an event says that one of them has fired.
mod Process
pub mod Polling
mod Sound
pub mod Invariant
pub mod Outcomes
pub mod Tail
mod Tests
use podscape.Common.{
  ℕ, suc, String, Bool, true, false, not, ◌&&◌, ◌||◌, Option, none, some, List, [], ◌∷◌, ◌++◌,
  length, drop, filter, any, is_some, ltb, leb, eqb, if◌then◌else◌, ◌*◌,
}
unfoldable pub use Process.*

abbrev pub sidecar_port : ℕ
sidecar_port = 5050

pub data Kill : Type 0 where
  sigterm sigkill : ℕ → Kill

-- `crashes` and `kills` record what was sent, newest first.
pub record Sidecar : Type 0 where
  pub sidecar_process : Option ℕ
  pub startup_complete : Bool
  pub shutting_down : Bool
  pub active_sidecar_port : ℕ
  pub children : ℕ → Option Child
  pub next : ℕ
  pub crashes : List ℕ
  pub kills : List Kill

abbrev pub initial : Sidecar
initial = record {
  sidecar_process = none;
  startup_complete = false;
  shutting_down = false;
  active_sidecar_port = sidecar_port;
  children = λ i. none;
  next = 0;
  crashes = [];
  kills = [];
}

-- `sidecarProcess === child`.
abbrev pub is_process : ℕ → Option ℕ → Bool
is_process i none = false
is_process i (some p) = eqb p i

abbrev pub changed : (Child → Child) → Option Child → Option Child
changed f none = none
changed f (some c) = some (f c)

-- One process changes, if it was spawned.
abbrev pub with_child : ℕ → (Child → Child) → Sidecar → Sidecar
with_child i f w = record w {
  children = λ j. if eqb i j then changed f (w.children j) else w.children j;
}

-- `preferred` if nothing listens there, or a port that the system gives.
pub find_free_port : ℕ → Bool → ℕ → ℕ
find_free_port preferred is_free given = if is_free then preferred else given

-- The answer to `fetch('…/health')` of a process.
pub answer : ℕ → Bool → Sidecar → Sidecar
answer i ok w =
    if is_in_flight (w.children i)
    then (if ok
        then record (with_child i ready w) { startup_complete = true }
        else with_child i (not_yet (is_some w.sidecar_process)) w)
    else w

-- `setTimeout(checkReady, interval)`.
pub timer : ℕ → Sidecar → Sidecar
timer i w =
    if is_scheduled (w.children i) then with_child i (λ c. record c { check = in_flight }) w else w

-- The exit of a process, which happens once.
pub exit : ℕ → Option ℕ → Option String → Sidecar → Sidecar
exit i code signal w =
    let v = with_child i (on_exit w.shutting_down code signal) w in
    if has_exited (w.children i)
    then w
    else (if is_process i w.sidecar_process
        then record v {
          sidecar_process = none;
          crashes = if w.startup_complete then i ∷ w.crashes else w.crashes;
        }
        else v)

-- `stopSidecar` up to the exit of the process.
pub stop_sidecar : Sidecar → Sidecar
stop_sidecar w = elim w.sidecar_process [
  | none ↦ w
  | some p ↦ record (with_child p (λ c. record c { stop = waiting; force_kill_timeout = true }) w) {
    startup_complete = false;
    shutting_down = true;
    sidecar_process = none;
    kills = sigterm p ∷ w.kills;
  }
]

-- The timeout of `stopSidecar`.
pub force_kill : ℕ → Sidecar → Sidecar
force_kill i w =
    if has_timeout (w.children i)
    then record (with_child i (λ c. record c { force_kill_timeout = false }) w) {
      kills = sigkill i ∷ w.kills;
    }
    else w

-- `startSidecar` between the exit of the last process and the search for a port.
pub prepare : Bool → Sidecar → Sidecar
prepare binary_exists w = if binary_exists then record w { shutting_down = false } else w

-- `startSidecar` with the port that was found: the process is spawned and checked at once.
pub launch : ℕ → String → Sidecar → Sidecar
launch port kubeconfig_path w = record w {
  sidecar_process = some w.next;
  active_sidecar_port = port;
  children = λ j. if eqb w.next j then some (spawned port kubeconfig_path) else w.children j;
  next = suc w.next;
}

-- `process.on('exit')`.
pub quit : Sidecar → Sidecar
quit w = elim w.sidecar_process [ none ↦ w | some p ↦ record w { kills = sigkill p ∷ w.kills } ]

pub data Event : Type 0 where
  stops quits : Event
  prepares : Bool → Event
  launches : (port : ℕ) (kubeconfig_path : String) → Event
  answers : ℕ → Bool → Event
  timer_fires timeout_fires : ℕ → Event
  exits : ℕ → Option ℕ → Option String → Event
  errors : ℕ → String → Event
  prints : ℕ → List ℕ → Event

-- `startSidecar` calls `stopSidecar` first: its first part is a stop, its later parts are `prepares`
-- and `launches`.
pub step : Event → Sidecar → Sidecar
step stops w = stop_sidecar w
step quits w = quit w
step (prepares binary_exists) w = prepare binary_exists w
step (launches port kubeconfig_path) w = launch port kubeconfig_path w
step (answers i ok) w = answer i ok w
step (timer_fires i) w = timer i w
step (timeout_fires i) w = force_kill i w
step (exits i code signal) w = exit i code signal w
step (errors i message) w = with_child i (on_error message) w
step (prints i text) w = with_child i (on_stderr text) w

pub run : List Event → Sidecar → Sidecar
run [] w = w
run (e ∷ es) w = run es (step e w)
