-- ===== src/Store/Forwards.antt =====
-- Port forwards of renderer/store/slices/operationSlice.ts, with the map `pfUnsubs` of that module
-- and the listeners that stand in `ipcRenderer`. A listener is known by the serial number of its
-- registration; an unsubscribe function is the serial number that it removes, and `none` where the
-- code has put a function that does nothing. The calls to the main process are recorded, newest
-- first.
pub mod Tracking
pub mod Shown
pub mod Invariant
mod Tests
use podscape.Common.{
  ℕ, suc, String, Bool, true, false, not, ◌&&◌, ◌||◌, Option, none, some, List, [], ◌∷◌, ◌++◌, map,
  ◌==◌, filter, any, if◌then◌else◌, eqb,
}

pub data Status : Type 0 where
  starting active error stopped : Status

pub record PortForwardEntry : Type 0 where
  pub id : String
  pub namespace : String
  pub type : String
  pub name : String
  pub local_port : ℕ
  pub remote_port : ℕ
  pub status : Status
  pub message : Option String

pub data Kind : Type 0 where
  on_ready on_error on_exit : Kind

abbrev pub same_kind : Kind → Kind → Bool
same_kind on_ready on_ready = true
same_kind on_error on_error = true
same_kind on_exit on_exit = true
same_kind _ _ = false

pub record Listener : Type 0 where
  pub key : String
  pub kind : Kind
  pub serial : ℕ

-- The array of three unsubscribe functions.
pub record Unsubs : Type 0 where
  pub ready : Option ℕ
  pub error : Option ℕ
  pub exit : Option ℕ

pub data Call : Type 0 where
  forward : (context id : String) → Call
  stop : String → Call

pub record Forwards : Type 0 where
  pub port_forwards : List PortForwardEntry
  pub pf_unsubs : List (String × Unsubs)
  pub listeners : List Listener
  pub next_serial : ℕ
  pub calls : List Call

abbrev pub has_id : String → PortForwardEntry → Bool
has_id id f = f.id == id

abbrev pub has_key : String → Listener → Bool
has_key id l = l.key == id

-- `Map.get`, `Map.set` and `Map.delete`.
pub get : String → List (String × Unsubs) → Option Unsubs
get id [] = none
get id ((k, u) ∷ m) = let rest = get id m in if k == id then some u else rest

pub set : String → Unsubs → List (String × Unsubs) → List (String × Unsubs)
set id u [] = (id, u) ∷ []
set id u ((k, v) ∷ m) = let rest = set id u m in if k == id then (k, u) ∷ m else (k, v) ∷ rest

pub delete : String → List (String × Unsubs) → List (String × Unsubs)
delete id [] = []
delete id ((k, v) ∷ m) = let rest = delete id m in if k == id then m else (k, v) ∷ rest

abbrev pub is_serial : Option ℕ → ℕ → Bool
is_serial none n = false
is_serial (some m) n = eqb m n

abbrev pub removed_by : Unsubs → Listener → Bool
removed_by u l =
    is_serial u.ready l.serial || is_serial u.error l.serial || is_serial u.exit l.serial

-- `unsubs.forEach(fn => fn())`.
pub unsubscribe : Unsubs → List Listener → List Listener
unsubscribe u = filter (λ l. not (removed_by u l))

abbrev pub no_ops : Unsubs
no_ops = record { ready = none; error = none; exit = none }

abbrev pub with_unsub : Kind → ℕ → Unsubs → Unsubs
with_unsub on_ready n u = record u { ready = some n }
with_unsub on_error n u = record u { error = some n }
with_unsub on_exit n u = record u { exit = some n }

-- The registration of a listener, which returns its unsubscribe function.
pub listen : Kind → String → Forwards → Forwards
listen kind id s = record s {
  listeners = s.listeners ++ record { key = id; kind = kind; serial = s.next_serial } ∷ [];
  next_serial = suc s.next_serial;
}

-- `unsubs[k] = …`: the array is the one in the map, as long as the map has it.
pub assign : Kind → String → ℕ → Forwards → Forwards
assign kind id n s = elim (get id s.pf_unsubs) [
  | none ↦ s
  | some u ↦ record s { pf_unsubs = set id (with_unsub kind n u) s.pf_unsubs }
]

pub wire : Kind → String → Forwards → Forwards
wire kind id s = assign kind id s.next_serial (listen kind id s)

pub begin : PortForwardEntry → Forwards → Forwards
begin entry s = record s {
  port_forwards = s.port_forwards ++ entry ∷ [];
  pf_unsubs = set entry.id no_ops s.pf_unsubs;
}

pub send : Call → Forwards → Forwards
send c s = record s { calls = c ∷ s.calls }

pub start_port_forward : String → PortForwardEntry → Forwards → Forwards
start_port_forward context entry s =
    send (forward context entry.id)
      (wire on_exit entry.id (wire on_error entry.id (wire on_ready entry.id (begin entry s))))

-- The three listeners are removed and the map entry deleted, if there is one.
pub clean_up : String → Forwards → Forwards
clean_up id s = elim (get id s.pf_unsubs) [
  | none ↦ s
  | some u ↦ record s { pf_unsubs = delete id s.pf_unsubs; listeners = unsubscribe u s.listeners }
]

abbrev pub activated : String → PortForwardEntry → PortForwardEntry
activated id f = if f.id == id then record f { status = Status.active } else f

abbrev pub failed : String → String → PortForwardEntry → PortForwardEntry
failed id msg f = if f.id == id then record f { status = Status.error; message = some msg } else f

pub handle_ready : String → Forwards → Forwards
handle_ready id s = record s { port_forwards = map (activated id) s.port_forwards }

-- The handler of an error event, and the `catch` of the call of `portForward`.
pub handle_error : String → String → Forwards → Forwards
handle_error id msg s =
    let s' = clean_up id s in record s' { port_forwards = map (failed id msg) s'.port_forwards }

pub handle_exit : String → Forwards → Forwards
handle_exit id s =
    let s' = clean_up id s in
    record s' { port_forwards = filter (λ f. not (has_id id f)) s'.port_forwards }

pub stop_port_forward : String → Forwards → Forwards
stop_port_forward id s =
    let s' = send (stop id) (clean_up id s) in
    record s' { port_forwards = filter (λ f. not (has_id id f)) s'.port_forwards }

-- The loop of `stopAllPortForwards` over the map.
pub stop_each : List (String × Unsubs) → Forwards → Forwards
stop_each [] s = s
stop_each ((id, u) ∷ m) s =
    stop_each m (send (stop id) (record s { listeners = unsubscribe u s.listeners }))

unfoldable pub stop_all_port_forwards : Forwards → Forwards
stop_all_port_forwards s = record (stop_each s.pf_unsubs s) { pf_unsubs = []; port_forwards = [] }

-- What happens to the forwards: a call of the store, an event for a listener that still stands, or
-- the rejection of the promise of `portForward`.
pub data Event : Type 0 where
  starts : (context : String) → PortForwardEntry → Event
  ready exits stops : String → Event
  errors rejects : (id msg : String) → Event
  stops_all : Event

abbrev pub hears : Kind → String → Forwards → Bool
hears kind id s = any (λ l. has_key id l && same_kind kind l.kind) s.listeners

pub step : Event → Forwards → Forwards
step (starts context entry) s = start_port_forward context entry s
step (ready id) s = if hears on_ready id s then handle_ready id s else s
step (errors id msg) s = if hears on_error id s then handle_error id msg s else s
step (exits id) s = if hears on_exit id s then handle_exit id s else s
step (rejects id msg) s = handle_error id msg s
step (stops id) s = stop_port_forward id s
step stops_all s = stop_all_port_forwards s
