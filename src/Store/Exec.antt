-- ===== src/Store/Exec.antt =====
-- Exec tabs of renderer/store/slices/operationSlice.ts. The identifier that `openExec` makes from
-- the clock and a random number is an argument. The calls of `window.exec.kill` are recorded in
-- `killed`, newest first; their results are ignored by the code.
pub mod Laws
pub mod Kills
mod Tests
use podscape.Common.{
  ℕ, zero, suc, String, Bool, not, Option, none, some, List, [], ◌∷◌, ◌++◌, map, ◌==◌, filter, find,
  get_elem?, if◌then◌else◌, truthy, same_option, or_option,
}

pub record ExecTarget : Type 0 where
  pub pod : String
  pub container : String
  pub namespace : String

pub record ExecSession : Type 0 where
  pub id : String
  pub target : ExecTarget
  pub pty_id : Option String

pub record ExecState : Type 0 where
  pub exec_sessions : List ExecSession
  pub active_exec_id : Option String
  pub killed : List String

abbrev pub has_id : String → ExecSession → Bool
has_id id s = s.id == id

pub open_exec : String → ExecTarget → ExecState → ExecState
open_exec id target s = record s {
  exec_sessions = s.exec_sessions ++ record { id = id; target = target; pty_id = none } ∷ [];
  active_exec_id = some id;
}

abbrev with_pty : String → String → ExecSession → ExecSession
with_pty session_id pty_id s = if s.id == session_id then record s { pty_id = some pty_id } else s

pub set_pty_id : String → String → ExecState → ExecState
set_pty_id session_id pty_id s = record s {
  exec_sessions = map (with_pty session_id pty_id) s.exec_sessions;
}

abbrev pub next_index : Option ℕ → Option ℕ
next_index none = none
next_index (some i) = some (suc i)

pub find_index : String → List ExecSession → Option ℕ
find_index id [] = none
find_index id (x ∷ xs) =
    let rest = next_index (find_index id xs) in if has_id id x then some zero else rest

-- `findIndex` gives -1 for a missing session, and JavaScript reads `undefined` below 0.
pub neighbour : Option ℕ → List ExecSession → Option ExecSession
neighbour none xs = get_elem? xs zero
neighbour (some zero) xs = get_elem? xs 1
neighbour (some (suc i)) xs = or_option (get_elem? xs (suc (suc i))) (get_elem? xs i)

pub remaining : String → List ExecSession → List ExecSession
remaining id = filter (λ s. not (has_id id s))

pub pty_of : Option ExecSession → Option String
pty_of none = none
pty_of (some s) = truthy s.pty_id

-- One call of `window.exec.kill`.
pub kill : Option String → List String → List String
kill none calls = calls
kill (some p) calls = p ∷ calls

abbrev pub id_of : Option ExecSession → Option String
id_of none = none
id_of (some t) = some t.id

pub next_active : String → Option String → List ExecSession → Option String
next_active id active xs =
    if same_option active (some id) then id_of (neighbour (find_index id xs) xs) else active

pub close_exec_tab : String → ExecState → ExecState
close_exec_tab id s = record s {
  exec_sessions = remaining id s.exec_sessions;
  active_exec_id = next_active id s.active_exec_id s.exec_sessions;
  killed = kill (pty_of (find (has_id id) s.exec_sessions)) s.killed;
}

pub set_active_exec_id : String → ExecState → ExecState
set_active_exec_id id s = record s { active_exec_id = some id }

-- The `forEach` of `closeExec`.
pub kill_all : List ExecSession → List String → List String
kill_all [] calls = calls
kill_all (x ∷ xs) calls = kill_all xs (kill (pty_of (some x)) calls)

unfoldable pub close_exec : ExecState → ExecState
close_exec s = record {
  exec_sessions = [];
  active_exec_id = none;
  killed = kill_all s.exec_sessions s.killed;
}

-- What a client may ask of the tabs.
pub data Request : Type 0 where
  opens : String → ExecTarget → Request
  attaches : String → String → Request
  activates closes : String → Request
  closes_all : Request

pub step : Request → ExecState → ExecState
step (opens id target) s = open_exec id target s
step (attaches id pty) s = set_pty_id id pty s
step (activates id) s = set_active_exec_id id s
step (closes id) s = close_exec_tab id s
step closes_all s = close_exec s
