-- ===== src/Store/Exec/Tests.antt =====
-- The exec tabs at concrete inputs.
use podscape.Common.{String, some, [], ◌∷◌, ◌≡◌, refl}
use podscape.Store.Exec.{
  ExecTarget, ExecSession, ExecState, find_index, neighbour, remaining, pty_of, kill, next_active,
  close_exec_tab, closes, step,
}
use podscape.Store.Exec.Laws.{IsConsistent, step-IsConsistent}

abbrev shell : ExecTarget
shell = record { pod = "web-0"; container = "app"; namespace = "default" }

abbrev tab : String → String → ExecSession
tab id pty = record { id = id; target = shell; pty_id = some pty }

-- Three tabs, the middle one active.
abbrev three : ExecState
three = record {
  exec_sessions = tab "a" "p1" ∷ tab "b" "p2" ∷ tab "c" "p3" ∷ [];
  active_exec_id = some "b";
  killed = [];
}

three-IsConsistent : IsConsistent three
three-IsConsistent = record { distinct = (refl, (refl, (refl, tt))); active = refl }

close_active : close_exec_tab "b" three ≡ record {
  exec_sessions = tab "a" "p1" ∷ tab "c" "p3" ∷ [];
  active_exec_id = some "c";
  killed = "p2" ∷ [];
}
unfolding close_exec_tab next_active neighbour find_index remaining pty_of kill
close_active = refl

step-IsConsistent_example : IsConsistent (step (closes "b") three)
step-IsConsistent_example = step-IsConsistent (closes "b") three tt three-IsConsistent
