-- ===== src/Store/Exec/Kills.antt =====
-- Closing tabs of renderer/store/slices/operationSlice.ts: the terminals that are killed.
use podscape.Common.{ℕ, suc, String, Option, none, some, List, [], ◌∷◌, ◌==◌, ◌+◌, if◌then◌else◌}
use podscape.Store.Exec.{ExecSession, ExecState}

-- How often a terminal stands in a list.
abbrev pub count : String → List String → ℕ
count a [] = 0
count a (x ∷ xs) = let rest = count a xs in if x == a then suc rest else rest

-- A terminal that a tab may have, before others; the empty identifier is none.
abbrev pub hold : Option String → List String → List String
hold none ps = ps
hold (some p) ps = if p == "" then ps else p ∷ ps

-- The terminals that the open tabs hold.
pub open_ptys : List ExecSession → List String
open_ptys [] = []
open_ptys (x ∷ xs) = hold x.pty_id (open_ptys xs)

-- A terminal's tabs and the calls that killed it, together.
abbrev pub held_or_killed : String → ExecState → ℕ
held_or_killed a s = count a (open_ptys s.exec_sessions) + count a s.killed
