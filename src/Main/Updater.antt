-- ===== src/Main/Updater.antt =====
-- main/system/updater.ts: update events wait in a queue until the main window is ready. What
-- `webContents.send` has delivered is recorded, oldest first.
pub mod Order
mod Tests
use podscape.Common.{
  ℕ, String, Bool, true, false, Option, List, [], ◌∷◌, ◌++◌, length, ltb, if◌then◌else◌,
}

pub record UpdateEvent : Type 0 where
  pub channel : String
  pub payload : Option String

pub record Updater : Type 0 where
  pub pending_events : List UpdateEvent
  pub window_ready : Bool
  pub delivered : List UpdateEvent

abbrev pub max_pending : ℕ
max_pending = 20

-- `if (pendingEvents.length < MAX_PENDING) pendingEvents.push(…)`.
pub push_pending : ℕ → UpdateEvent → List UpdateEvent → List UpdateEvent
push_pending most e waiting = if ltb (length waiting) most then waiting ++ e ∷ [] else waiting

-- `has_window` says whether there is a window at all.
pub send : Bool → UpdateEvent → Updater → Updater
send has_window e s =
    let queued = record s { pending_events = push_pending max_pending e s.pending_events } in
    if has_window
    then (if s.window_ready then record s { delivered = s.delivered ++ e ∷ [] } else queued)
    else queued

pub on_window_ready : Updater → Updater
on_window_ready s = record {
  pending_events = [];
  window_ready = true;
  delivered = s.delivered ++ s.pending_events;
}

pub start : Updater
start = record { pending_events = []; window_ready = false; delivered = [] }
