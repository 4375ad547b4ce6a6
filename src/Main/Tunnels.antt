-- ===== src/Main/Tunnels.antt =====
-- The port forwards of the main process: portForward, stopPortForward and the alive polls of
-- main/ipc/kubectl.ts. A timer is known by a serial number. An event says which call begins, which
-- answer of the sidecar arrives, or which timer fires.
pub mod Races
mod Tests
use podscape.Common.{
  ℕ, suc, String, Bool, true, false, not, Option, none, some, List, [], ◌∷◌, ◌++◌, ◌==◌, any,
  filter, eqb, if◌then◌else◌,
}
use podscape.Common.Maps.{put, at_key}

pub data Sent : Type 0 where
  ready exit : String → Sent
  error : (id msg : String) → Sent

-- `intervals` are the timers that run, with the forward that each one polls; `sent` is what the
-- renderer was told, newest first.
pub record Tunnels : Type 0 where
  pub forward_alive_timers : List (String × ℕ)
  pub pending_stops : List String
  pub intervals : List (ℕ × String)
  pub next_timer : ℕ
  pub is_destroyed : Bool
  pub sent : List Sent

abbrev pub none_yet : Tunnels
none_yet = record {
  forward_alive_timers = [];
  pending_stops = [];
  intervals = [];
  next_timer = 0;
  is_destroyed = false;
  sent = [];
}

-- `Set.has`, `Set.add` and `Set.delete`.
abbrev pub has : String → List String → Bool
has id = any (λ k. k == id)

abbrev pub add : String → List String → List String
add id ids = if has id ids then ids else ids ++ id ∷ []

abbrev pub delete : String → List String → List String
delete id = filter (λ k. not (k == id))

-- `Map.delete`.
abbrev pub delete_key : String → List (String × ℕ) → List (String × ℕ)
delete_key id = filter (λ e. not (e.0 == id))

-- `clearInterval`.
abbrev pub clear_interval : ℕ → List (ℕ × String) → List (ℕ × String)
clear_interval timer = filter (λ i. not (eqb i.0 timer))

pub clear_forward_alive_timer : String → Tunnels → Tunnels
clear_forward_alive_timer id w = elim (at_key id w.forward_alive_timers) [
  | none ↦ w
  | some timer ↦ record w {
    intervals = clear_interval timer w.intervals;
    forward_alive_timers = delete_key id w.forward_alive_timers;
  }
]

abbrev pub clear_all : List (String × ℕ) → List (ℕ × String) → List (ℕ × String)
clear_all [] is = is
clear_all ((id, timer) ∷ timers) is = clear_all timers (clear_interval timer is)

pub cancel_all_port_forward_timers : Tunnels → Tunnels
cancel_all_port_forward_timers w = record w {
  intervals = clear_all w.forward_alive_timers w.intervals;
  forward_alive_timers = [];
}

pub send : Sent → Tunnels → Tunnels
send e w = if w.is_destroyed then w else record w { sent = e ∷ w.sent }

pub data Answer : Type 0 where
  ok : Answer
  -- the detail of an answer that is not ok, or the message of an exception
  failed : String → Answer

-- `portForward` from the answer of the sidecar on.
pub on_answer : String → Answer → Tunnels → Tunnels
on_answer id (failed msg) w = send (error id msg) w
on_answer id ok w =
    let timer = w.next_timer in
    if has id w.pending_stops
    then record w { next_timer = suc timer; pending_stops = delete id w.pending_stops }
    else send (ready id) (record w {
      next_timer = suc timer;
      intervals = w.intervals ++ (timer, id) ∷ [];
      forward_alive_timers = put id timer w.forward_alive_timers;
    })

-- The forward that a timer polls.
abbrev pub polled : ℕ → List (ℕ × String) → Option String
polled timer [] = none
polled timer ((t, id) ∷ is) = let rest = polled timer is in if eqb t timer then some id else rest

-- The answer to an alive poll: the forward is gone, or the sidecar cannot be reached.
pub on_poll : ℕ → Bool → Tunnels → Tunnels
on_poll timer is_alive w = elim (polled timer w.intervals) [
  | none ↦ w
  | some id ↦ if not is_alive then send (exit id) (clear_forward_alive_timer id w) else w
]

pub stop_port_forward : String → Tunnels → Tunnels
stop_port_forward id w =
    clear_forward_alive_timer id (record w { pending_stops = add id w.pending_stops })

pub data Event : Type 0 where
  answers : String → Answer → Event
  polls : ℕ → Bool → Event
  stops evicts window_closes : String → Event
  quits closes : Event

-- `evicts` is the timeout of a stop; `window_closes` the listener of a forward for the end of the
-- renderer.
pub step : Event → Tunnels → Tunnels
step (answers id a) w = on_answer id a w
step (polls timer is_alive) w = on_poll timer is_alive w
step (stops id) w = stop_port_forward id w
step (evicts id) w = record w { pending_stops = delete id w.pending_stops }
step (window_closes id) w = clear_forward_alive_timer id w
step quits w = cancel_all_port_forward_timers w
step closes w = record w { is_destroyed = true }

pub run : List Event → Tunnels → Tunnels
run [] w = w
run (e ∷ es) w = run es (step e w)
