-- ===== src/Main/Tunnels/Tests.antt =====
-- Port forwards of the main process at concrete inputs.
use podscape.Common.{true, false, none, List, [], ◌∷◌, ◌≡◌, refl}
use podscape.Common.Maps.{put, at_key}
use podscape.Main.Tunnels.{
  ready, exit, Tunnels, none_yet, delete, clear_forward_alive_timer, cancel_all_port_forward_timers,
  send, ok, on_answer, on_poll, stop_port_forward, Event, answers, polls, stops, evicts, quits,
  step, run,
}
use podscape.Main.Tunnels.Races.{is_polled, stopped_before_answer}

abbrev after : List Event → Tunnels
after es = run es none_yet

-- A forward that dies is told once, and its timer is gone.
dead_forward :
    let w = after (answers "a" ok ∷ polls 0 true ∷ polls 0 false ∷ polls 0 false ∷ []) in
    (w.sent ≡ exit "a" ∷ ready "a" ∷ []) × (w.intervals ≡ []) × (w.forward_alive_timers ≡ [])
unfolding run step on_answer on_poll send clear_forward_alive_timer put at_key
dead_forward = (refl, refl, refl)

-- The stop of a forward that was forgotten after a minute does not hold back its answer.
late_answer : (after (stops "a" ∷ evicts "a" ∷ answers "a" ok ∷ [])).sent ≡ ready "a" ∷ []
unfolding run step on_answer send stop_port_forward clear_forward_alive_timer put at_key
late_answer = refl

quit_clears : (after (answers "a" ok ∷ answers "b" ok ∷ quits ∷ [])).intervals ≡ []
unfolding run step on_answer send cancel_all_port_forward_timers put
quit_clears = refl

stopped_before_answer_example :
    let v = run (answers "b" ok ∷ polls 0 false ∷ []) (step (stops "a") none_yet) in
    let u = step (answers "a" ok) v in
    (u.sent ≡ v.sent)
    × (u.intervals ≡ v.intervals)
    × (is_polled "a" u.intervals ≡ false)
    × (at_key "a" u.forward_alive_timers ≡ none)
    × (u.pending_stops ≡ delete "a" v.pending_stops)
stopped_before_answer_example =
    stopped_before_answer "a" (answers "b" ok ∷ polls 0 false ∷ []) none_yet refl refl
