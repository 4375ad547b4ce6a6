-- ===== src/Main/Tunnels/Races.antt =====
-- A stop that comes before the answer to its start: main/ipc/kubectl.ts.
use podscape.Common.{
  any, ℕ, suc, String, Bool, true, false, not, Option, none, some, List, [], ◌∷◌, ◌++◌, ◌==◌, all,
  if◌then◌else◌, ◌≡◌, refl, ◌∙◌, arith, Bool-cases, Option-cases, inl, inr, eq_refl, eq_iff,
  any-append,
}
use podscape.Common.Maps.{put, at_key, at_key-put-other}
use podscape.Main.Tunnels.{
  Sent, ready, Tunnels, has, add, delete, delete_key, clear_forward_alive_timer, clear_interval,
  clear_all, cancel_all_port_forward_timers, send, Answer, ok, failed, on_answer, polled, on_poll,
  stop_port_forward, Event, answers, polls, stops, evicts, window_closes, quits, closes, step, run,
}

-- An event that is neither an answer for the forward nor the timeout of its stop.
abbrev pub is_spared : String → Event → Bool
is_spared id (answers k a) = not (k == id)
is_spared id (evicts k) = not (k == id)
is_spared id _ = true

-- Whether a timer polls a forward.
abbrev pub is_polled : String → List (ℕ × String) → Bool
is_polled id = any (λ i. i.1 == id)

-- The stop is remembered, and no timer polls the forward.
IsStopped : String → Tunnels → Type 0
IsStopped id w =
    (has id w.pending_stops ≡ true)
    × (at_key id w.forward_alive_timers ≡ none)
    × (is_polled id w.intervals ≡ false)

clear_interval-unpolled :
    (id : String) (t : ℕ) (is : List (ℕ × String))
    → is_polled id is ≡ false
    → is_polled id (clear_interval t is) ≡ false
clear_interval-unpolled id t [] h = refl
clear_interval-unpolled id t (i ∷ is) h = ground (arith, clear_interval-unpolled id t is)

clear_all-unpolled :
    (id : String) (m : List (String × ℕ)) (is : List (ℕ × String))
    → is_polled id is ≡ false
    → is_polled id (clear_all m is) ≡ false
clear_all-unpolled id [] is h = h
clear_all-unpolled id ((k, t) ∷ m) is h =
    clear_all-unpolled id m (clear_interval t is) (clear_interval-unpolled id t is h)

append-unpolled :
    (id k : String) (t : ℕ) (is : List (ℕ × String))
    → (k == id) ≡ false
    → is_polled id is ≡ false
    → is_polled id (is ++ (t, k) ∷ []) ≡ false
append-unpolled id k t [] h u = ground arith
append-unpolled id k t (i ∷ is) h u = ground (arith, append-unpolled id k t is h)

has-add : (id k : String) (ids : List String) → has id ids ≡ true → has id (add k ids) ≡ true
has-add id k ids h = ground (arith, any-append (λ j. j == id) ids (k ∷ []))

has-add_self : (id : String) (ids : List String) → has id (add id ids) ≡ true
has-add_self id ids = ground (arith, any-append (λ j. j == id) ids (id ∷ []), eq_refl id)

has-delete :
    (id k : String) (ids : List String) → (k == id) ≡ false → has id (delete k ids) ≡ has id ids
has-delete id k [] h = refl
has-delete id k (j ∷ ids) h = ground (arith, has-delete id k ids h, eq_iff j k, eq_iff j id)

at_key-delete_key_self : (id : String) (m : List (String × ℕ)) → at_key id (delete_key id m) ≡ none
unfolding at_key
at_key-delete_key_self id [] = refl
at_key-delete_key_self id ((k, t) ∷ m) = ground (arith, at_key-delete_key_self id m)

at_key-delete_key :
    (id k : String) (m : List (String × ℕ)) → at_key id m ≡ none → at_key id (delete_key k m) ≡ none
unfolding at_key
at_key-delete_key id k [] h = refl
at_key-delete_key id k ((j, t) ∷ m) h = ground (arith, at_key-delete_key id k m)

send-IsStopped : (id : String) (e : Sent) (w : Tunnels) → IsStopped id w → IsStopped id (send e w)
unfolding send IsStopped
send-IsStopped id e w s = ground arith

clear-IsStopped :
    (id k : String) (w : Tunnels) → IsStopped id w → IsStopped id (clear_forward_alive_timer k w)
unfolding clear_forward_alive_timer IsStopped
clear-IsStopped id k w s = elim (Option-cases (at_key k w.forward_alive_timers)) [
  | inl free ↦ rw (free, clear_forward_alive_timer) s
  | inr (t, e) ↦
      rw (e, clear_forward_alive_timer)
        (
          s.0,
          at_key-delete_key id k w.forward_alive_timers s.1,
          clear_interval-unpolled id t w.intervals s.2,
        )
]

on_answer-IsStopped :
    (id k : String) (a : Answer) (w : Tunnels)
    → (k == id) ≡ false
    → IsStopped id w
    → IsStopped id (on_answer k a w)
unfolding on_answer IsStopped
on_answer-IsStopped id k (failed msg) w h s = send-IsStopped id _ w s
on_answer-IsStopped id k ok w h s = elim (Bool-cases (has k w.pending_stops)) [
  | inl asked ↦ rw asked (has-delete id k w.pending_stops h ∙ s.0, s.1, s.2)
  | inr free ↦ rw free (
      send-IsStopped id (ready k)
        (record w {
          next_timer = suc w.next_timer;
          intervals = w.intervals ++ (w.next_timer, k) ∷ [];
          forward_alive_timers = put k w.next_timer w.forward_alive_timers;
        })
        (
          s.0,
          at_key-put-other k id w.next_timer w.forward_alive_timers h ∙ s.1,
          append-unpolled id k w.next_timer w.intervals h s.2,
        ))
]

polled-IsStopped :
    (id : String) (o : Option String) (b : Bool) (w : Tunnels)
    → IsStopped id w
    → IsStopped id (elim o [
      | none ↦ w
      | some k ↦ if not b then send (Sent.exit k) (clear_forward_alive_timer k w) else w
    ])
polled-IsStopped id none b w s = s
polled-IsStopped id (some k) true w s = s
polled-IsStopped id (some k) false w s = send-IsStopped id _ _ (clear-IsStopped id k w s)

on_poll-IsStopped :
    (id : String) (timer : ℕ) (b : Bool) (w : Tunnels)
    → IsStopped id w
    → IsStopped id (on_poll timer b w)
unfolding on_poll
on_poll-IsStopped id timer b w s = polled-IsStopped id (polled timer w.intervals) b w s

step-IsStopped :
    (id : String) (e : Event) (w : Tunnels)
    → is_spared id e ≡ true
    → IsStopped id w
    → IsStopped id (step e w)
unfolding step IsStopped at_key stop_port_forward cancel_all_port_forward_timers
step-IsStopped id (answers k a) w h s = on_answer-IsStopped id k a w (ground arith) s
step-IsStopped id (polls timer b) w h s = on_poll-IsStopped id timer b w s
step-IsStopped id (stops k) w h s =
    clear-IsStopped id k (record w { pending_stops = add k w.pending_stops })
      (has-add id k w.pending_stops s.0, s.1, s.2)
step-IsStopped id (evicts k) w h s =
    (has-delete id k w.pending_stops (ground arith) ∙ s.0, s.1, s.2)
step-IsStopped id (window_closes k) w h s = clear-IsStopped id k w s
step-IsStopped id quits w h s =
    (s.0, refl, clear_all-unpolled id w.forward_alive_timers w.intervals s.2)
step-IsStopped id closes w h s = s

run-IsStopped :
    (id : String) (es : List Event) (w : Tunnels)
    → all (is_spared id) es ≡ true
    → IsStopped id w
    → IsStopped id (run es w)
unfolding run
run-IsStopped id [] w h s = s
run-IsStopped id (e ∷ es) w h s =
    let first : is_spared id e ≡ true = ground arith in
    let later : all (is_spared id) es ≡ true = ground arith in
    run-IsStopped id es (step e w) later (step-IsStopped id e w first s)

stop-IsStopped :
    (id : String) (w : Tunnels)
    → is_polled id w.intervals ≡ false
    → IsStopped id (stop_port_forward id w)
unfolding stop_port_forward IsStopped clear_forward_alive_timer
stop-IsStopped id w u = elim (Option-cases (at_key id w.forward_alive_timers)) [
  | inl free ↦ rw (free, clear_forward_alive_timer) (has-add_self id w.pending_stops, free, u)
  | inr (t, e) ↦
      rw (e, clear_forward_alive_timer)
        (
          has-add_self id w.pending_stops,
          at_key-delete_key_self id w.forward_alive_timers,
          clear_interval-unpolled id t w.intervals u,
        )
]

answer_stopped :
    (id : String) (w : Tunnels)
    → has id w.pending_stops ≡ true
    → on_answer id ok w
      ≡ record w { next_timer = suc w.next_timer; pending_stops = delete id w.pending_stops }
unfolding on_answer
answer_stopped id w h = ground arith

-- A forward that no timer polls yet is stopped before the sidecar answers its start. Whatever comes
-- between, except the answer itself or the timeout that forgets the stop after a minute: the answer
-- then sends nothing and starts no timer, none polls the forward, and the stop is forgotten.
pub stopped_before_answer :
    (id : String) (es : List Event) (w : Tunnels)
    → is_polled id w.intervals ≡ false
    → all (is_spared id) es ≡ true
    → let v = run es (step (stops id) w) in
      let u = step (answers id ok) v in
      (u.sent ≡ v.sent)
      × (u.intervals ≡ v.intervals)
      × (is_polled id u.intervals ≡ false)
      × (at_key id u.forward_alive_timers ≡ none)
      × (u.pending_stops ≡ delete id v.pending_stops)
unfolding step IsStopped
stopped_before_answer id es w free h =
    let s = run-IsStopped id es (stop_port_forward id w) h (stop-IsStopped id w free) in
    rw (answer_stopped id (run es (stop_port_forward id w)) s.0) (refl, refl, s.2, s.1, refl)
