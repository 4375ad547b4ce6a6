-- ===== src/Main/Updater/Order.antt =====
-- The order in which main/system/updater.ts delivers its events.
use mathlib.Core.List.{append_assoc, append-nil}
use podscape.Common.{
  ℕ, zero, suc, Bool, true, false, List, [], ◌∷◌, ◌++◌, length, length-append, take, ltb, ◌≡◌, refl,
  sym, ◌∙◌, ap, ◌≤◌, arith, Bool-cases, inl, inr,
}
use podscape.Main.Updater.{
  UpdateEvent, Updater, max_pending, push_pending, send, on_window_ready, start,
}

-- Events one after the other, each with whether some window stands, such as the splash.
pub send_all : List (UpdateEvent × Bool) → Updater → Updater
send_all [] s = s
send_all ((e, has_window) ∷ es) s = send_all es (send has_window e s)

abbrev pub events : List (UpdateEvent × Bool) → List UpdateEvent
events [] = []
events ((e, has_window) ∷ es) = e ∷ events es

-- The events that find a window, and those that find none.
abbrev pub with_window : List (UpdateEvent × Bool) → List UpdateEvent
with_window [] = []
with_window ((e, true) ∷ es) = e ∷ with_window es
with_window ((e, false) ∷ es) = with_window es

abbrev pub without_window : List (UpdateEvent × Bool) → List UpdateEvent
without_window [] = []
without_window ((e, true) ∷ es) = without_window es
without_window ((e, false) ∷ es) = e ∷ without_window es

take_append_full :
    (m : ℕ) (xs ys : List UpdateEvent) → m ≤ length xs → take m (xs ++ ys) ≡ take m xs
take_append_full zero xs ys h = refl
take_append_full (suc m) [] ys h = absurd (omega arith)
take_append_full (suc m) (x ∷ xs) ys h = rw (take_append_full m xs ys (omega arith))

take_short : (m : ℕ) (xs : List UpdateEvent) → length xs ≤ m → take m xs ≡ xs
take_short zero [] h = refl
take_short zero (x ∷ xs) h = absurd (omega arith)
take_short (suc m) [] h = refl
take_short (suc m) (x ∷ xs) h = rw (take_short m xs (omega arith))

-- One more event, or a full queue.
take-push_pending :
    (m : ℕ) (e : UpdateEvent) (xs ys : List UpdateEvent)
    → length xs ≤ m
    → take m (push_pending m e xs ++ ys) ≡ take m (xs ++ e ∷ ys)
unfolding push_pending
take-push_pending m e xs ys h = elim (Bool-cases (ltb (length xs) m)) [
  | inl room ↦ rw room (ap (take m) (append_assoc xs (e ∷ []) ys))
  | inr full ↦ rw full (
      take_append_full m xs ys (ground arith) ∙ sym (take_append_full m xs (e ∷ ys) (ground arith)))
]

length-push_pending :
    (m : ℕ) (e : UpdateEvent) (xs : List UpdateEvent)
    → length xs ≤ m
    → length (push_pending m e xs) ≤ m
unfolding push_pending
length-push_pending m e xs h = ground (arith, length-append xs (e ∷ []))

send_not_ready :
    (b : Bool) (e : UpdateEvent) (s : Updater)
    → s.window_ready ≡ false
    → send b e s ≡ record s { pending_events = push_pending max_pending e s.pending_events }
unfolding send
send_not_ready b e s h = ground arith

send_all-eq :
    (es : List (UpdateEvent × Bool)) (s : Updater)
    → s.window_ready ≡ false
    → length s.pending_events ≤ max_pending
    → (send_all es s).pending_events ≡ take max_pending (s.pending_events ++ events es)
      × ((send_all es s).delivered ≡ s.delivered)
unfolding send_all
send_all-eq [] s h room = (
  sym (ap (take max_pending) (append-nil s.pending_events) ∙ take_short max_pending _ room),
  refl,
)
send_all-eq ((e, b) ∷ es) s h room =
    let waiting = push_pending max_pending e s.pending_events in
    let ih =
      send_all-eq es (record s { pending_events = waiting }) h
        (length-push_pending max_pending e s.pending_events room) in
    rw (send_not_ready b e s h, send_all)
      (ih.0 ∙ take-push_pending max_pending e s.pending_events (events es) room, ih.1)

send_ready :
    (e : UpdateEvent) (s : Updater)
    → s.window_ready ≡ true
    → send true e s ≡ record s { delivered = s.delivered ++ e ∷ [] }
unfolding send
send_ready e s h = ground arith

send_windowless :
    (e : UpdateEvent) (s : Updater)
    → send false e s ≡ record s { pending_events = push_pending max_pending e s.pending_events }
unfolding send
send_windowless e s = refl

send_all-ready :
    (es : List (UpdateEvent × Bool)) (s : Updater)
    → s.window_ready ≡ true
    → length s.pending_events ≤ max_pending
    → ((send_all es s).delivered ≡ s.delivered ++ with_window es)
      × ((send_all es s).pending_events ≡ take max_pending (s.pending_events ++ without_window es))
unfolding send_all
send_all-ready [] s h room = (
  sym (append-nil s.delivered),
  sym (ap (take max_pending) (append-nil s.pending_events) ∙ take_short max_pending _ room),
)
send_all-ready ((e, true) ∷ es) s h room =
    let ih = send_all-ready es (record s { delivered = s.delivered ++ e ∷ [] }) h room in
    rw (send_ready e s h, send_all)
      (ih.0 ∙ append_assoc s.delivered (e ∷ []) (with_window es), ih.1)
send_all-ready ((e, false) ∷ es) s h room =
    let waiting = push_pending max_pending e s.pending_events in
    let ih =
      send_all-ready es (record s { pending_events = waiting }) h
        (length-push_pending max_pending e s.pending_events room) in
    rw (send_windowless e s, send_all)
      (ih.0, ih.1 ∙ take-push_pending max_pending e s.pending_events (without_window es) room)

-- Whatever windows stand: of the events before the main window is ready the first 20 are delivered
-- once it is, in their order, and the others are dropped. Of the events after that, those that find a
-- window are delivered at once, in their order, and of the others the first 20 wait, in their order,
-- until the next main window is ready, which then delivers them.
pub delivered_in_order :
    (early late : List (UpdateEvent × Bool))
    → let s = send_all late (on_window_ready (send_all early start)) in
      let sent = take 20 (events early) ++ with_window late in
      (s.delivered ≡ sent)
      × (s.pending_events ≡ take 20 (without_window late))
      × ((on_window_ready s).delivered ≡ sent ++ take 20 (without_window late))
      × ((on_window_ready s).pending_events ≡ [])
unfolding on_window_ready start
delivered_in_order early late =
    let s0 = on_window_ready (send_all early start) in
    let (waiting, none_yet) = send_all-eq early start refl (omega arith) in
    let (sent, kept) = send_all-ready late s0 refl (omega arith) in
    let first =
      sent
      ∙ ap (λ ds. ds ++ with_window late)
          (ap (λ ds. ds ++ (send_all early start).pending_events) none_yet ∙ waiting) in
    (
      first,
      kept,
      ap (λ ds. ds ++ (send_all late s0).pending_events) first
          ∙ ap (λ ds. (take 20 (events early) ++ with_window late) ++ ds) kept,
      refl,
    )
