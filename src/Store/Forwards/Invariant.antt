-- ===== src/Store/Forwards/Invariant.antt =====
-- The invariant of the port forwards of renderer/store/slices/operationSlice.ts.
use podscape.Common.{
  String, Bool, ◌&&◌, true, false, none, some, List, [], ◌∷◌, ◌≡◌, refl, ◌∙◌, arith, any, eq_refl,
  if◌then◌else◌, All,
}
use podscape.Store.Forwards.{
  PortForwardEntry, Kind, on_ready, on_error, on_exit, Listener, Unsubs, Forwards, has_id, has_key,
  get, delete, send, start_port_forward, clean_up, handle_ready, handle_error, handle_exit,
  stop_port_forward, stop_each, stop_all_port_forwards, Event, starts, ready, exits, stops, errors,
  rejects, stops_all, hears, step, same_kind,
}
use podscape.Store.Forwards.Tracking.{
  IsTracked, unsubscribe-IsTracked, clean_up-IsTracked, start-IsTracked,
}
use podscape.Store.Forwards.Shown.{
  IsKeyed, IsShown, wire-IsHeld, begin-IsHeld, clean_up-IsPaired, IsShown-without, IsShown-map,
  any-failed, any-activated, without,
}

-- No listener is out of the map's reach, and each map entry belongs to a forward that is shown.
pub record IsValid (s : Forwards) : Type 0 where
  pub tracked : All (IsTracked s.pf_unsubs) s.listeners
  pub shown : IsShown s.port_forwards s.pf_unsubs
  pub keyed : IsKeyed s.pf_unsubs

start-IsValid :
    (context : String) (entry : PortForwardEntry) (s : Forwards)
    → get entry.id s.pf_unsubs ≡ none
    → IsValid s
    → IsValid (start_port_forward context entry s)
unfolding start_port_forward send
start-IsValid context entry s fresh v =
    let held = wire-IsHeld on_exit entry.id _ (
      wire-IsHeld on_error entry.id _
        (wire-IsHeld on_ready entry.id _ (begin-IsHeld entry s v.shown v.keyed))) in
    record {
      tracked = start-IsTracked context entry s fresh v.tracked;
      shown = held.1;
      keyed = held.2;
    }

handle_ready-IsValid : (id : String) (s : Forwards) → IsValid s → IsValid (handle_ready id s)
unfolding handle_ready
handle_ready-IsValid id s v = record {
  tracked = v.tracked;
  shown =
      IsShown-map s.port_forwards _ s.pf_unsubs (λ k e. any-activated k id s.port_forwards ∙ e)
        v.shown;
  keyed = v.keyed;
}

handle_error-IsValid :
    (id msg : String) (s : Forwards) → IsValid s → IsValid (handle_error id msg s)
unfolding handle_error
handle_error-IsValid id msg s v =
    let (shown, keyed, gone) = clean_up-IsPaired id s v.shown v.keyed in
    record {
      tracked = (clean_up-IsTracked id s v.tracked).0;
      shown =
          IsShown-map (clean_up id s).port_forwards _ (clean_up id s).pf_unsubs
            (λ k e. any-failed k id msg (clean_up id s).port_forwards ∙ e) shown;
      keyed = keyed;
    }

handle_exit-IsValid : (id : String) (s : Forwards) → IsValid s → IsValid (handle_exit id s)
unfolding handle_exit
handle_exit-IsValid id s v =
    let (shown, keyed, gone) = clean_up-IsPaired id s v.shown v.keyed in
    record {
      tracked = (clean_up-IsTracked id s v.tracked).0;
      shown = IsShown-without id (clean_up id s).port_forwards (clean_up id s).pf_unsubs gone shown;
      keyed = keyed;
    }

stop_port_forward-IsValid :
    (id : String) (s : Forwards) → IsValid s → IsValid (stop_port_forward id s)
unfolding stop_port_forward send
stop_port_forward-IsValid id s v =
    let (shown, keyed, gone) = clean_up-IsPaired id s v.shown v.keyed in
    record {
      tracked = (clean_up-IsTracked id s v.tracked).0;
      shown = IsShown-without id (clean_up id s).port_forwards (clean_up id s).pf_unsubs gone shown;
      keyed = keyed;
    }

delete-head : (k : String) (u : Unsubs) (m : List (String × Unsubs)) → delete k ((k, u) ∷ m) ≡ m
unfolding delete
delete-head k u m = rw (eq_refl k)

get-head : (k : String) (u : Unsubs) (m : List (String × Unsubs)) → get k ((k, u) ∷ m) ≡ some u
unfolding get
get-head k u m = rw (eq_refl k)

-- The loop leaves no listener that the map tracks.
stop_each-listeners :
    (m : List (String × Unsubs)) (s : Forwards)
    → All (IsTracked m) s.listeners
    → (stop_each m s).listeners ≡ []
unfolding stop_each send get
stop_each-listeners [] s h = untracked_nil s.listeners h
  where
    untracked_nil : (ls : List Listener) → All (IsTracked []) ls → ls ≡ []
    untracked_nil [] h = refl
    untracked_nil (l ∷ ls) ((u, e, own), h) = cc
stop_each-listeners ((k, u) ∷ m) s h = stop_each-listeners m _ (
    rw (delete-head k u m) at
      ((unsubscribe-IsTracked k u ((k, u) ∷ m) s.listeners (get-head k u m) h).0))

stop_all-IsValid : (s : Forwards) → IsValid s → IsValid (stop_all_port_forwards s)
unfolding stop_all_port_forwards
stop_all-IsValid s v = record {
  tracked = rw (stop_each-listeners s.pf_unsubs s v.tracked) tt;
  shown = tt;
  keyed = tt;
}

-- What a caller must see to: a forward is started under an identifier that no running one has.
abbrev pub IsFresh : Event → Forwards → Type 0
IsFresh (starts context entry) s = get entry.id s.pf_unsubs ≡ none
IsFresh _ s = Unit

keep_if : (b : Bool) (s t : Forwards) → IsValid s → IsValid t → IsValid (if b then t else s)
keep_if true s t v w = w
keep_if false s t v w = v

-- Every call and every event keeps each listener removable through the map, the map's keys
-- distinct and each map entry with a forward that is shown, if a forward is started under an
-- identifier that the map does not have.
pub step-IsValid : (e : Event) (s : Forwards) → IsFresh e s → IsValid s → IsValid (step e s)
unfolding step
step-IsValid (starts context entry) s fresh v = start-IsValid context entry s fresh v
step-IsValid (ready id) s _ v =
    keep_if (hears on_ready id s) s (handle_ready id s) v (handle_ready-IsValid id s v)
step-IsValid (errors id msg) s _ v =
    keep_if (hears on_error id s) s (handle_error id msg s) v (handle_error-IsValid id msg s v)
step-IsValid (exits id) s _ v =
    keep_if (hears on_exit id s) s (handle_exit id s) v (handle_exit-IsValid id s v)
step-IsValid (rejects id msg) s _ v = handle_error-IsValid id msg s v
step-IsValid (stops id) s _ v = stop_port_forward-IsValid id s v
step-IsValid stops_all s _ v = stop_all-IsValid s v

hears_of_silent :
    (kind : Kind) (id : String) (ls : List Listener)
    → any (has_key id) ls ≡ false
    → any (λ l. has_key id l && same_kind kind l.kind) ls ≡ false
hears_of_silent kind id [] h = refl
hears_of_silent kind id (l ∷ ls) h = ground (arith, hears_of_silent kind id ls)

any-without_self :
    (id : String) (fs : List PortForwardEntry) → any (has_id id) (without id fs) ≡ false
any-without_self id [] = refl
any-without_self id (f ∷ fs) = ground (arith, any-without_self id fs)

silent_steps :
    (id msg : String) (t : Forwards)
    → any (has_key id) t.listeners ≡ false
    → (step (ready id) t ≡ t) × (step (errors id msg) t ≡ t) × (step (exits id) t ≡ t)
unfolding step
silent_steps id msg t h = (
  rw (hears_of_silent on_ready id t.listeners h),
  rw (hears_of_silent on_error id t.listeners h),
  rw (hears_of_silent on_exit id t.listeners h),
)

-- Once a forward is stopped it is no longer shown, and no event that is still under way for it
-- changes the state; once all are stopped, no listener is left at all. The state before has to be
-- valid.
pub stopped_is_silent :
    (id msg : String) (s : Forwards)
    → IsValid s
    → let t = stop_port_forward id s in
      (any (has_id id) t.port_forwards ≡ false)
      × (step (ready id) t ≡ t)
      × (step (errors id msg) t ≡ t)
      × (step (exits id) t ≡ t)
      × ((stop_all_port_forwards s).listeners ≡ [])
unfolding stop_port_forward send
stopped_is_silent id msg s v =
    let quiet =
      silent_steps id msg (stop_port_forward id s) (clean_up-IsTracked id s v.tracked).1 in
    (
      any-without_self id (clean_up id s).port_forwards,
      quiet.0,
      quiet.1,
      quiet.2,
      unfold stop_all_port_forwards in stop_each-listeners s.pf_unsubs s v.tracked,
    )
