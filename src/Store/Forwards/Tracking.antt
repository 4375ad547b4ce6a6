-- ===== src/Store/Forwards/Tracking.antt =====
-- The listeners of the port forwards of renderer/store/slices/operationSlice.ts: each one can be
-- removed through the map.
use podscape.Common.{
  ℕ, String, true, false, Option, none, some, List, [], ◌∷◌, ◌==◌, ◌≡◌, refl, ◌∙◌, arith, any,
  eq_iff, eq_refl, eq_comm, if◌then◌else◌, All, All-append, Option-cases, Bool-cases, inl, inr,
}
use podscape.Store.Forwards.{
  PortForwardEntry, Kind, on_ready, on_error, on_exit, Listener, Unsubs, Forwards, has_key, get,
  set, delete, removed_by, unsubscribe, no_ops, with_unsub, listen, assign, wire, begin, send,
  start_port_forward, clean_up,
}

abbrev pub unsub_of : Kind → Unsubs → Option ℕ
unsub_of on_ready u = u.ready
unsub_of on_error u = u.error
unsub_of on_exit u = u.exit

-- A listener whose unsubscribe function stands in the map, under its key and at its place.
abbrev pub IsTracked : List (String × Unsubs) → Listener → Type 0
IsTracked m l = (u : Unsubs) × (get l.key m ≡ some u) × (unsub_of l.kind u ≡ some l.serial)

pub get-set :
    (id j : String) (u : Unsubs) (m : List (String × Unsubs))
    → get j (set id u m) ≡ (if id == j then some u else get j m)
unfolding get set
get-set id j u [] = refl
get-set id j u ((k, v) ∷ m) = ground (arith, get-set id j u m, eq_iff id j, eq_iff k id, eq_iff k j)

pub get-delete :
    (id j : String) (m : List (String × Unsubs)) → (id == j) ≡ false → get j (delete id m) ≡ get j m
unfolding get delete
get-delete id j [] h = refl
get-delete id j ((k, v) ∷ m) h =
    ground (arith, get-delete id j m h, eq_iff id j, eq_iff k id, eq_iff k j)

removed_own :
    (k : Kind) (u : Unsubs) (l : Listener) → unsub_of k u ≡ some l.serial → removed_by u l ≡ true
removed_own on_ready u l e = ground arith
removed_own on_error u l e = ground arith
removed_own on_exit u l e = ground arith

-- A listener that an entry's functions leave alone has another key.
ne_of_kept :
    (id : String) (u : Unsubs) (m : List (String × Unsubs)) (l : Listener)
    → get id m ≡ some u
    → IsTracked m l
    → removed_by u l ≡ false
    → (id == l.key) ≡ false
ne_of_kept id u m l e (v, found, own) kept =
    ground (arith, eq_iff id l.key, removed_own l.kind v l own)

-- Once the functions of a map entry are called, the listeners of its key are gone.
pub unsubscribe-IsTracked :
    (id : String) (u : Unsubs) (m : List (String × Unsubs)) (ls : List Listener)
    → get id m ≡ some u
    → All (IsTracked m) ls
    → All (IsTracked (delete id m)) (unsubscribe u ls)
      × (any (has_key id) (unsubscribe u ls) ≡ false)
unfolding unsubscribe
unsubscribe-IsTracked id u m [] e h = (tt, refl)
unsubscribe-IsTracked id u m (l ∷ ls) e ((v, found, own), h) =
    let ih = unsubscribe-IsTracked id u m ls e h in
    elim (Bool-cases (removed_by u l)) [
      | inl gone ↦ rw gone ih
      | inr kept ↦
          let other = ne_of_kept id u m l e (v, found, own) kept in
          rw kept (
            ((v, get-delete id l.key m other ∙ found, own), ih.0),
            ground (arith, ih.1, eq_comm id l.key),
          )
    ]

pub All-IsTracked-map :
    (m m' : List (String × Unsubs)) (ls : List Listener)
    → ((l : Listener) → IsTracked m l → IsTracked m' l)
    → All (IsTracked m) ls
    → All (IsTracked m') ls
All-IsTracked-map m m' [] f h = tt
All-IsTracked-map m m' (l ∷ ls) f h = (f l h.0, All-IsTracked-map m m' ls f h.1)

-- A key that the map lacks has no listeners.
pub untracked_of_missing :
    (id : String) (m : List (String × Unsubs)) (ls : List Listener)
    → get id m ≡ none
    → All (IsTracked m) ls
    → any (has_key id) ls ≡ false
untracked_of_missing id m [] e h = refl
untracked_of_missing id m (l ∷ ls) e ((v, found, own), h) =
    ground (arith, untracked_of_missing id m ls e h, eq_iff l.key id)

All-delete :
    (P : String × Unsubs → Type 0) (id : String) (m : List (String × Unsubs))
    → All P m
    → All P (delete id m)
unfolding delete
All-delete P id [] h = tt
All-delete P id ((k, v) ∷ m) h = ground (arith, All-delete P id m h.1)

-- Cleaning up keeps the rest tracked and leaves no listener of the key.
pub clean_up-IsTracked :
    (id : String) (s : Forwards)
    → All (IsTracked s.pf_unsubs) s.listeners
    → All (IsTracked (clean_up id s).pf_unsubs) (clean_up id s).listeners
      × (any (has_key id) (clean_up id s).listeners ≡ false)
unfolding clean_up
clean_up-IsTracked id s h = elim (Option-cases (get id s.pf_unsubs)) [
  | inl missing ↦
      rw (missing, clean_up) (h, untracked_of_missing id s.pf_unsubs s.listeners missing h)
  | inr (u, found) ↦
      rw (found, clean_up) (unsubscribe-IsTracked id u s.pf_unsubs s.listeners found h)
]

unsub_of-with_unsub : (k : Kind) (n : ℕ) (u : Unsubs) → unsub_of k (with_unsub k n u) ≡ some n
unsub_of-with_unsub on_ready n u = refl
unsub_of-with_unsub on_error n u = refl
unsub_of-with_unsub on_exit n u = refl

-- Filling a free place leaves the other places alone.
unsub_of-with_other :
    (k j : Kind) (n : ℕ) (u : Unsubs) {x : ℕ}
    → unsub_of k u ≡ none
    → unsub_of j u ≡ some x
    → unsub_of j (with_unsub k n u) ≡ some x
unsub_of-with_other on_ready on_ready n u free e = cc
unsub_of-with_other on_error on_error n u free e = cc
unsub_of-with_other on_exit on_exit n u free e = cc
unsub_of-with_other on_ready _ n u free e = e
unsub_of-with_other on_error _ n u free e = e
unsub_of-with_other on_exit _ n u free e = e

-- The map after the write of one place of the array of `id`.
module _ (k : Kind) (id : String) (n : ℕ) (m : List (String × Unsubs)) (u : Unsubs) where
  get-set_self : get id (set id u m) ≡ some u
  get-set_self = ground (arith, get-set id id u m, eq_refl id)

  IsTracked-set :
      (l : Listener)
      → get id m ≡ some u
      → unsub_of k u ≡ none
      → IsTracked m l
      → IsTracked (set id (with_unsub k n u) m) l
  IsTracked-set l found free (v, at, own) = elim (Bool-cases (id == l.key)) [
    | inr other ↦ (v, ground (arith, get-set id l.key (with_unsub k n u) m), own)
    | inl same ↦ (
      with_unsub k n u,
      ground (arith, get-set id l.key (with_unsub k n u) m),
      unsub_of-with_other k l.kind n u free (ground (arith, eq_iff id l.key)),
    )
  ]

-- The array of a new forward takes the serial number of a listener at its free place.
pub wire-IsTracked :
    (k : Kind) (id : String) (s : Forwards) (u : Unsubs)
    → get id s.pf_unsubs ≡ some u
    → unsub_of k u ≡ none
    → All (IsTracked s.pf_unsubs) s.listeners
    → All (IsTracked (wire k id s).pf_unsubs) (wire k id s).listeners
      × (get id (wire k id s).pf_unsubs ≡ some (with_unsub k s.next_serial u))
unfolding wire assign listen
wire-IsTracked k id s u found free h =
    let u' = with_unsub k s.next_serial u in
    let here = get-set_self k id s.next_serial s.pf_unsubs u' in
    rw (found, wire, assign)
      (
        All-append (IsTracked (set id u' s.pf_unsubs)) s.listeners _
            (All-IsTracked-map s.pf_unsubs (set id u' s.pf_unsubs) s.listeners
              (λ l t. IsTracked-set k id s.next_serial s.pf_unsubs u l found free t) h)
            ((u', here, unsub_of-with_unsub k s.next_serial u), tt),
        here,
      )

pub begin-IsTracked :
    (entry : PortForwardEntry) (s : Forwards)
    → get entry.id s.pf_unsubs ≡ none
    → All (IsTracked s.pf_unsubs) s.listeners
    → All (IsTracked (begin entry s).pf_unsubs) (begin entry s).listeners
      × (get entry.id (begin entry s).pf_unsubs ≡ some no_ops)
unfolding begin
begin-IsTracked entry s fresh h = (
  All-IsTracked-map s.pf_unsubs _ s.listeners
      (λ l (v, at, own).
        (v, ground (arith, get-set entry.id l.key no_ops s.pf_unsubs, eq_iff entry.id l.key), own))
      h,
  ground (arith, get-set entry.id entry.id no_ops s.pf_unsubs, eq_refl entry.id),
)

pub start-IsTracked :
    (context : String) (entry : PortForwardEntry) (s : Forwards)
    → get entry.id s.pf_unsubs ≡ none
    → All (IsTracked s.pf_unsubs) s.listeners
    → let t = start_port_forward context entry s in All (IsTracked t.pf_unsubs) t.listeners
unfolding start_port_forward send
start-IsTracked context entry s fresh h =
    let (h0, e0) = begin-IsTracked entry s fresh h in
    let s0 = begin entry s in
    let (h1, e1) = wire-IsTracked on_ready entry.id s0 no_ops e0 refl h0 in
    let s1 = wire on_ready entry.id s0 in
    let (h2, e2) = wire-IsTracked on_error entry.id s1 _ e1 refl h1 in
    let s2 = wire on_error entry.id s1 in (wire-IsTracked on_exit entry.id s2 _ e2 refl h2).0
