-- ===== src/Store/Forwards/Shown.antt =====
-- The map and the shown forwards of renderer/store/slices/operationSlice.ts.
use podscape.Common.{
  String, true, false, not, none, List, [], ◌∷◌, ◌++◌, map, ◌==◌, ◌≡◌, refl, arith, any, filter,
  eq_iff, eq_refl, eq_comm, any-append, Option-cases, inl, inr,
}
use podscape.Store.Forwards.{
  PortForwardEntry, Kind, Unsubs, Forwards, has_id, get, set, delete, no_ops, with_unsub, listen,
  assign, wire, begin, clean_up, activated, failed,
}
use podscape.Store.Forwards.Tracking.{get-set}

-- The keys of a map are distinct.
abbrev pub IsKeyed : List (String × Unsubs) → Type 0
IsKeyed [] = Unit
IsKeyed ((k, u) ∷ m) = (get k m ≡ none) × IsKeyed m

abbrev pub IsShown : List PortForwardEntry → List (String × Unsubs) → Type 0
IsShown fs [] = Unit
IsShown fs ((k, u) ∷ m) = (any (has_id k) fs ≡ true) × IsShown fs m

IsKeyed-set :
    (id : String) (u : Unsubs) (m : List (String × Unsubs)) → IsKeyed m → IsKeyed (set id u m)
unfolding set get
IsKeyed-set id u [] h = (refl, tt)
IsKeyed-set id u ((k, v) ∷ m) h =
    ground (arith, IsKeyed-set id u m h.1, get-set id k u m, eq_comm id k)

get-delete-none :
    (id j : String) (m : List (String × Unsubs)) → get j m ≡ none → get j (delete id m) ≡ none
unfolding get delete
get-delete-none id j [] h = refl
get-delete-none id j ((k, v) ∷ m) h = ground (arith, get-delete-none id j m)

IsKeyed-delete : (id : String) (m : List (String × Unsubs)) → IsKeyed m → IsKeyed (delete id m)
unfolding delete
IsKeyed-delete id [] h = tt
IsKeyed-delete id ((k, v) ∷ m) h =
    ground (arith, IsKeyed-delete id m h.1, get-delete-none id k m h.0)

IsShown-delete :
    (id : String) (fs : List PortForwardEntry) (m : List (String × Unsubs))
    → IsShown fs m
    → IsShown fs (delete id m)
unfolding delete
IsShown-delete id fs [] h = tt
IsShown-delete id fs ((k, v) ∷ m) h = ground (arith, IsShown-delete id fs m h.1)

IsShown-set :
    (id : String) (u : Unsubs) (fs : List PortForwardEntry) (m : List (String × Unsubs))
    → any (has_id id) fs ≡ true
    → IsShown fs m
    → IsShown fs (set id u m)
unfolding set
IsShown-set id u fs [] e h = (e, tt)
IsShown-set id u fs ((k, v) ∷ m) e h = ground (arith, IsShown-set id u fs m e h.1)

-- What keeps the forwards of a list keeps the map's entries shown.
pub IsShown-map :
    (fs gs : List PortForwardEntry) (m : List (String × Unsubs))
    → ((k : String) → any (has_id k) fs ≡ true → any (has_id k) gs ≡ true)
    → IsShown fs m
    → IsShown gs m
IsShown-map fs gs [] f h = tt
IsShown-map fs gs ((k, u) ∷ m) f h = (f k h.0, IsShown-map fs gs m f h.1)

pub any-activated :
    (k id : String) (fs : List PortForwardEntry)
    → any (has_id k) (map (activated id) fs) ≡ any (has_id k) fs
any-activated k id [] = refl
any-activated k id (f ∷ fs) = ground (arith, any-activated k id fs)

pub any-failed :
    (k id msg : String) (fs : List PortForwardEntry)
    → any (has_id k) (map (failed id msg) fs) ≡ any (has_id k) fs
any-failed k id msg [] = refl
any-failed k id msg (f ∷ fs) = ground (arith, any-failed k id msg fs)

abbrev pub without : String → List PortForwardEntry → List PortForwardEntry
without id = filter (λ f. not (has_id id f))

any-without :
    (k id : String) (fs : List PortForwardEntry)
    → (k == id) ≡ false
    → any (has_id k) (without id fs) ≡ any (has_id k) fs
any-without k id [] h = refl
any-without k id (f ∷ fs) h = ground (arith, any-without k id fs h, eq_iff f.id k, eq_iff f.id id)

pub IsShown-without :
    (id : String) (fs : List PortForwardEntry) (m : List (String × Unsubs))
    → get id m ≡ none
    → IsShown fs m
    → IsShown (without id fs) m
unfolding get
IsShown-without id fs [] e h = tt
IsShown-without id fs ((k, u) ∷ m) e h =
    ground (arith, any-without k id fs, IsShown-without id fs m)

-- With distinct keys one deletion is enough.
get-delete_self :
    (id : String) (m : List (String × Unsubs)) → IsKeyed m → get id (delete id m) ≡ none
unfolding get delete
get-delete_self id [] h = refl
get-delete_self id ((k, v) ∷ m) h = ground (arith, get-delete_self id m h.1, eq_iff k id)

pub clean_up-IsPaired :
    (id : String) (s : Forwards)
    → IsShown s.port_forwards s.pf_unsubs
    → IsKeyed s.pf_unsubs
    → IsShown (clean_up id s).port_forwards (clean_up id s).pf_unsubs
      × IsKeyed (clean_up id s).pf_unsubs
      × (get id (clean_up id s).pf_unsubs ≡ none)
unfolding clean_up
clean_up-IsPaired id s h k = elim (Option-cases (get id s.pf_unsubs)) [
  | inl e ↦ rw (e, clean_up) (h, k, e)
  | inr (u, e) ↦
      rw (e, clean_up)
        (
          IsShown-delete id s.port_forwards s.pf_unsubs h,
          IsKeyed-delete id s.pf_unsubs k,
          get-delete_self id s.pf_unsubs k,
        )
]

-- A forward that is shown, with its map entries shown and keyed.
abbrev pub IsHeld : String → Forwards → Type 0
IsHeld id s =
    (any (has_id id) s.port_forwards ≡ true)
    × IsShown s.port_forwards s.pf_unsubs
    × IsKeyed s.pf_unsubs

pub wire-IsHeld : (k : Kind) (id : String) (s : Forwards) → IsHeld id s → IsHeld id (wire k id s)
unfolding wire assign listen
wire-IsHeld k id s (here, h, keys) = elim (Option-cases (get id s.pf_unsubs)) [
  | inl e ↦ rw (e, wire, assign) (here, h, keys)
  | inr (u, e) ↦
      let u' = with_unsub k s.next_serial u in
      rw (e, wire, assign)
        (
          here,
          IsShown-set id u' s.port_forwards s.pf_unsubs here h,
          IsKeyed-set id u' s.pf_unsubs keys,
        )
]

pub begin-IsHeld :
    (entry : PortForwardEntry) (s : Forwards)
    → IsShown s.port_forwards s.pf_unsubs
    → IsKeyed s.pf_unsubs
    → IsHeld entry.id (begin entry s)
unfolding begin
begin-IsHeld entry s h keys =
    let fs = s.port_forwards ++ entry ∷ [] in
    let here : any (has_id entry.id) fs ≡ true =
      ground (arith, any-append (has_id entry.id) s.port_forwards (entry ∷ []), eq_refl entry.id) in
    (
      here,
      IsShown-set entry.id no_ops fs s.pf_unsubs here (
          IsShown-map s.port_forwards fs s.pf_unsubs
            (λ k e. ground (arith, any-append (has_id k) s.port_forwards (entry ∷ []))) h),
      IsKeyed-set entry.id no_ops s.pf_unsubs keys,
    )
