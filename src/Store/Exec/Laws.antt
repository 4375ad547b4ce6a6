-- ===== src/Store/Exec/Laws.antt =====
-- The tabs' invariant.
use podscape.Common.{
  ℕ, zero, suc, String, true, false, Option, Option-cases, none, some, inl, inr, Bool-cases, List,
  [], ◌∷◌, ◌++◌, map, ◌==◌, ◌≡◌, ◌≢◌, ◌∙◌, refl, arith, any, any-append, get_elem?, eq_iff, eq_refl,
  eq_comm,
}
use podscape.Store.Exec.{
  ExecSession, ExecState, has_id, open_exec, with_pty, id_of, set_pty_id, find_index, neighbour,
  remaining, next_active, close_exec_tab, set_active_exec_id, close_exec, Request, opens, attaches,
  activates, closes, closes_all, step,
}

-- No two tabs have one identifier.
abbrev pub Distinct : List ExecSession → Type 0
Distinct [] = Unit
Distinct (x ∷ xs) = (any (has_id x.id) xs ≡ false) × Distinct xs

-- The active tab is one of the tabs, and there is none exactly if there are no tabs.
abbrev pub IsActive : Option String → List ExecSession → Type 0
IsActive none xs = xs ≡ []
IsActive (some a) xs = any (has_id a) xs ≡ true

pub record IsConsistent (s : ExecState) : Type 0 where
  pub distinct : Distinct s.exec_sessions
  pub active : IsActive s.active_exec_id s.exec_sessions

Distinct-concat :
    (xs : List ExecSession) (x : ExecSession)
    → Distinct xs
    → any (has_id x.id) xs ≡ false
    → Distinct (xs ++ x ∷ [])
Distinct-concat [] x d h = (refl, tt)
Distinct-concat (y ∷ ys) x d h = (
  ground (arith, any-append (has_id y.id) ys (x ∷ []), eq_comm x.id y.id),
  Distinct-concat ys x d.1 (ground arith),
)

any-with_pty :
    (a id pty : String) (xs : List ExecSession)
    → any (has_id a) (map (with_pty id pty) xs) ≡ any (has_id a) xs
any-with_pty a id pty [] = refl
any-with_pty a id pty (x ∷ xs) = ground (arith, any-with_pty a id pty xs)

Distinct-with_pty :
    (id pty : String) (xs : List ExecSession) → Distinct xs → Distinct (map (with_pty id pty) xs)
Distinct-with_pty id pty [] d = tt
Distinct-with_pty id pty (x ∷ xs) d =
    ground (arith, any-with_pty x.id id pty xs, Distinct-with_pty id pty xs d.1)

-- Closing a tab keeps the others.
any-remaining :
    (a id : String) (xs : List ExecSession)
    → (a == id) ≡ false
    → any (has_id a) (remaining id xs) ≡ any (has_id a) xs
unfolding remaining
any-remaining a id [] h = refl
any-remaining a id (x ∷ xs) h =
    ground (arith, any-remaining a id xs h, eq_iff x.id a, eq_iff x.id id)

any-remaining_self :
    (id : String) (xs : List ExecSession) → any (has_id id) (remaining id xs) ≡ false
unfolding remaining
any-remaining_self id [] = refl
any-remaining_self id (x ∷ xs) = ground (arith, any-remaining_self id xs)

any-remaining-false :
    (a id : String) (xs : List ExecSession)
    → any (has_id a) xs ≡ false
    → any (has_id a) (remaining id xs) ≡ false
unfolding remaining
any-remaining-false a id [] h = refl
any-remaining-false a id (x ∷ xs) h = ground (arith, any-remaining-false a id xs)

Distinct-remaining :
    (id : String) (xs : List ExecSession) → Distinct xs → Distinct (remaining id xs)
unfolding remaining
Distinct-remaining id [] d = tt
Distinct-remaining id (x ∷ xs) d =
    ground (arith, any-remaining-false x.id id xs d.0, Distinct-remaining id xs d.1)

pub remaining_of_missing :
    (id : String) (xs : List ExecSession) → any (has_id id) xs ≡ false → remaining id xs ≡ xs
unfolding remaining
remaining_of_missing id [] h = refl
remaining_of_missing id (x ∷ xs) h = ground (arith, remaining_of_missing id xs)

any_of_get_elem? :
    (xs : List ExecSession) (j : ℕ) {t : ExecSession}
    → get_elem? xs j ≡ some t
    → any (has_id t.id) xs ≡ true
any_of_get_elem? [] j e = cc
any_of_get_elem? (x ∷ xs) zero {t} e = ground (arith, eq_refl x.id, eq_iff x.id t.id)
any_of_get_elem? (x ∷ xs) (suc j) e = ground (arith, any_of_get_elem? xs j e)

ne_of_missing :
    (id : String) (xs : List ExecSession) (j : ℕ) {t : ExecSession}
    → any (has_id id) xs ≡ false
    → get_elem? xs j ≡ some t
    → has_id id t ≡ false
ne_of_missing id [] j h e = cc
ne_of_missing id (x ∷ xs) zero h e = ground arith
ne_of_missing id (x ∷ xs) (suc j) h e = ne_of_missing id xs j (ground arith) e

-- With distinct identifiers, a tab at another place than the found one is another tab.
ne_of_index :
    (id : String) (xs : List ExecSession) (i j : ℕ) {t : ExecSession}
    → Distinct xs
    → find_index id xs ≡ some i
    → get_elem? xs j ≡ some t
    → j ≢ i
    → has_id id t ≡ false
unfolding find_index
ne_of_index id [] i j d f e n = cc
ne_of_index id (x ∷ xs) zero zero d f e n = absurd (n refl)
ne_of_index id (x ∷ xs) zero (suc j) {t} d f e n =
    ground (arith, ne_of_missing x.id xs j {t = t} d.0 e, eq_iff x.id id)
ne_of_index id (x ∷ xs) (suc i) zero d f e n = ground arith
ne_of_index id (x ∷ xs) (suc i) (suc j) {t} d f e n =
    ground (arith, ne_of_index id xs i j {t = t} d.1)

any-remaining_of_index :
    (id : String) (xs : List ExecSession) (i j : ℕ) {t : ExecSession}
    → Distinct xs
    → find_index id xs ≡ some i
    → get_elem? xs j ≡ some t
    → j ≢ i
    → any (has_id t.id) (remaining id xs) ≡ true
any-remaining_of_index id xs i j {t} d f e n =
    any-remaining t.id id xs (ne_of_index id xs i j d f e n) ∙ any_of_get_elem? xs j e

missing_of_index :
    (id : String) (xs : List ExecSession) → find_index id xs ≡ none → any (has_id id) xs ≡ false
unfolding find_index
missing_of_index id [] f = refl
missing_of_index id (x ∷ xs) f = ground (arith, missing_of_index id xs)

get_elem?_before :
    (id : String) (xs : List ExecSession) (i : ℕ)
    → find_index id xs ≡ some (suc i)
    → get_elem? xs i ≢ none
unfolding find_index
get_elem?_before id [] i f = cc
get_elem?_before id (x ∷ xs) zero f = cc
get_elem?_before id (x ∷ xs) (suc i) f = ground (arith, get_elem?_before id xs i)

-- The found session is the only one if nothing stands beside it.
remaining_of_alone :
    (id : String) (xs : List ExecSession) (i : ℕ)
    → find_index id xs ≡ some i
    → neighbour (some i) xs ≡ none
    → remaining id xs ≡ []
unfolding find_index neighbour remaining
remaining_of_alone id [] i f e = cc
remaining_of_alone id (x ∷ []) zero f e = ground arith
remaining_of_alone id (x ∷ y ∷ xs) zero f e = cc
remaining_of_alone id (x ∷ xs) (suc i) f e = ground (arith, get_elem?_before id (x ∷ xs) i)

-- The neighbour stands at another place than the found session.
neighbour_place :
    (xs : List ExecSession) (i : ℕ) (t : ExecSession)
    → neighbour (some i) xs ≡ some t
    → (j : ℕ) × (get_elem? xs j ≡ some t) × (j ≢ i)
unfolding neighbour
neighbour_place xs zero t e = (1, e, omega arith)
neighbour_place xs (suc i) t e = elim (Option-cases (get_elem? xs (suc (suc i)))) [
  | inl missing ↦ (i, ground arith, omega arith)
  | inr (u, found) ↦ (suc (suc i), ground arith, omega arith)
]

neighbour-IsActive :
    (id : String) (xs : List ExecSession) (i : ℕ)
    → Distinct xs
    → find_index id xs ≡ some i
    → IsActive (id_of (neighbour (some i) xs)) (remaining id xs)
neighbour-IsActive id xs i d f = elim (Option-cases (neighbour (some i) xs)) [
  | inl e ↦ rw e (remaining_of_alone id xs i f e)
  | inr (t, e) ↦
      let (j, here, other) = neighbour_place xs i t e in
      rw e (any-remaining_of_index id xs i j d f here other)
]

next_active-IsActive :
    (id : String) (active : Option String) (xs : List ExecSession)
    → Distinct xs
    → IsActive active xs
    → IsActive (next_active id active xs) (remaining id xs)
unfolding next_active
next_active-IsActive id none xs d e = rw e (unfold remaining in refl)
next_active-IsActive id (some a) xs d here = elim (Bool-cases (a == id)) [
  | inr other ↦ rw (other, next_active) (any-remaining a id xs other ∙ here)
  | inl same ↦ elim (Option-cases (find_index id xs)) [
    | inl missing ↦ absurd (ground (arith, missing_of_index id xs missing, eq_iff a id))
    | inr (i, found) ↦ rw (same, found, next_active) (neighbour-IsActive id xs i d found)
  ]
]

-- What the client must see to: a fresh identifier, and a tab that is there.
abbrev pub IsAllowed : Request → ExecState → Type 0
IsAllowed (opens id target) s = any (has_id id) s.exec_sessions ≡ false
IsAllowed (activates id) s = any (has_id id) s.exec_sessions ≡ true
IsAllowed _ s = Unit

IsActive-with_pty :
    (id pty : String) (active : Option String) (xs : List ExecSession)
    → IsActive active xs
    → IsActive active (map (with_pty id pty) xs)
IsActive-with_pty id pty none xs e = rw e refl
IsActive-with_pty id pty (some a) xs h = any-with_pty a id pty xs ∙ h

-- Every request keeps the tabs' identifiers distinct and the active tab among the tabs, with no
-- active tab exactly if no tab is open; a new tab needs a fresh identifier, and a tab that is
-- activated has to be open.
pub step-IsConsistent :
    (r : Request) (s : ExecState) → IsAllowed r s → IsConsistent s → IsConsistent (step r s)
unfolding step open_exec set_pty_id set_active_exec_id close_exec_tab close_exec
step-IsConsistent (opens id target) s h v = record {
  distinct = Distinct-concat s.exec_sessions _ v.distinct h;
  active = ground (
    arith,
    any-append (has_id id) s.exec_sessions
        (record { id = id; target = target; pty_id = none } ∷ []),
    eq_refl id,
  );
}
step-IsConsistent (attaches id pty) s h v = record {
  distinct = Distinct-with_pty id pty s.exec_sessions v.distinct;
  active = IsActive-with_pty id pty s.active_exec_id s.exec_sessions v.active;
}
step-IsConsistent (activates id) s h v = record { distinct = v.distinct; active = h }
step-IsConsistent (closes id) s h v = record {
  distinct = Distinct-remaining id s.exec_sessions v.distinct;
  active = next_active-IsActive id s.active_exec_id s.exec_sessions v.distinct v.active;
}
step-IsConsistent closes_all s h v = record { distinct = tt; active = refl }
