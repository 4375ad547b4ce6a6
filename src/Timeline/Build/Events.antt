-- ===== src/Timeline/Build/Events.antt =====
-- The grouping of events in renderer/utils/buildTimelineItems.ts.
use mathlib.Core.List.{append_assoc, append-nil}
use podscape.Common.{
  ℕ, String, Bool, false, List, [], ◌∷◌, ◌++◌, ◌==◌, ltb, ◌+◌, ◌≤◌, if◌then◌else◌, filter, any, All,
  ◌≡◌, refl, sym, ◌∙◌, arith, eq_iff, eq_comm, Bool-cases, inl, inr,
}
use podscape.Timeline.{KubeEvent}
use podscape.Timeline.Build.{
  Group, key_of, add_event, group_events, time_of, count_of, sum_counts, events_of, total_count,
  latest, representative,
}

abbrev pub has_key : String → Group → Bool
has_key k g = g.key == k

abbrev pub IsKeyed : List Group → Type 0
IsKeyed [] = Unit
IsKeyed (g ∷ gs) = (any (has_key g.key) gs ≡ false) × IsKeyed gs

-- All events of the groups for a key.
unfoldable pub grouped : String → List Group → List KubeEvent
grouped k [] = []
grouped k (g ∷ gs) = let rest = grouped k gs in if g.key == k then events_of g ++ rest else rest

abbrev pub is_of : String → KubeEvent → Bool
is_of k e = key_of e == k

unfoldable pub total : List Group → ℕ
total [] = 0
total (g ∷ gs) = total_count g + total gs

grouped_missing : (k : String) (gs : List Group) → any (has_key k) gs ≡ false → grouped k gs ≡ []
unfolding grouped
grouped_missing k [] h = refl
grouped_missing k (g ∷ gs) h = ground (arith, grouped_missing k gs)

any-add_event :
    (k : String) (e : KubeEvent) (gs : List Group)
    → any (has_key k) gs ≡ false
    → is_of k e ≡ false
    → any (has_key k) (add_event e gs) ≡ false
unfolding add_event
any-add_event k e [] h n = ground arith
any-add_event k e (g ∷ gs) h n = ground (arith, any-add_event k e gs)

add_event-IsKeyed : (e : KubeEvent) (gs : List Group) → IsKeyed gs → IsKeyed (add_event e gs)
unfolding add_event
add_event-IsKeyed e [] d = (refl, tt)
add_event-IsKeyed e (g ∷ gs) d =
    ground
      (arith, add_event-IsKeyed e gs d.1, any-add_event g.key e gs d.0, eq_comm g.key (key_of e))

grouped-add_event :
    (k : String) (e : KubeEvent) (gs : List Group)
    → IsKeyed gs
    → grouped k (add_event e gs) ≡ (if is_of k e then grouped k gs ++ e ∷ [] else grouped k gs)
unfolding grouped add_event
grouped-add_event k e [] d = ground arith
grouped-add_event k e (g ∷ gs) d = ground (
  arith,
  grouped-add_event k e gs d.1,
  eq_iff g.key (key_of e),
  eq_iff (key_of e) k,
  eq_iff g.key k,
  grouped_missing g.key gs d.0,
  append-nil g.others,
  append-nil (g.others ++ e ∷ []),
  append_assoc g.others (grouped k gs) (e ∷ []),
)

group_events-grouped :
    (k : String) (es : List KubeEvent) (gs : List Group)
    → IsKeyed gs
    → (grouped k (group_events es gs) ≡ grouped k gs ++ filter (is_of k) es)
      × IsKeyed (group_events es gs)
unfolding group_events
group_events-grouped k [] gs d = (sym (append-nil _), d)
group_events-grouped k (e ∷ es) gs d =
    let (eq, keyed) = group_events-grouped k es (add_event e gs) (add_event-IsKeyed e gs d) in
    (
      eq
          ∙ ground (
            arith,
            grouped-add_event k e gs d,
            append_assoc (grouped k gs) (e ∷ []) (filter (is_of k) es),
          ),
      keyed,
    )

sum_counts-append : (xs ys : List KubeEvent) → sum_counts (xs ++ ys) ≡ sum_counts xs + sum_counts ys
unfolding sum_counts
sum_counts-append [] ys = omega arith
sum_counts-append (x ∷ xs) ys = omega (arith, sum_counts-append xs ys)

total-add_event : (e : KubeEvent) (gs : List Group) → total (add_event e gs) ≡ total gs + count_of e
unfolding total add_event total_count sum_counts
total-add_event e [] = omega arith
total-add_event e (g ∷ gs) = elim (Bool-cases (g.key == key_of e)) [
  | inl same ↦ rw same (omega (arith, sum_counts-append g.others (e ∷ [])))
  | inr other ↦ rw other (omega (arith, total-add_event e gs))
]

total-group_events :
    (es : List KubeEvent) (gs : List Group) → total (group_events es gs) ≡ total gs + sum_counts es
unfolding group_events sum_counts
total-group_events [] gs = omega arith
total-group_events (e ∷ es) gs =
    omega (arith, total-group_events es (add_event e gs), total-add_event e gs)

-- No two groups have the same key, the reason and the message joined by two colons; the group of a
-- key holds exactly the events that have it, in order, and the counts of the groups add up to the
-- counts of the events.
grouped-group_events :
    (k : String) (es : List KubeEvent)
    → let gs = group_events es [] in
      IsKeyed gs × (grouped k gs ≡ filter (is_of k) es) × (total gs ≡ sum_counts es)
unfolding grouped total
grouped-group_events k es =
    let (eq, keyed) = group_events-grouped k es [] tt in
    (keyed, eq, omega (arith, total-group_events es []))

module _ (millis : String → ℕ) where
  abbrev pub IsNoLater : KubeEvent → KubeEvent → Type 0
  IsNoLater r e = millis (time_of e) ≤ millis (time_of r)

  abbrev later_one : KubeEvent → KubeEvent → KubeEvent
  later_one best e = if ltb (millis (time_of best)) (millis (time_of e)) then e else best

  later_one-IsNoLater :
      (best e : KubeEvent) → IsNoLater (later_one best e) best × IsNoLater (later_one best e) e
  later_one-IsNoLater best e =
      elim (Bool-cases (ltb (millis (time_of best)) (millis (time_of e)))) [
        | inl later ↦ rw later (ground arith, omega arith)
        | inr sooner ↦ rw sooner (omega arith, ground arith)
      ]

  latest-IsNoLater :
      (best : KubeEvent) (es : List KubeEvent)
      → IsNoLater (latest millis best es) best × All (IsNoLater (latest millis best es)) es
  unfolding latest
  latest-IsNoLater best [] = (omega arith, tt)
  latest-IsNoLater best (e ∷ es) =
      let (above, rest) = latest-IsNoLater (later_one best e) es in
      let (first, second) = later_one-IsNoLater best e in
      (omega (arith, above, first), (omega (arith, above, second), rest))

  -- No event of a group is later than the one that stands for it.
  representative-IsNoLater : (g : Group) → All (IsNoLater (representative millis g)) (events_of g)
  unfolding representative
  representative-IsNoLater g = latest-IsNoLater g.first g.others
