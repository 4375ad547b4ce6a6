-- ===== src/Timeline/Build/Order.antt =====
-- The order of the entries that renderer/utils/buildTimelineItems.ts returns.
use podscape.Common.{
  ℕ, String, Bool, true, false, not, ◌&&◌, Option, none, some, List, [], ◌∷◌, ◌++◌, ◌==◌, or_else,
  truthy, ltb, leb, length, filter, filter-keep, filter-skip, All, All-append, All-optional, ◌≡◌,
  refl, sym, ap, ◌∙◌, arith, eq_iff, Bool-cases, inl, inr,
}
use podscape.Common.Sorting.{
  sort_by, IsSorted, sort_by-IsSorted, All-sort_by, length-filter-sort_by, filter-sort_by,
}
use podscape.Timeline.{
  TimelineItem, KubeEvent, Pod, PodCondition, ContainerStatus, Waiting, Terminated, created,
  condition_items, scheduled, shows_condition,
}
use podscape.Timeline.Containers.{
  init_items, container_items, init_state, init_crash, init_current, init_waiting, init_running,
  init_terminated, crash, running_item, terminated_item, waiting_item, unstable,
}
use podscape.Timeline.Build.{
  Group, group_events, event_item, event_items, before, unsorted_items, build_timeline_items,
}

abbrev pub is_past : TimelineItem → Bool
is_past i = not i.is_live

module _ (millis : String → ℕ) where
  abbrev pub earlier : TimelineItem → TimelineItem → Bool
  earlier a b = ltb (millis a.time) (millis b.time)

  before_asym : (a b : TimelineItem) → before millis a b ≡ true → before millis b a ≡ false
  unfolding before
  before_asym a b h = ground arith

  before_trans :
      (a b c : TimelineItem)
      → before millis b a ≡ false
      → before millis c b ≡ false
      → before millis c a ≡ false
  unfolding before
  before_trans a b c h k = ground arith

  live_stay :
      (x : TimelineItem) (ys : List TimelineItem)
      → x.is_live ≡ true
      → All (λ y. before millis y x ≡ false) ys
      → All (λ y. y.is_live ≡ true) ys
  unfolding before
  live_stay x [] lx h = tt
  live_stay x (y ∷ ys) lx h = (ground (arith, h.0), live_stay x ys lx h.1)

  past_of_live :
      (xs : List TimelineItem)
      → All (λ y. y.is_live ≡ true) xs
      → (filter is_past xs ≡ []) × (filter (λ i. i.is_live) xs ≡ xs)
  past_of_live [] h = (refl, refl)
  past_of_live (x ∷ xs) h =
      let (none_past, all_live) = past_of_live xs h.1 in
      (
        filter-skip is_past x xs (ap not h.0) ∙ none_past,
        filter-keep (λ i. i.is_live) x xs h.0 ∙ ap (λ ys. x ∷ ys) all_live,
      )

  -- In a sorted list what lives stands at the end.
  live_last :
      (xs : List TimelineItem)
      → IsSorted (before millis) xs
      → xs ≡ filter is_past xs ++ filter (λ i. i.is_live) xs
  live_last [] h = refl
  live_last (x ∷ xs) h = elim (Bool-cases x.is_live) [
    | inl lx ↦
        let (none_past, all_live) = past_of_live (x ∷ xs) (lx, live_stay x xs lx h.0) in
        rw (none_past, all_live) refl
    | inr px ↦
        ap (λ ys. x ∷ ys) (live_last xs h.1)
        ∙ ap (λ ys. ys ++ filter (λ i. i.is_live) xs) (sym (filter-keep is_past x xs (ap not px)))
        ∙ ap (λ ys. filter is_past (x ∷ xs) ++ ys) (sym (filter-skip (λ i. i.is_live) x xs px))
  ]

  All-filter-earlier :
      (x : TimelineItem) (ys : List TimelineItem)
      → x.is_live ≡ false
      → All (λ y. before millis y x ≡ false) ys
      → All (λ y. earlier y x ≡ false) (filter is_past ys)
  unfolding before
  All-filter-earlier x [] px h = tt
  All-filter-earlier x (y ∷ ys) px h = elim (Bool-cases y.is_live) [
    | inl ly ↦ rw ly (All-filter-earlier x ys px h.1)
    | inr py ↦ rw py (ground (arith, h.0), All-filter-earlier x ys px h.1)
  ]

  past-IsSorted :
      (xs : List TimelineItem) → IsSorted (before millis) xs → IsSorted earlier (filter is_past xs)
  past-IsSorted [] h = tt
  past-IsSorted (x ∷ xs) h = elim (Bool-cases x.is_live) [
    | inl lx ↦ rw lx (past-IsSorted xs h.1)
    | inr px ↦ rw px (All-filter-earlier x xs px h.0, past-IsSorted xs h.1)
  ]

-- An entry that lives has the time of the present.
module _ (millis : String → ℕ) (digits : ℕ → String) (now : String) where
  abbrev IsNow : TimelineItem → Type 0
  IsNow i = i.is_live ≡ true → i.time ≡ now

  condition_items-IsNow : (pod : Pod) (cs : List PodCondition) → All IsNow (condition_items pod cs)
  unfolding condition_items
  condition_items-IsNow pod [] = tt
  condition_items-IsNow pod (c ∷ cs) = elim (Bool-cases (shows_condition c)) [
    | inl e ↦ rw e (λ h. absurd (ground arith), condition_items-IsNow pod cs)
    | inr e ↦ rw e (condition_items-IsNow pod cs)
  ]

  init_waiting-IsNow :
      (name : String) (w : Option Waiting) → All IsNow (init_waiting digits now name w)
  unfolding init_waiting
  init_waiting-IsNow name none = tt
  init_waiting-IsNow name (some w) = All-optional IsNow (truthy w.reason) _ (λ r h. refl)

  waiting_item-IsNow :
      (name : String) (w : Option Waiting) → All IsNow (waiting_item digits now name w)
  unfolding waiting_item
  waiting_item-IsNow name none = tt
  waiting_item-IsNow name (some w) = All-optional IsNow (truthy w.reason) _ (λ r h. refl)

  init_state-IsNow :
      (pod : Pod) (name : String) (since : Option String) (t : Option Terminated)
      (w : Option Waiting)
      → All IsNow (init_state digits now pod name since t w)
  unfolding init_state init_running init_terminated
  init_state-IsNow pod name (some since) t w = (λ h. absurd (ground arith), tt)
  init_state-IsNow pod name none (some t) w = (λ h. absurd (ground arith), tt)
  init_state-IsNow pod name none none w = init_waiting-IsNow name w

  init_crash-IsNow :
      (pod : Pod) (name : String) (t : Option Terminated)
      → All IsNow (init_crash digits now pod name t)
  unfolding init_crash
  init_crash-IsNow pod name none = tt
  init_crash-IsNow pod name (some t) = (λ h. absurd (ground arith), tt)

  init_items-IsNow :
      (pod : Pod) (cs : List ContainerStatus) → All IsNow (init_items digits now pod cs)
  unfolding init_items init_current
  init_items-IsNow pod [] = tt
  init_items-IsNow pod (c ∷ cs) =
      All-append IsNow _ _ (init_crash-IsNow pod c.name c.last_terminated) (
        All-append IsNow _ _
          (init_state-IsNow pod c.name (truthy c.state.running_since) c.state.terminated
            c.state.waiting)
          (init_items-IsNow pod cs))

  crash-IsNow :
      (pod : Pod) (name : String) (t : Option Terminated) → All IsNow (crash digits now pod name t)
  unfolding crash
  crash-IsNow pod name none = tt
  crash-IsNow pod name (some t) = (λ h. absurd (ground arith), tt)

  running_item-IsNow :
      (name : String) (since : Option String) → All IsNow (running_item digits now name since)
  unfolding running_item
  running_item-IsNow name since = All-optional IsNow (truthy since) _ (λ t h. absurd (ground arith))

  terminated_item-IsNow :
      (pod : Pod) (name : String) (t : Option Terminated)
      → All IsNow (terminated_item digits now pod name t)
  unfolding terminated_item
  terminated_item-IsNow pod name none = tt
  terminated_item-IsNow pod name (some t) = (λ h. absurd (ground arith), tt)

  unstable-IsNow : (pod : Pod) (c : ContainerStatus) → All IsNow (unstable digits now pod c)
  unfolding unstable
  unstable-IsNow pod c = elim (Bool-cases (leb 3 c.restart_count)) [
    | inl e ↦ rw e (λ h. absurd (ground arith), tt)
    | inr e ↦ rw e tt
  ]

  container_items-IsNow :
      (pod : Pod) (cs : List ContainerStatus) → All IsNow (container_items digits now pod cs)
  unfolding container_items
  container_items-IsNow pod [] = tt
  container_items-IsNow pod (c ∷ cs) =
      All-append IsNow _ _ (crash-IsNow pod c.name c.last_terminated) (
        All-append IsNow _ _ (running_item-IsNow c.name c.state.running_since) (
          All-append IsNow _ _ (terminated_item-IsNow pod c.name c.state.terminated) (
            All-append IsNow _ _ (waiting_item-IsNow c.name c.state.waiting)
              (All-append IsNow _ _ (unstable-IsNow pod c) (container_items-IsNow pod cs)))))

  event_items-IsNow : (pod : Pod) (gs : List Group) → All IsNow (event_items millis pod gs)
  unfolding event_items event_item
  event_items-IsNow pod [] = tt
  event_items-IsNow pod (g ∷ gs) = (λ h. absurd (ground arith), event_items-IsNow pod gs)

  scheduled-IsNow : (pod : Pod) → All IsNow (scheduled pod)
  unfolding scheduled
  scheduled-IsNow pod = All-optional IsNow (truthy pod.node_name) _ (λ n h. absurd (ground arith))

  unsorted_items-IsNow :
      (pod : Pod) (es : List KubeEvent) → All IsNow (unsorted_items millis digits now pod es)
  unfolding unsorted_items created scheduled
  unsorted_items-IsNow pod es = (
    λ h. absurd (ground arith),
    All-append IsNow _ _ (condition_items-IsNow pod (or_else pod.conditions [])) (
        All-append IsNow _ _ (scheduled-IsNow pod) (
          All-append IsNow _ _ (init_items-IsNow pod (or_else pod.init_container_statuses [])) (
            All-append IsNow _ _ (container_items-IsNow pod (or_else pod.container_statuses []))
              (event_items-IsNow pod (group_events es []))))),
  )

  abbrev lives_now : TimelineItem → Bool
  lives_now i = i.is_live && i.time == now

  filter-lives_now :
      (xs : List TimelineItem) → All IsNow xs → filter lives_now xs ≡ filter (λ i. i.is_live) xs
  filter-lives_now [] h = refl
  filter-lives_now (x ∷ xs) h = ground (arith, filter-lives_now xs h.1, eq_iff x.time now, h.0)

  live_kept :
      (xs : List TimelineItem)
      → All IsNow xs
      → filter (λ i. i.is_live) (sort_by (before millis) xs) ≡ filter (λ i. i.is_live) xs
  unfolding before
  live_kept xs h =
      sym (filter-lives_now _ (All-sort_by (before millis) IsNow xs h))
      ∙ filter-sort_by (before millis) lives_now xs
          (λ x y lx ly. ground (arith, eq_iff x.time now, eq_iff y.time now))
      ∙ filter-lives_now xs h

  -- The timeline is a rearrangement of the entries of the pod: those of the past, by time, and then
  -- those that live, in the order in which they were made.
  pub timeline_order :
      (pod : Pod) (events : List KubeEvent)
      → let made = unsorted_items millis digits now pod events in
        let items = build_timeline_items millis digits now pod events in
        (items ≡ filter is_past items ++ filter (λ i. i.is_live) made)
        × IsSorted (earlier millis) (filter is_past items)
        × ((p : TimelineItem → Bool) → length (filter p items) ≡ length (filter p made))
  unfolding build_timeline_items
  timeline_order pod events =
      let made = unsorted_items millis digits now pod events in
      let ordered =
        sort_by-IsSorted (before millis) (before_asym millis) (before_trans millis) made in
      (
        live_last millis _ ordered
            ∙ ap (λ ys. filter is_past (sort_by (before millis) made) ++ ys)
                (live_kept made (unsorted_items-IsNow pod events)),
        past-IsSorted millis _ ordered,
        λ p. length-filter-sort_by (before millis) p made,
      )
