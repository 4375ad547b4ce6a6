-- ===== src/Timeline/Build.antt =====
-- The events of a pod and the assembly of its timeline, the rest of
-- renderer/utils/buildTimelineItems.ts.
pub mod Events
pub mod Order
mod Tests
use podscape.Common.{
  ℕ, String, Bool, true, false, not, ◌&&◌, Option, none, some, List, [], ◌∷◌, ◌++◌, ◌==◌, or_else,
  or_option, truthy, ltb, leb, eqb, if◌then◌else◌, any, join_text, ◌+◌,
}
use podscape.Common.Sorting.{sort_by}
use podscape.Timeline.{
  TimelineItem, warning, info, KubeEvent, Pod, or_text, created, condition_items, scheduled,
}
use podscape.Timeline.Containers.{init_items, container_items}

pub key_of : KubeEvent → String
key_of e = join_text (or_else e.reason "" ∷ "::" ∷ or_else e.message "" ∷ [])

-- A group is never empty: its first event stands apart.
pub record Group : Type 0 where
  pub key : String
  pub first : KubeEvent
  pub others : List KubeEvent

-- `grouped.get(key)`, and `push` or `set`; the map keeps its keys in the order of insertion.
pub add_event : KubeEvent → List Group → List Group
add_event e [] = record { key = key_of e; first = e; others = [] } ∷ []
add_event e (g ∷ gs) =
    let rest = add_event e gs in
    if g.key == key_of e then record g { others = g.others ++ e ∷ [] } ∷ gs else g ∷ rest

pub group_events : List KubeEvent → List Group → List Group
group_events [] gs = gs
group_events (e ∷ es) gs = group_events es (add_event e gs)

pub time_of : KubeEvent → String
time_of e = or_text e.last_timestamp (or_text e.event_time e.creation_timestamp)

pub count_of : KubeEvent → ℕ
count_of e = or_else e.count 1

pub sum_counts : List KubeEvent → ℕ
sum_counts [] = 0
sum_counts (e ∷ es) = count_of e + sum_counts es

abbrev pub events_of : Group → List KubeEvent
events_of g = g.first ∷ g.others

pub total_count : Group → ℕ
total_count g = sum_counts (events_of g)

module _ (millis : String → ℕ) where
  pub latest : KubeEvent → List KubeEvent → KubeEvent
  latest best [] = best
  latest best (e ∷ es) =
      latest (if ltb (millis (time_of best)) (millis (time_of e)) then e else best) es

  pub representative : Group → KubeEvent
  representative g = latest g.first g.others

  pub event_item : Pod → Group → TimelineItem
  event_item pod g =
      let r = representative g in
      record {
        time = or_text r.last_timestamp (or_text r.event_time pod.creation_timestamp);
        title = or_text r.reason "Event";
        message = or_else r.message "";
        type = if or_else r.type "" == "Warning" then warning else info;
        count = if ltb 1 (total_count g) then some (total_count g) else none;
        is_live = false;
      }

  pub event_items : Pod → List Group → List TimelineItem
  event_items pod [] = []
  event_items pod (g ∷ gs) = event_item pod g ∷ event_items pod gs

  -- The comparison of the final sort is negative.
  pub before : TimelineItem → TimelineItem → Bool
  before a b = elim a.is_live [
    | true ↦ elim b.is_live [ true ↦ ltb (millis a.time) (millis b.time) | false ↦ false ]
    | false ↦ elim b.is_live [ true ↦ true | false ↦ ltb (millis a.time) (millis b.time) ]
  ]

  module _ (digits : ℕ → String) (now : String) where
    pub unsorted_items : Pod → List KubeEvent → List TimelineItem
    unsorted_items pod events =
        created pod
        ∷ (condition_items pod (or_else pod.conditions [])
            ++ (scheduled pod
                ++ (init_items digits now pod (or_else pod.init_container_statuses [])
                    ++ (container_items digits now pod (or_else pod.container_statuses [])
                        ++ event_items pod (group_events events [])))))

    pub build_timeline_items : Pod → List KubeEvent → List TimelineItem
    build_timeline_items pod events = sort_by before (unsorted_items pod events)
