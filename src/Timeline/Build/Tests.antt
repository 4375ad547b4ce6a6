-- ===== src/Timeline/Build/Tests.antt =====
-- A timeline at concrete inputs.
use podscape.Common.{
  ℕ, String, Bool, Option, none, some, List, [], ◌∷◌, ◌++◌, length, filter, ◌≡◌, refl, ◌==◌,
  if◌then◌else◌,
}
use podscape.Common.Sorting.{IsSorted}
use podscape.Timeline.{TimelineItem, KubeEvent, Pod, ContainerStatus}
use podscape.Timeline.Build.{
  add_event, key_of, group_events, unsorted_items, build_timeline_items, Group,
}
use podscape.Timeline.Build.Order.{is_past, earlier, timeline_order}

abbrev event : String → String → Option ℕ → KubeEvent
event reason at count = record {
  creation_timestamp = "08:00";
  reason = some reason;
  message = some "m";
  type = some "Warning";
  last_timestamp = some at;
  event_time = none;
  count = count;
}

abbrev backoffs : List KubeEvent
backoffs =
    event "BackOff" "10:00" (some 3)
    ∷ event "Pulled" "09:00" none
    ∷ event "BackOff" "11:00" none
    ∷ []

-- The clock of these tests.
millis : String → ℕ
millis t =
    if t == "08:00"
    then 8
    else if t == "09:00"
    then 9
    else if t == "10:00"
    then 10
    else if t == "11:00"
    then 11
    else 12

abbrev digits : ℕ → String
digits n = "n"

abbrev crashing : ContainerStatus
crashing = record {
  name = "app";
  restart_count = 4;
  state = record {
    running_since = none;
    waiting = some (record { reason = some "CrashLoopBackOff"; message = none });
    terminated = none;
  };
  last_terminated =
      some
        (record { exit_code = some 1; reason = none; message = none; finished_at = some "10:00" });
}

abbrev web : Pod
web = record {
  creation_timestamp = "08:00";
  node_name = some "node-1";
  start_time = some "09:00";
  conditions = none;
  init_container_statuses = none;
  container_statuses = some (crashing ∷ []);
}

two_groups : length (group_events backoffs []) ≡ 2
unfolding group_events add_event key_of
two_groups = refl

abbrev backoff_group : Group
backoff_group = record {
  key = "BackOff::m";
  first = event "BackOff" "10:00" (some 3);
  others = event "BackOff" "11:00" none ∷ [];
}

timeline_order_example :
    let made = unsorted_items millis digits "12:00" web backoffs in
    let items = build_timeline_items millis digits "12:00" web backoffs in
    (items ≡ filter is_past items ++ filter (λ i. i.is_live) made)
    × IsSorted (earlier millis) (filter is_past items)
    × ((p : TimelineItem → Bool) → length (filter p items) ≡ length (filter p made))
timeline_order_example = timeline_order millis digits "12:00" web backoffs
