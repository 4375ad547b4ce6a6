-- ===== src/Timeline.antt =====
-- The timeline of a pod: renderer/utils/buildTimelineItems.ts, with the parts of renderer/types/k8s.ts
-- that it reads. The present moment, the milliseconds that `Date` gives for a timestamp and the
-- digits of a number in a template literal are parameters. Timestamps that `Date` cannot read, and
-- exit codes below 0, are not modelled. Of a container that runs only the start is kept.
pub mod Containers
pub mod Build
use podscape.Common.{
  ℕ, String, Bool, true, false, not, ◌&&◌, Option, none, some, List, [], ◌∷◌, ◌++◌, ◌==◌, or_else,
  or_option, truthy, ltb, leb, eqb, if◌then◌else◌, any, join_text, ◌+◌,
}
use podscape.Common.Sorting.{sort_by}

pub data TimelineItemType : Type 0 where
  success warning error info : TimelineItemType

pub record TimelineItem : Type 0 where
  pub time : String
  pub title : String
  pub message : String
  pub type : TimelineItemType
  pub count : Option ℕ
  pub is_live : Bool

pub record PodCondition : Type 0 where
  pub type : String
  pub status : String
  pub message : Option String
  pub last_transition_time : Option String

pub record Terminated : Type 0 where
  pub exit_code : Option ℕ
  pub reason : Option String
  pub message : Option String
  pub finished_at : Option String

pub record Waiting : Type 0 where
  pub reason : Option String
  pub message : Option String

pub record ContainerState : Type 0 where
  pub running_since : Option String
  pub waiting : Option Waiting
  pub terminated : Option Terminated

pub record ContainerStatus : Type 0 where
  pub name : String
  pub restart_count : ℕ
  pub state : ContainerState
  pub last_terminated : Option Terminated

pub record Pod : Type 0 where
  pub creation_timestamp : String
  pub node_name : Option String
  pub start_time : Option String
  pub conditions : Option (List PodCondition)
  pub init_container_statuses : Option (List ContainerStatus)
  pub container_statuses : Option (List ContainerStatus)

pub record KubeEvent : Type 0 where
  pub creation_timestamp : String
  pub reason : Option String
  pub message : Option String
  pub type : Option String
  pub last_timestamp : Option String
  pub event_time : Option String
  pub count : Option ℕ

-- An entry of the past.
abbrev pub past : String → String → String → TimelineItemType → TimelineItem
past time title message type = record {
  time = time;
  title = title;
  message = message;
  type = type;
  count = none;
  is_live = false;
}

abbrev pub live : String → String → String → TimelineItemType → TimelineItem
live time title message type = record (past time title message type) { is_live = true }

-- `a || b`.
abbrev pub or_text : Option String → String → String
or_text a b = or_else (truthy a) b

pub created : Pod → TimelineItem
created pod =
    past pod.creation_timestamp "Pod Created" "Resource manifest accepted by API server." info

pub tracked_conditions : List String
tracked_conditions = "PodScheduled" ∷ "Initialized" ∷ "ContainersReady" ∷ "Ready" ∷ []

-- Entries of the two tables for the conditions that are not skipped.
pub condition_label : String → String
condition_label t =
    if t == "Initialized"
    then "Initialized"
    else if t == "ContainersReady"
    then "Containers Ready"
    else if t == "Ready"
    then "Pod Ready"
    else "Pod Scheduled"

pub condition_message : String → String
condition_message t =
    if t == "Initialized"
    then "All init containers completed successfully."
    else if t == "ContainersReady"
    then "All containers passed their readiness checks."
    else if t == "Ready"
    then "Pod is ready to serve traffic."
    else "Kubernetes scheduler placed the pod on a node."

pub shows_condition : PodCondition → Bool
shows_condition c =
    c.status == "True"
    && any (λ t. t == c.type) tracked_conditions
    && not (c.type == "PodScheduled")

pub condition_items : Pod → List PodCondition → List TimelineItem
condition_items pod [] = []
condition_items pod (c ∷ cs) =
    let rest = condition_items pod cs in
    if shows_condition c
    then past (or_else c.last_transition_time pod.creation_timestamp) (condition_label c.type)
        (or_text c.message (condition_message c.type)) (if c.type == "Ready" then success else info)
      ∷ rest
    else rest

pub scheduled : Pod → List TimelineItem
scheduled pod = elim (truthy pod.node_name) [
  | none ↦ []
  | some node ↦
      past (or_text pod.start_time pod.creation_timestamp) "Scheduled"
        (join_text ("Placed on node " ∷ node ∷ "." ∷ [])) success
      ∷ []
]
