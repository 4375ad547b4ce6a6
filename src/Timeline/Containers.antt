-- ===== src/Timeline/Containers.antt =====
-- The entries of the containers of a pod in renderer/utils/buildTimelineItems.ts.
use podscape.Common.{
  ℕ, String, Bool, not, Option, none, some, List, [], ◌∷◌, ◌++◌, ◌==◌, or_else, or_option, truthy,
  leb, eqb, if◌then◌else◌, join_text,
}
use podscape.Timeline.{
  TimelineItem, success, warning, error, info, past, live, Terminated, Waiting, ContainerState,
  ContainerStatus, Pod,
}

module _ (digits : ℕ → String) (now : String) where
  abbrev code_of : Terminated → ℕ
  code_of t = or_else t.exit_code 0

  abbrev note : Terminated → String
  note t = elim (truthy t.message) [ none ↦ "" | some m ↦ join_text (" — " ∷ m ∷ []) ]

  abbrev is_oom : String → Bool
  is_oom reason = reason == "OOMKilled"

  abbrev ended : Pod → Terminated → String
  ended pod t = or_else t.finished_at pod.creation_timestamp

  unfoldable pub init_crash : Pod → String → Option Terminated → List TimelineItem
  init_crash pod name none = []
  init_crash pod name (some t) =
      let reason = or_else t.reason "Terminated" in
      past (ended pod t) (join_text ("Init: " ∷ name ∷ " crashed" ∷ []))
        (join_text (reason ∷ " — exit code " ∷ digits (code_of t) ∷ note t ∷ "." ∷ []))
        (if is_oom reason then error else warning)
      ∷ []

  unfoldable pub init_running : String → String → TimelineItem
  init_running name since =
      past since (join_text ("Init: " ∷ name ∷ " running" ∷ []))
        "Init container is currently running." info

  unfoldable pub init_terminated : Pod → String → Terminated → TimelineItem
  init_terminated pod name t =
      let fine = eqb (code_of t) 0 in
      past (ended pod t)
        (join_text ("Init: " ∷ name ∷ " " ∷ (if fine then "completed" else "failed") ∷ []))
        (join_text (or_else t.reason "Completed" ∷ " — exit code " ∷ digits (code_of t) ∷ "." ∷ []))
        (if fine then success else error)

  unfoldable pub init_waiting : String → Option Waiting → List TimelineItem
  init_waiting name none = []
  init_waiting name (some w) = elim (truthy w.reason) [
    | none ↦ []
    | some reason ↦
        live now (join_text ("Init: " ∷ name ∷ " — " ∷ reason ∷ []))
          (or_else w.message (join_text ("Init container is waiting: " ∷ reason ∷ "." ∷ [])))
          warning
        ∷ []
  ]

  -- The first that applies: it runs, it has ended, it waits.
  unfoldable pub init_state :
      Pod → String → Option String → Option Terminated → Option Waiting → List TimelineItem
  init_state pod name (some since) t w = init_running name since ∷ []
  init_state pod name none (some t) w = init_terminated pod name t ∷ []
  init_state pod name none none w = init_waiting name w

  unfoldable pub init_current : Pod → String → ContainerState → List TimelineItem
  init_current pod name s = init_state pod name (truthy s.running_since) s.terminated s.waiting

  unfoldable pub init_items : Pod → List ContainerStatus → List TimelineItem
  init_items pod [] = []
  init_items pod (c ∷ cs) =
      init_crash pod c.name c.last_terminated
      ++ (init_current pod c.name c.state ++ init_items pod cs)

  unfoldable pub crash : Pod → String → Option Terminated → List TimelineItem
  crash pod name none = []
  crash pod name (some t) =
      let reason = or_else t.reason "Terminated" in
      past (ended pod t) (join_text (name ∷ ": " ∷ reason ∷ []))
        (join_text ("Container exited with code " ∷ digits (code_of t) ∷ note t ∷ "." ∷ []))
        (if is_oom reason then error else if not (eqb (code_of t) 0) then warning else info)
      ∷ []

  unfoldable pub running_item : String → Option String → List TimelineItem
  running_item name since = elim (truthy since) [
    | none ↦ []
    | some t ↦ past t (join_text (name ∷ ": started" ∷ [])) "Container is running." success ∷ []
  ]

  unfoldable pub terminated_item : Pod → String → Option Terminated → List TimelineItem
  terminated_item pod name none = []
  terminated_item pod name (some t) =
      let fine = eqb (code_of t) 0 in
      past (ended pod t)
        (join_text
          (name ∷ ": " ∷ (if fine then "completed" else or_else t.reason "Completed") ∷ []))
        (join_text ("Exited with code " ∷ digits (code_of t) ∷ "." ∷ []))
        (if fine then success else error)
      ∷ []

  unfoldable pub waiting_item : String → Option Waiting → List TimelineItem
  waiting_item name none = []
  waiting_item name (some w) = elim (truthy w.reason) [
    | none ↦ []
    | some reason ↦
        live now (join_text (name ∷ ": " ∷ reason ∷ []))
          (or_else w.message (join_text ("Container is waiting: " ∷ reason ∷ "." ∷ [])))
          (if reason == "ContainerCreating" then info else error)
        ∷ []
  ]

  abbrev last_finished : ContainerStatus → Option String
  last_finished c = elim c.last_terminated [ none ↦ none | some t ↦ t.finished_at ]

  unfoldable pub unstable : Pod → ContainerStatus → List TimelineItem
  unstable pod c =
      if leb 3 c.restart_count
      then past (or_else (or_option (last_finished c) pod.start_time) pod.creation_timestamp)
          (join_text (c.name ∷ ": unstable" ∷ []))
          (join_text (
            "Restarted "
            ∷ digits c.restart_count
            ∷ " times — container may be crashing repeatedly."
            ∷ []))
          warning
        ∷ []
      else []

  unfoldable pub container_items : Pod → List ContainerStatus → List TimelineItem
  container_items pod [] = []
  container_items pod (c ∷ cs) =
      crash pod c.name c.last_terminated
      ++ (running_item c.name c.state.running_since
          ++ (terminated_item pod c.name c.state.terminated
              ++ (waiting_item c.name c.state.waiting
                  ++ (unstable pod c ++ container_items pod cs))))
