-- ===== src/Store/Resources/History/Tests.antt =====
-- A selection at concrete inputs.
use podscape.Common.{String, none, some, [], ◌∷◌, take, ◌≡◌, refl, arith}
use podscape.Store.Resources.{KubeResource, kind_label, kind_labels, lookup}
use podscape.Store.Resources.History.{Selection, with_kind, remember, select_resource}
use podscape.Store.Resources.History.Laws.{IsHistory, others, select_resource-IsHistory}

abbrev named : String → KubeResource
named uid = record { kind = none; name = uid; namespace = some "default"; uid = uid }

abbrev browsing : Selection
browsing = record {
  section = "pods";
  selected_resource = none;
  resource_history = named "a" ∷ named "b" ∷ named "c" ∷ named "d" ∷ named "e" ∷ [];
}

browsing-IsHistory : IsHistory browsing
browsing-IsHistory = record {
  short = omega arith;
  distinct = (refl, (refl, (refl, (refl, (refl, tt)))));
}

kind_of_pods : kind_label "pods" ≡ "pod"
unfolding kind_label lookup kind_labels
kind_of_pods = refl

moves_to_front :
    (select_resource (some (named "c")) browsing).resource_history
    ≡ with_kind "pods" (named "c") ∷ named "a" ∷ named "b" ∷ named "d" ∷ named "e" ∷ []
unfolding select_resource with_kind remember
moves_to_front = refl

select_resource-IsHistory_example :
    let t = select_resource (some (named "f")) browsing in
    IsHistory t
    × (t.selected_resource ≡ some (with_kind "pods" (named "f")))
    × (t.resource_history
        ≡ with_kind "pods" (named "f") ∷ take 4 (others "f" browsing.resource_history))
select_resource-IsHistory_example =
    select_resource-IsHistory (named "f") browsing browsing-IsHistory
