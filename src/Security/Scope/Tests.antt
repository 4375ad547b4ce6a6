-- ===== src/Security/Scope/Tests.antt =====
-- Scopes at concrete inputs.
use podscape.Common.{String, true, none, some, List, [], ◌∷◌, filter, ◌≡◌, refl}
use podscape.Security.Kube.{Resource}
use podscape.Security.Unified.{TrivyResource}
use podscape.Security.Scope.{
  CustomScanOptions, in_options, by_kind, by_namespace, workloads_in_scope, filter_trivy_by_scope,
}
use podscape.Security.Scope.Chosen.{is_chosen, is_chosen_result, workloads_in_scope-filter}

abbrev workload : String → String → Resource
workload kind name = record {
  kind = some kind;
  name = name;
  namespace = some "shop";
  uid = name;
  spec = none;
}

abbrev workloads : List Resource
workloads = workload "Pod" "web-0" ∷ workload "Deployment" "web" ∷ []

abbrev only_pods : CustomScanOptions
only_pods = record {
  namespaces = "shop" ∷ [];
  kinds = "pod" ∷ [];
  run_trivy = true;
  run_kubesec = true;
  selected_images = none;
}

no_pods_by_default : workloads_in_scope none workloads ≡ workload "Deployment" "web" ∷ []
unfolding workloads_in_scope in_options
no_pods_by_default = refl

pods_when_asked : workloads_in_scope (some only_pods) workloads ≡ workload "Pod" "web-0" ∷ []
unfolding workloads_in_scope in_options by_kind by_namespace
pods_when_asked = refl

abbrev result : TrivyResource
result = record { namespace = some "shop"; name = "web-0"; kind = some "Pod"; results = none }

-- The lower-case kind chooses the workload, and drops its result.
pod_result_dropped : filter_trivy_by_scope only_pods (result ∷ []) ≡ []
unfolding filter_trivy_by_scope
pod_result_dropped = refl

workloads_in_scope-filter_example :
    (workloads_in_scope (some only_pods) workloads ≡ filter (is_chosen (some only_pods)) workloads)
    × (filter_trivy_by_scope only_pods (result ∷ [])
        ≡ filter (is_chosen_result only_pods) (result ∷ []))
workloads_in_scope-filter_example =
    workloads_in_scope-filter (some only_pods) only_pods workloads (result ∷ [])
