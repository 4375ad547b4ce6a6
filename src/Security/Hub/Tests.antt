-- ===== src/Security/Hub/Tests.antt =====
-- The security panel at concrete inputs.
use podscape.Common.{true, false, none, some, [], ◌∷◌, filter, length, ◌≡◌, ◌≤◌, refl}
use podscape.Security.Rules.{warning}
use podscape.Security.Unified.{UnifiedIssue, UnifiedResource, config}
use podscape.Security.Hub.{
  shows_warning, Workload, Workloads, base_workloads, all_workloads, scan_results, Choice,
  only_warning, filtered_results, warning_count, is_critical, has_warning, is_system,
  visible_results, in_namespace, of_severity, resource_score,
}
use podscape.Security.Hub.Shown.{is_chosen, count_of, filtered_results-chosen}

abbrev owned : Workload
owned = record {
  resource = record {
    kind = some "Pod";
    name = "web-0";
    namespace = some "default";
    uid = "u1";
    spec = none;
  };
  owner_references = some ("web" ∷ []);
}

abbrev of_system : Workload
of_system = record {
  resource = record {
    kind = some "Pod";
    name = "dns";
    namespace = some "kube-system";
    uid = "u2";
    spec = none;
  };
  owner_references = none;
}

abbrev store : Workloads
store = record {
  pods = owned ∷ of_system ∷ [];
  deployments = [];
  statefulsets = [];
  daemonsets = [];
  jobs = [];
  cronjobs = [];
}

system_left_out : all_workloads [] (base_workloads false store) ≡ owned ∷ []
unfolding all_workloads base_workloads
system_left_out = refl

ignored_left_out : all_workloads ("default" ∷ []) (base_workloads true store) ≡ of_system ∷ []
unfolding all_workloads base_workloads
ignored_left_out = refl

-- The Pod with a controller is not scanned.
owned_left_out : scan_results [] (owned ∷ []) ≡ []
unfolding scan_results
owned_left_out = refl

abbrev no_limits : UnifiedIssue
no_limits = record {
  issue = record {
    rule_id = "no-resource-limits";
    level = warning;
    message = "m";
    path = "p";
    suggestion = "s";
  };
  source = config;
}

abbrev result : UnifiedResource
result = record {
  name = "web-0";
  namespace = some "default";
  kind = some "Pod";
  issues = no_limits ∷ [];
  vulnerabilities = [];
}

abbrev system_result : UnifiedResource
system_result = record result { namespace = some "kube-system" }

abbrev choice : Choice
choice = record {
  include_system = false;
  filter_namespace = some "default";
  severity_filter = only_warning;
}

-- The system result counts, and is not shown.
hidden_but_counted :
    (filtered_results choice (result ∷ system_result ∷ []) ≡ result ∷ [])
    × (warning_count (result ∷ system_result ∷ []) ≡ 2)
unfolding filtered_results visible_results in_namespace of_severity is_system has_warning
    warning_count shows_warning
hidden_but_counted = (refl, refl)

scored : resource_score result ≡ 1
unfolding resource_score is_critical
scored = refl

filtered_results-chosen_example :
    let rs = result ∷ system_result ∷ [] in
    (filtered_results choice rs ≡ filter (is_chosen choice) rs)
    × (length (filtered_results choice rs) ≤ count_of only_warning rs)
    × (length
          (filtered_results (record choice { include_system = true; filter_namespace = none }) rs)
        ≡ count_of only_warning rs)
filtered_results-chosen_example = filtered_results-chosen choice (result ∷ system_result ∷ [])
