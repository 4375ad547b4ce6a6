-- ===== src/Security/Hub.antt =====
-- What renderer/components/advanced/SecurityHub.tsx makes of the workloads of the store and of the
-- results of a scan: the workloads that are scanned, the counts that it shows, and the list.
pub mod Shown
mod Tests
use podscape.Common.{
  ℕ, String, Bool, true, false, not, ◌&&◌, ◌||◌, Option, none, some, List, [], ◌∷◌, ◌++◌, ◌==◌, map,
  any, filter, length, ltb, or_else, truthy, same_option, if◌then◌else◌,
}
use podscape.Security.Kube.{Resource}
use podscape.Security.Rules.{IssueLevel, error, warning, info, ScanIssue, ScannerRule}
use podscape.Security.Engine.{ScanResult, scan}
use podscape.Security.Unified.{UnifiedIssue, Vulnerability, UnifiedResource}

pub record Workload : Type 0 where
  pub resource : Resource
  pub owner_references : Option (List String)

-- The lists of the store.
pub record Workloads : Type 0 where
  pub pods : List Workload
  pub deployments : List Workload
  pub statefulsets : List Workload
  pub daemonsets : List Workload
  pub jobs : List Workload
  pub cronjobs : List Workload

abbrev pub includes_text : List String → String → Bool
includes_text xs x = any (λ y. y == x) xs

abbrev pub system_namespaces : List String
system_namespaces = "kube-system" ∷ "kube-node-lease" ∷ "local-path-storage" ∷ "kube-public" ∷ []

abbrev pub namespace_of : Workload → String
namespace_of w = or_else w.resource.namespace ""

pub base_workloads : Bool → Workloads → List Workload
base_workloads include_system s =
    let workloads =
      s.pods ++ (s.deployments ++ (s.statefulsets ++ (s.daemonsets ++ (s.jobs ++ s.cronjobs)))) in
    if not include_system
    then filter (λ w. not (includes_text system_namespaces (namespace_of w))) workloads
    else workloads

pub all_workloads : List String → List Workload → List Workload
all_workloads [] base = base
all_workloads (ns ∷ ignored) base =
    filter (λ w. not (includes_text (ns ∷ ignored) (namespace_of w))) base

-- A Pod that a controller manages is not scanned: its controller is.
abbrev pub is_scanned : Workload → Bool
is_scanned w =
    if same_option w.resource.kind (some "Pod")
    then not (ltb 0 (length (or_else w.owner_references [])))
    else true

abbrev pub has_issues : Resource × List ScanIssue → Bool
has_issues r = ltb 0 (length r.1)

pub scan_results : List ScannerRule → List Workload → List (Resource × List ScanIssue)
scan_results rules ws =
    filter has_issues
      (map (λ w. (w.resource, (scan rules w.resource).issues)) (filter is_scanned ws))

pub record Stats : Type 0 where
  pub critical : ℕ
  pub warning : ℕ
  pub vulnerable_workloads : ℕ

abbrev pub is_error : IssueLevel → Bool
is_error error = true
is_error _ = false

abbrev pub is_warning : IssueLevel → Bool
is_warning warning = true
is_warning _ = false

abbrev pub all_issues : List (Resource × List ScanIssue) → List ScanIssue
all_issues [] = []
all_issues (r ∷ rs) = r.1 ++ all_issues rs

pub stats : List (Resource × List ScanIssue) → Stats
stats rs = record {
  critical = length (filter (λ i. is_error i.level) (all_issues rs));
  warning = length (filter (λ i. is_warning i.level) (all_issues rs));
  vulnerable_workloads = length rs;
}

abbrev pub is_severe : Vulnerability → Bool
is_severe v = includes_text ("CRITICAL" ∷ "HIGH" ∷ []) v.severity

pub is_critical : UnifiedResource → Bool
is_critical r = any (λ i. is_error i.issue.level) r.issues || any is_severe r.vulnerabilities

pub has_warning : UnifiedResource → Bool
has_warning r = any (λ i. is_warning i.issue.level) r.issues

pub critical_count : List UnifiedResource → ℕ
critical_count rs = length (filter is_critical rs)

pub warning_count : List UnifiedResource → ℕ
warning_count rs = length (filter has_warning rs)

pub data SeverityFilter : Type 0 where
  all_severities only_critical only_warning : SeverityFilter

-- What the user has chosen to see.
pub record Choice : Type 0 where
  pub include_system : Bool
  pub filter_namespace : Option String
  pub severity_filter : SeverityFilter

pub is_system : UnifiedResource → Bool
is_system r =
    same_option r.kind (some "Node")
    || (elim r.namespace [ none ↦ false | some ns ↦ includes_text system_namespaces ns ])

pub visible_results : Bool → List UnifiedResource → List UnifiedResource
visible_results include_system rs =
    if not include_system then filter (λ r. not (is_system r)) rs else rs

pub in_namespace : Option String → List UnifiedResource → List UnifiedResource
in_namespace none rs = rs
in_namespace (some ns) rs = filter (λ r. same_option r.namespace (some ns)) rs

-- The tests of the list, which the code writes a second time.
pub shows_critical : UnifiedResource → Bool
shows_critical r =
    any (λ i. is_error i.issue.level) r.issues
    || any (λ v. includes_text ("CRITICAL" ∷ "HIGH" ∷ []) v.severity) r.vulnerabilities

pub shows_warning : UnifiedResource → Bool
shows_warning r = any (λ i. is_warning i.issue.level) r.issues

pub of_severity : SeverityFilter → List UnifiedResource → List UnifiedResource
of_severity all_severities rs = rs
of_severity only_critical rs = filter shows_critical rs
of_severity only_warning rs = filter shows_warning rs

pub filtered_results : Choice → List UnifiedResource → List UnifiedResource
filtered_results c rs =
    of_severity c.severity_filter
      (in_namespace (truthy c.filter_namespace) (visible_results c.include_system rs))

-- The weight by which the table sorts.
pub resource_score : UnifiedResource → ℕ
resource_score r = if is_critical r then 2 else if ltb 0 (length r.issues) then 1 else 0
