-- ===== src/Security/Rules.antt =====
-- renderer/utils/scanner/bestPracticeRules.ts and types.ts. A rule that throws gives `none`.
pub mod Clean
use podscape.Common.{
  join_text, String, Bool, true, false, not, ◌&&◌, ◌||◌, Option, none, some, List, [], ◌∷◌, ◌++◌,
  map, any, or_else, or_option, truthy, is_some, codes, to_upper, includes, ends_with,
  if◌then◌else◌,
}
use podscape.Security.Kube.{EnvVar, Container, PodSpec, Spec, Resource}

pub data IssueLevel : Type 0 where
  error warning info : IssueLevel

pub record ScanIssue : Type 0 where
  pub rule_id : String
  pub level : IssueLevel
  pub message : String
  pub path : String
  pub suggestion : String

pub record ScannerRule : Type 0 where
  pub id : String
  pub name : String
  pub level : IssueLevel
  pub validate : Resource → Option (List ScanIssue)

pub record Prefixed : Type 0 where
  pub c : Container
  pub prefix : String

abbrev pub prefixed : String → List Container → List Prefixed
prefixed prefix = map (λ c. record { c = c; prefix = prefix })

unfoldable pub all_containers : PodSpec → List Prefixed
all_containers p =
    prefixed "containers" (or_else p.containers [])
    ++ prefixed "initContainers" (or_else p.init_containers [])

abbrev pub sensitive_keywords : List String
sensitive_keywords = "PASSWORD" ∷ "TOKEN" ∷ "SECRET" ∷ "KEY" ∷ "AUTH" ∷ "API_KEY" ∷ []

-- `spec?.template?.spec || spec`.
abbrev pub spec_of : Option Spec → Option PodSpec
spec_of none = none
spec_of (some s) = some (or_else s.template s.own)

-- The pod specification that the rules read, if it has `containers`.
abbrev pub with_containers : Option PodSpec → Option PodSpec
with_containers none = none
with_containers (some p) = if is_some p.containers then some p else none

abbrev pub scanned_spec : Resource → Option PodSpec
scanned_spec r = with_containers (spec_of r.spec)

-- A loop over containers that pushes the issue of each that fails the test.
unfoldable pub issues_where {ℓ} :
    {A : Type ℓ} → (A → Bool) → (A → ScanIssue) → List A → List ScanIssue
issues_where bad issue [] = []
issues_where bad issue (x ∷ xs) =
    let rest = issues_where bad issue xs in if bad x then issue x ∷ rest else rest

abbrev pub in_spec : (PodSpec → List ScanIssue) → Resource → Option (List ScanIssue)
in_spec check r = elim (scanned_spec r) [ none ↦ some [] | some p ↦ some (check p) ]

unfoldable pub lacks_limits : Prefixed → Bool
lacks_limits x = not (is_some (truthy x.c.cpu_limit)) || not (is_some (truthy x.c.memory_limit))

unfoldable pub limits_issue : Prefixed → ScanIssue
limits_issue x = record {
  rule_id = "no-resource-limits";
  level = warning;
  message = join_text ("Container " ∷ x.c.name ∷ " is missing CPU or Memory limits" ∷ []);
  path = join_text ("spec." ∷ x.prefix ∷ "[name=" ∷ x.c.name ∷ "].resources.limits" ∷ []);
  suggestion = "Define CPU and memory limits to prevent resource exhaustion.";
}

unfoldable pub no_resource_limits : ScannerRule
no_resource_limits = record {
  id = "no-resource-limits";
  name = "Missing Resource Limits";
  level = warning;
  validate = in_spec (λ p. issues_where lacks_limits limits_issue (all_containers p));
}

abbrev image_is_latest : Option String → Bool
image_is_latest none = false
image_is_latest (some i) = ends_with (codes i) (codes ":latest")

abbrev image_has_no_tag : Option String → Bool
image_has_no_tag none = false
image_has_no_tag (some i) = not (includes (codes i) (codes ":"))

unfoldable pub uses_latest : Prefixed → Bool
uses_latest x = image_is_latest x.c.image || image_has_no_tag (truthy x.c.image)

unfoldable pub latest_issue : Prefixed → ScanIssue
latest_issue x = record {
  rule_id = "latest-image-tag";
  level = warning;
  message = join_text ("Container " ∷ x.c.name ∷ " uses the :latest image tag" ∷ []);
  path = join_text ("spec." ∷ x.prefix ∷ "[name=" ∷ x.c.name ∷ "].image" ∷ []);
  suggestion = "Use a specific version tag instead of :latest.";
}

unfoldable pub latest_image_tag : ScannerRule
latest_image_tag = record {
  id = "latest-image-tag";
  name = "Latest Image Tag";
  level = warning;
  validate = in_spec (λ p. issues_where uses_latest latest_issue (all_containers p));
}

unfoldable pub liveness_issue : Container → ScanIssue
liveness_issue c = record {
  rule_id = "missing-liveness-probe";
  level = info;
  message = join_text ("Container " ∷ c.name ∷ " is missing a liveness probe" ∷ []);
  path = join_text ("spec.containers[name=" ∷ c.name ∷ "].livenessProbe" ∷ []);
  suggestion = "Add a livenessProbe to enable automatic container restarts on failure.";
}

unfoldable pub missing_liveness_probe : ScannerRule
missing_liveness_probe = record {
  id = "missing-liveness-probe";
  name = "Missing Liveness Probe";
  level = info;
  validate =
      in_spec
        (λ p. issues_where (λ c. not c.liveness_probe) liveness_issue (or_else p.containers []));
}

unfoldable pub readiness_issue : Container → ScanIssue
readiness_issue c = record {
  rule_id = "missing-readiness-probe";
  level = warning;
  message = join_text ("Container " ∷ c.name ∷ " is missing a readiness probe" ∷ []);
  path = join_text ("spec.containers[name=" ∷ c.name ∷ "].readinessProbe" ∷ []);
  suggestion = "Add a readinessProbe to prevent traffic from being sent to unready pods.";
}

unfoldable pub missing_readiness_probe : ScannerRule
missing_readiness_probe = record {
  id = "missing-readiness-probe";
  name = "Missing Readiness Probe";
  level = warning;
  validate =
      in_spec
        (λ p. issues_where (λ c. not c.readiness_probe) readiness_issue (or_else p.containers []));
}

unfoldable pub is_sensitive : EnvVar → Bool
is_sensitive e =
    is_some (truthy e.value)
    && any (λ k. includes (to_upper (codes e.name)) (codes k)) sensitive_keywords

unfoldable pub sensitive_issue : Prefixed → EnvVar → ScanIssue
sensitive_issue x e = record {
  rule_id = "sensitive-env-var";
  level = error;
  message =
      join_text
        ("Container " ∷ x.c.name ∷ " has sensitive variable " ∷ e.name ∷ " in plain text" ∷ []);
  path =
      join_text
        ("spec." ∷ x.prefix ∷ "[name=" ∷ x.c.name ∷ "].env[name=" ∷ e.name ∷ "].value" ∷ []);
  suggestion = "Use a secretKeyRef to inject sensitive values from a Secret.";
}

-- The nested loop over containers and their variables.
unfoldable pub sensitive_issues : List Prefixed → List ScanIssue
sensitive_issues [] = []
sensitive_issues (x ∷ xs) =
    issues_where is_sensitive (sensitive_issue x) x.c.env ++ sensitive_issues xs

unfoldable pub sensitive_env_var : ScannerRule
sensitive_env_var = record {
  id = "sensitive-env-var";
  name = "Sensitive Env Variable";
  level = error;
  validate = in_spec (λ p. sensitive_issues (all_containers p));
}

unfoldable pub best_practice_rules : List ScannerRule
best_practice_rules =
    no_resource_limits ∷ latest_image_tag ∷ missing_liveness_probe ∷ missing_readiness_probe
    ∷ sensitive_env_var ∷ []
