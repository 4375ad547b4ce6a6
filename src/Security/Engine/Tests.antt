-- ===== src/Security/Engine/Tests.antt =====
-- Scans at concrete resources.
use podscape.Common.{true, false, none, some, [], ◌∷◌, ◌≡◌, ◌↔◌, refl}
use podscape.Security.Kube.{Container, PodSpec, Resource}
use podscape.Security.Rules.{
  info, ScannerRule, best_practice_rules, no_resource_limits, latest_image_tag,
  missing_liveness_probe, missing_readiness_probe, sensitive_env_var, issues_where, lacks_limits,
  uses_latest, is_sensitive, sensitive_issues, all_containers, limits_issue, latest_issue,
  liveness_issue, readiness_issue, sensitive_issue,
}
use podscape.Security.Engine.{scan, run_rules, summarize, new_engine}
use podscape.Security.Engine.Laws.{IsClean, scan-nil_iff}

abbrev bare : Container
bare = record {
  name = "app";
  image = some "nginx:latest";
  cpu_limit = none;
  memory_limit = none;
  liveness_probe = false;
  readiness_probe = true;
  env = record { name = "db_password"; value = some "x" } ∷ [];
}

abbrev no_containers : PodSpec
no_containers = record { containers = none; init_containers = none }

abbrev bare_spec : PodSpec
bare_spec = record { containers = some (bare ∷ []); init_containers = none }

abbrev deployment : Resource
deployment = record {
  kind = some "Deployment";
  name = "web";
  namespace = some "default";
  uid = "u1";
  spec = some (record { own = no_containers; template = some bare_spec; job_template = none });
}

abbrev cron_job : Resource
cron_job = record {
  kind = some "CronJob";
  name = "backup";
  namespace = some "default";
  uid = "u2";
  spec = some (record { own = no_containers; template = none; job_template = some bare_spec });
}

abbrev thrower : ScannerRule
thrower = record { id = "custom"; name = "Throws"; level = info; validate = λ r. none }

bare_summary : (scan new_engine deployment).summary ≡ record { errors = 1; warnings = 2; infos = 1 }
unfolding scan new_engine run_rules summarize best_practice_rules no_resource_limits
    latest_image_tag missing_liveness_probe missing_readiness_probe sensitive_env_var issues_where
    lacks_limits uses_latest is_sensitive sensitive_issues all_containers limits_issue latest_issue
    liveness_issue readiness_issue sensitive_issue
bare_summary = refl

scan-nil_iff_example : ((scan new_engine deployment).issues ≡ []) ↔ IsClean deployment.spec
scan-nil_iff_example = scan-nil_iff deployment

-- The rules do not read the template of a job.
cron_job_unscanned : (scan new_engine cron_job).issues ≡ []
unfolding scan new_engine run_rules best_practice_rules no_resource_limits latest_image_tag
    missing_liveness_probe missing_readiness_probe sensitive_env_var
cron_job_unscanned = refl

-- The colon of a registry's port passes for a tag.
port_is_no_tag :
    uses_latest
      (record { c = record bare { image = some "localhost:5000/nginx" }; prefix = "containers" })
    ≡ false
unfolding uses_latest
port_is_no_tag = refl
