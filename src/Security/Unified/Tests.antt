-- ===== src/Security/Unified/Tests.antt =====
-- Unified results at concrete inputs.
use podscape.Common.{Bool, ltb, length, String, none, some, List, [], ◌∷◌, ◌≡◌, refl}
use podscape.Security.Kube.{Resource}
use podscape.Security.Rules.{ScanIssue, warning}
use podscape.Security.Unified.Placed.{trivy_vulnerabilities}
use podscape.Security.Unified.{
  UnifiedResource, Vulnerability, TrivyVulnerability, TrivyResource, KubesecItem, pop_part, key_of,
}
use podscape.Security.Unified.Conserved.{Scan}

abbrev web : Resource
web = record {
  kind = some "Pod";
  name = "web-0";
  namespace = some "default";
  uid = "u1";
  spec = none;
}

abbrev no_limits : ScanIssue
no_limits = record {
  rule_id = "no-resource-limits";
  level = warning;
  message = "m";
  path = "p";
  suggestion = "s";
}

abbrev scans : List Scan
scans = (web, no_limits ∷ []) ∷ []

abbrev cve : TrivyVulnerability
cve = record {
  vulnerability_id = "CVE-1";
  severity = "HIGH";
  title = none;
  description = some "d";
  pkg_name = none;
  fixed_version = none;
}

abbrev trivy : List TrivyResource
trivy =
    record {
      namespace = some "default";
      name = "web-0";
      kind = some "Pod";
      results =
          some (record { target = some "nginx"; vulnerabilities = some (cve ∷ cve ∷ []) } ∷ []);
    }
    ∷ []

abbrev items : List (String × List KubesecItem)
items =
    ("default/db-0/Pod", record { id = "k"; points = 7; reason = "r"; selector = "s" } ∷ []) ∷ []

last_part : pop_part "default/db-0/Pod" ≡ (some "default/db-0", "Pod")
unfolding pop_part
last_part = refl

same_resource : key_of (some "default") "web-0" (some "Pod") ≡ "default/web-0/Pod"
unfolding key_of
same_resource = refl

abbrev critical_rows : UnifiedResource → Bool
critical_rows u = ltb 0 (length u.vulnerabilities)

-- The description stands in for a title that is missing.
titled : trivy_vulnerabilities "default/web-0/Pod" trivy ≡ (
    let v : Vulnerability = record {
      id = "CVE-1";
      severity = "HIGH";
      title = some "d";
      image = "nginx";
      pkg_name = "";
      fixed_version = "";
    } in
    v ∷ v ∷ [])
unfolding trivy_vulnerabilities
titled = refl
