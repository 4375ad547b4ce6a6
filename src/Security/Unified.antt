-- ===== src/Security/Unified.antt =====
-- The findings of the scanner, of Trivy and of Kubesec in one list for each resource:
-- renderer/utils/security/buildUnifiedResults.ts. The outputs of Trivy and Kubesec, of type `any` in
-- the code, are the fields that it reads, with arrays that may be missing. Points of Kubesec below 0
-- are 0 here.
pub mod Conserved
pub mod Placed
pub mod Named
pub mod Rows
mod Tests
use Prim.Native.Char.{code}
use Prim.Native.String
use Prim.Native.String.{String}
use podscape.Common.{
  ℕ, Bool, true, false, Option, none, some, List, [], ◌∷◌, ◌++◌, map, length, ltb, leb, eqb,
  or_else, truthy, join_text, if◌then◌else◌, ◌+◌,
}
use podscape.Common.Maps.{put, at_key}
use podscape.Common.Sorting.{sort_by}
use podscape.Security.Kube.{Resource}
use podscape.Security.Rules.{IssueLevel, error, warning, ScanIssue}

pub data IssueSource : Type 0 where
  config kubesec : IssueSource

pub record UnifiedIssue : Type 0 where
  pub issue : ScanIssue
  pub source : IssueSource

pub record Vulnerability : Type 0 where
  pub id : String
  pub severity : String
  pub title : Option String
  pub image : String
  pub pkg_name : String
  pub fixed_version : String

pub record UnifiedResource : Type 0 where
  pub name : String
  pub namespace : Option String
  pub kind : Option String
  pub issues : List UnifiedIssue
  pub vulnerabilities : List Vulnerability

pub record TrivyVulnerability : Type 0 where
  pub vulnerability_id : String
  pub severity : String
  pub title : Option String
  pub description : Option String
  pub pkg_name : Option String
  pub fixed_version : Option String

pub record TrivyResult : Type 0 where
  pub target : Option String
  pub vulnerabilities : Option (List TrivyVulnerability)

pub record TrivyResource : Type 0 where
  pub namespace : Option String
  pub name : String
  pub kind : Option String
  pub results : Option (List TrivyResult)

pub record KubesecItem : Type 0 where
  pub id : String
  pub points : ℕ
  pub reason : String
  pub selector : String

-- A value in a template literal.
abbrev shown : Option String → String
shown o = or_else o "undefined"

pub key_of : Option String → String → Option String → String
key_of namespace name kind = join_text (shown namespace ∷ "/" ∷ name ∷ "/" ∷ shown kind ∷ [])

abbrev pub ResourceMap : Type 0
ResourceMap = List (String × UnifiedResource)

abbrev pub from_scanner : ScanIssue → UnifiedIssue
from_scanner i = record { issue = i; source = config }

pub scanned : Resource → List ScanIssue → UnifiedResource
scanned r issues = record {
  name = r.name;
  namespace = r.namespace;
  kind = r.kind;
  issues = map from_scanner issues;
  vulnerabilities = [];
}

pub add_scans : List (Resource × List ScanIssue) → ResourceMap → ResourceMap
add_scans [] m = m
add_scans ((r, issues) ∷ more) m =
    add_scans more (put (key_of r.namespace r.name r.kind) (scanned r issues) m)

pub vulnerability_of : TrivyResult → TrivyVulnerability → Vulnerability
vulnerability_of tr v = record {
  id = v.vulnerability_id;
  severity = v.severity;
  title = elim (truthy v.title) [ none ↦ v.description | some t ↦ some t ];
  image = or_else tr.target "";
  pkg_name = or_else v.pkg_name "";
  fixed_version = or_else v.fixed_version "";
}

pub vulnerabilities_of : List TrivyResult → List Vulnerability
vulnerabilities_of [] = []
vulnerabilities_of (tr ∷ trs) =
    map (vulnerability_of tr) (or_else tr.vulnerabilities []) ++ vulnerabilities_of trs

abbrev pub empty_resource : Option String → String → Option String → UnifiedResource
empty_resource namespace name kind = record {
  name = name;
  namespace = namespace;
  kind = kind;
  issues = [];
  vulnerabilities = [];
}

abbrev pub with_vulnerabilities : List Vulnerability → UnifiedResource → UnifiedResource
with_vulnerabilities vs u = record u { vulnerabilities = u.vulnerabilities ++ vs }

pub add_trivy : List TrivyResource → ResourceMap → ResourceMap
add_trivy [] m = m
add_trivy (res ∷ more) m =
    let key = key_of res.namespace res.name res.kind in
    let existing = or_else (at_key key m) (empty_resource res.namespace res.name res.kind) in
    add_trivy more
      (put key (with_vulnerabilities (vulnerabilities_of (or_else res.results [])) existing) m)

-- `parts.pop()`: what stands behind the last slash, and what stands before it, if there is one.
pub pop_part : String → Option String × String
pop_part String.[] = (none, "")
pop_part (String.◌∷◌ c s) =
    let (rest, last) = pop_part s in
    elim rest [
      | some r ↦ (some (String.◌∷◌ c r), last)
      | none ↦ if eqb (code c) b'/' then (some "", last) else (none, String.◌∷◌ c last)
    ]

pub named_by : String → UnifiedResource
named_by key =
    let (front, kind) = pop_part key in
    let (namespace, name) = pop_part (or_else front "") in
    empty_resource (some (or_else namespace "")) name (some kind)

pub kubesec_issue : KubesecItem → UnifiedIssue
kubesec_issue item = record {
  issue = record {
    rule_id = item.id;
    level = if leb 5 item.points then error else warning;
    message = item.reason;
    path = item.selector;
    suggestion = item.reason;
  };
  source = kubesec;
}

abbrev pub with_issues : List KubesecItem → UnifiedResource → UnifiedResource
with_issues items u = record u { issues = u.issues ++ map kubesec_issue items }

pub add_kubesec : List (String × List KubesecItem) → ResourceMap → ResourceMap
add_kubesec [] m = m
add_kubesec ((key, []) ∷ more) m = add_kubesec more m
add_kubesec ((key, item ∷ items) ∷ more) m =
    add_kubesec more
      (put key (with_issues (item ∷ items) (or_else (at_key key m) (named_by key))) m)

abbrev pub values : ResourceMap → List UnifiedResource
values = map (λ p. p.1)

pub size : UnifiedResource → ℕ
size u = length u.issues + length u.vulnerabilities

abbrev pub larger : UnifiedResource → UnifiedResource → Bool
larger a b = ltb (size b) (size a)

-- The map that the three loops fill. Arguments that are missing are empty lists here.
abbrev pub resource_map :
    List (Resource × List ScanIssue)
    → List TrivyResource
    → List (String × List KubesecItem)
    → ResourceMap
resource_map scans trivy kubesec_results =
    add_kubesec kubesec_results (add_trivy trivy (add_scans scans []))

pub build_unified_results :
    List (Resource × List ScanIssue)
    → List TrivyResource
    → List (String × List KubesecItem)
    → List UnifiedResource
build_unified_results scans trivy kubesec_results =
    sort_by larger (values (resource_map scans trivy kubesec_results))
