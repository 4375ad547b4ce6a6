-- ===== src/Security/Unified/Placed.antt =====
-- Where `buildUnifiedResults` of renderer/utils/security/buildUnifiedResults.ts puts each finding.
use podscape.Common.{
  String, Option, none, some, List, [], ◌∷◌, ◌++◌, ◌==◌, map, or_else, truthy, join_text, leb,
  if◌then◌else◌, ◌≡◌, refl, ◌∙◌, ap, arith, eq_iff, Bool-cases, inl, inr,
}
use podscape.Common.Maps.{put, at_key, at_key-put, at_key-put-other}
use podscape.Security.Rules.{ScanIssue, error, warning}
use podscape.Security.Unified.{
  UnifiedResource, UnifiedIssue, config, kubesec, Vulnerability, TrivyVulnerability, TrivyResult,
  TrivyResource, KubesecItem, ResourceMap, vulnerability_of, vulnerabilities_of,
}
use podscape.Security.Unified.Conserved.{Scan}

-- The key of a resource, in words.
abbrev pub key_at : Option String → String → Option String → String
key_at namespace name kind =
    join_text (or_else namespace "undefined" ∷ "/" ∷ name ∷ "/" ∷ or_else kind "undefined" ∷ [])

-- How the findings of each source are shown.
abbrev pub scanner_issue : ScanIssue → UnifiedIssue
scanner_issue i = record { issue = i; source = config }

abbrev pub item_issue : KubesecItem → UnifiedIssue
item_issue item = record {
  issue = record {
    rule_id = item.id;
    level = if leb 5 item.points then error else warning;
    message = item.reason;
    path = item.selector;
    suggestion = item.reason;
  };
  source = kubesec;
}

-- The title, or the description where that is missing or empty.
abbrev title_of : Option String → Option String → Option String
title_of none description = description
title_of (some t) description = if t == "" then description else some t

abbrev pub shown_vulnerability : Option String → TrivyVulnerability → Vulnerability
shown_vulnerability target v = record {
  id = v.vulnerability_id;
  severity = v.severity;
  title = title_of v.title v.description;
  image = or_else target "";
  pkg_name = or_else v.pkg_name "";
  fixed_version = or_else v.fixed_version "";
}

abbrev pub shown_vulnerabilities : List TrivyResult → List Vulnerability
shown_vulnerabilities [] = []
shown_vulnerabilities (tr ∷ trs) =
    map (shown_vulnerability tr.target) (or_else tr.vulnerabilities []) ++ shown_vulnerabilities trs

-- The findings of each source for a key, in order.
unfoldable pub scanner_issues : String → List Scan → List UnifiedIssue
scanner_issues k [] = []
scanner_issues k ((r, issues) ∷ more) =
    let rest = scanner_issues k more in
    if key_at r.namespace r.name r.kind == k then map scanner_issue issues ++ rest else rest

unfoldable pub kubesec_issues : String → List (String × List KubesecItem) → List UnifiedIssue
kubesec_issues k [] = []
kubesec_issues k ((key, items) ∷ more) =
    let rest = kubesec_issues k more in if key == k then map item_issue items ++ rest else rest

unfoldable pub trivy_vulnerabilities : String → List TrivyResource → List Vulnerability
trivy_vulnerabilities k [] = []
trivy_vulnerabilities k (res ∷ more) =
    let rest = trivy_vulnerabilities k more in
    if key_at res.namespace res.name res.kind == k
    then shown_vulnerabilities (or_else res.results []) ++ rest
    else rest

-- What a row has, and a key without a row has not.
abbrev pub of {ℓ} : {X : Type ℓ} → (UnifiedResource → List X) → Option UnifiedResource → List X
of f none = []
of f (some u) = f u

abbrev pub issues_of : Option UnifiedResource → List UnifiedIssue
issues_of = of (λ u. u.issues)

abbrev pub vulnerabilities_at : Option UnifiedResource → List Vulnerability
vulnerabilities_at = of (λ u. u.vulnerabilities)

pub of-put {ℓ} :
    {X : Type ℓ} (f : UnifiedResource → List X) (key k : String) (u : UnifiedResource)
    (m : ResourceMap)
    → of f (at_key k (put key u m)) ≡ (if key == k then f u else of f (at_key k m))
of-put f key k u m = elim (Bool-cases (key == k)) [
  | inl same ↦
      let e : key ≡ k = ground (arith, eq_iff key k) in
      rw same (rw (← e) (ap (of f) (at_key-put key u m)))
  | inr other ↦ rw other (ap (of f) (at_key-put-other key k u m other))
]

pub of-or_else {ℓ} :
    {X : Type ℓ} (f : UnifiedResource → List X) (o : Option UnifiedResource) (u : UnifiedResource)
    → f u ≡ []
    → f (or_else o u) ≡ of f o
of-or_else f none u e = e
of-or_else f (some v) u e = refl

-- A row that is put back with more at its end: at its own key that is added, at others nothing.
pub of-grown {ℓ} :
    {X : Type ℓ} (f : UnifiedResource → List X) (key k : String) (u : UnifiedResource)
    (more : List X) (m : ResourceMap)
    → f u ≡ of f (at_key key m) ++ more
    → of f (at_key k (put key u m))
      ≡ (if key == k then of f (at_key k m) ++ more else of f (at_key k m))
of-grown f key k u more m grown = elim (Bool-cases (key == k)) [
  | inl same ↦
      let e : key ≡ k = ground (arith, eq_iff key k) in
      of-put f key k u m ∙ rw same (grown ∙ ap (λ j. of f (at_key j m) ++ more) e)
  | inr other ↦ of-put f key k u m ∙ rw other refl
]

pub absent {ℓ} :
    {X : Type ℓ} (f : UnifiedResource → List X) (o : Option UnifiedResource)
    → o ≡ none
    → of f o ≡ []
absent f o e = rw e refl

vulnerability-eq :
    (tr : TrivyResult) (v : TrivyVulnerability)
    → vulnerability_of tr v ≡ shown_vulnerability tr.target v
unfolding vulnerability_of
vulnerability-eq tr v =
    ap
      (λ t. record {
        id = v.vulnerability_id;
        severity = v.severity;
        title = t;
        image = or_else tr.target "";
        pkg_name = or_else v.pkg_name "";
        fixed_version = or_else v.fixed_version "";
      })
      (titled v.title v.description)
  where
    titled : (o d : Option String) → (elim (truthy o) [ none ↦ d | some t ↦ some t ]) ≡ title_of o d
    titled none d = refl
    titled (some t) d = elim (Bool-cases (t == "")) [
      | inl empty ↦ rw empty refl
      | inr full ↦ rw full refl
    ]

pub map-eq {ℓ κ} :
    {A : Type ℓ} {B : Type κ} (f g : A → B) (xs : List A)
    → ((x : A) → f x ≡ g x)
    → map f xs ≡ map g xs
map-eq f g [] e = refl
map-eq f g (x ∷ xs) e = rw (e x, map-eq f g xs e) refl

pub vulnerabilities-eq :
    (trs : List TrivyResult) → vulnerabilities_of trs ≡ shown_vulnerabilities trs
unfolding vulnerabilities_of
vulnerabilities-eq [] = refl
vulnerabilities-eq (tr ∷ trs) =
    rw
      (
        map-eq (vulnerability_of tr) (shown_vulnerability tr.target) (or_else tr.vulnerabilities [])
            (vulnerability-eq tr),
        vulnerabilities-eq trs,
      )
      refl
