-- ===== src/Security/Hub/Shown.antt =====
-- The list of renderer/components/advanced/SecurityHub.tsx against the counts above it.
use podscape.Common.{
  any, ◌==◌, eq_comm, ℕ, String, Bool, true, false, not, ◌&&◌, ◌||◌, Option, none, some, List, [],
  ◌∷◌, filter, length, truthy, same_option, ◌≡◌, ◌≤◌, refl, ◌∙◌, sym, ap, arith,
}
use podscape.Security.Rules.{IssueLevel, error, warning, info}
use podscape.Security.Unified.{UnifiedIssue, Vulnerability, UnifiedResource}
use podscape.Security.Hub.{
  includes_text, system_namespaces, is_error, is_warning, shows_critical, shows_warning,
  is_critical, has_warning, critical_count, warning_count, SeverityFilter, all_severities,
  only_critical, only_warning, Choice, is_system, visible_results, in_namespace, of_severity,
  filtered_results,
}

abbrev finds_error : UnifiedIssue → Bool
finds_error i = elim i.issue.level [ error ↦ true | warning ↦ false | info ↦ false ]

abbrev finds_warning : UnifiedIssue → Bool
finds_warning i = elim i.issue.level [ error ↦ false | warning ↦ true | info ↦ false ]

-- The severity that a result is listed under: an error, or a vulnerability that is critical or high;
-- a warning.
abbrev pub has_severity : SeverityFilter → UnifiedResource → Bool
has_severity all_severities r = true
has_severity only_critical r =
    any finds_error r.issues
    || any (λ v. v.severity == "CRITICAL" || v.severity == "HIGH") r.vulnerabilities
has_severity only_warning r = any finds_warning r.issues

abbrev chosen_namespace : Option String → UnifiedResource → Bool
chosen_namespace none r = true
chosen_namespace (some ns) r = same_option r.namespace (some ns)

-- One of the namespaces of the system.
abbrev is_system_namespace : Option String → Bool
is_system_namespace none = false
is_system_namespace (some ns) =
    ns == "kube-system"
    || ns == "kube-node-lease"
    || ns == "local-path-storage"
    || ns == "kube-public"

-- A node, or a result in one of the four namespaces of the system.
abbrev pub belongs_to_system : UnifiedResource → Bool
belongs_to_system r = same_option r.kind (some "Node") || is_system_namespace r.namespace

-- A result that the user has chosen to see.
abbrev pub is_chosen : Choice → UnifiedResource → Bool
is_chosen c r =
    ((c.include_system || not (belongs_to_system r))
      && chosen_namespace (truthy c.filter_namespace) r)
    && has_severity c.severity_filter r

filter-eq :
    (p q : UnifiedResource → Bool) (rs : List UnifiedResource)
    → ((r : UnifiedResource) → p r ≡ q r)
    → filter p rs ≡ filter q rs
filter-eq p q [] e = refl
filter-eq p q (r ∷ rs) e = ground (arith, e r, filter-eq p q rs e)

any-eq {ℓ} :
    {A : Type ℓ} (p q : A → Bool) (xs : List A) → ((x : A) → p x ≡ q x) → any p xs ≡ any q xs
any-eq p q [] e = refl
any-eq p q (x ∷ xs) e = rw (e x, any-eq p q xs e) refl

error-eq : (l : IssueLevel) → is_error l ≡ elim l [ error ↦ true | warning ↦ false | info ↦ false ]
error-eq error = refl
error-eq warning = refl
error-eq info = refl

warning-eq :
    (l : IssueLevel) → is_warning l ≡ elim l [ error ↦ false | warning ↦ true | info ↦ false ]
warning-eq error = refl
warning-eq warning = refl
warning-eq info = refl

severe-eq :
    (v : Vulnerability)
    → includes_text ("CRITICAL" ∷ "HIGH" ∷ []) v.severity
      ≡ (v.severity == "CRITICAL" || v.severity == "HIGH")
severe-eq v = ground (arith, eq_comm "CRITICAL" v.severity, eq_comm "HIGH" v.severity)

critical-eq :
    (r : UnifiedResource)
    → (any (λ i. is_error i.issue.level) r.issues
        || any (λ v. includes_text ("CRITICAL" ∷ "HIGH" ∷ []) v.severity) r.vulnerabilities)
      ≡ has_severity only_critical r
critical-eq r =
    rw
      (
        any-eq (λ i. is_error i.issue.level) finds_error r.issues (λ i. error-eq i.issue.level),
        any-eq (λ v. includes_text ("CRITICAL" ∷ "HIGH" ∷ []) v.severity)
            (λ v. v.severity == "CRITICAL" || v.severity == "HIGH") r.vulnerabilities severe-eq,
      )
      refl

warned-eq :
    (r : UnifiedResource)
    → any (λ i. is_warning i.issue.level) r.issues ≡ has_severity only_warning r
warned-eq r =
    any-eq (λ i. is_warning i.issue.level) finds_warning r.issues (λ i. warning-eq i.issue.level)

system_namespace-eq :
    (o : Option String)
    → (elim o [ none ↦ false | some ns ↦ includes_text system_namespaces ns ])
      ≡ is_system_namespace o
system_namespace-eq none = refl
system_namespace-eq (some ns) = ground (
  arith,
  eq_comm "kube-system" ns,
  eq_comm "kube-node-lease" ns,
  eq_comm "local-path-storage" ns,
  eq_comm "kube-public" ns,
)

is_system-eq : (r : UnifiedResource) → is_system r ≡ belongs_to_system r
unfolding is_system
is_system-eq r = rw (system_namespace-eq r.namespace) refl

filter-filter :
    (p q : UnifiedResource → Bool) (rs : List UnifiedResource)
    → filter q (filter p rs) ≡ filter (λ r. p r && q r) rs
filter-filter p q [] = refl
filter-filter p q (r ∷ rs) = ground (arith, filter-filter p q rs)

filter-true : (rs : List UnifiedResource) → filter (λ r. true) rs ≡ rs
filter-true [] = refl
filter-true (r ∷ rs) = ap (◌∷◌ r) (filter-true rs)

visible_results-filter :
    (b : Bool) (rs : List UnifiedResource)
    → visible_results b rs ≡ filter (λ r. b || not (belongs_to_system r)) rs
unfolding visible_results
visible_results-filter true rs = sym (filter-true rs)
visible_results-filter false rs = filter-eq _ _ rs (λ r. ap not (is_system-eq r))

in_namespace-filter :
    (o : Option String) (rs : List UnifiedResource)
    → in_namespace o rs ≡ filter (chosen_namespace o) rs
unfolding in_namespace
in_namespace-filter none rs = sym (filter-true rs)
in_namespace-filter (some ns) rs = refl

of_severity-filter :
    (s : SeverityFilter) (rs : List UnifiedResource) → of_severity s rs ≡ filter (has_severity s) rs
unfolding of_severity shows_critical shows_warning
of_severity-filter all_severities rs = sym (filter-true rs)
of_severity-filter only_critical rs = filter-eq _ _ rs critical-eq
of_severity-filter only_warning rs = filter-eq _ _ rs warned-eq

filtered_results-filter :
    (c : Choice) (rs : List UnifiedResource) → filtered_results c rs ≡ filter (is_chosen c) rs
unfolding filtered_results
filtered_results-filter c rs =
    let namespace = truthy c.filter_namespace in
    of_severity-filter c.severity_filter
      (in_namespace namespace (visible_results c.include_system rs))
    ∙ ap (filter (has_severity c.severity_filter)) (
        in_namespace-filter namespace (visible_results c.include_system rs)
        ∙ ap (filter (chosen_namespace namespace)) (visible_results-filter c.include_system rs)
        ∙ filter-filter (λ r. c.include_system || not (belongs_to_system r))
            (chosen_namespace namespace) rs)
    ∙ filter-filter
        (λ r. (c.include_system || not (belongs_to_system r)) && chosen_namespace namespace r)
        (has_severity c.severity_filter) rs

length-filter-and :
    (p q : UnifiedResource → Bool) (rs : List UnifiedResource)
    → length (filter (λ r. p r && q r) rs) ≤ length (filter q rs)
length-filter-and p q [] = omega arith
length-filter-and p q (r ∷ rs) = ground (arith, length-filter-and p q rs)

-- The count that is shown for a severity.
abbrev pub count_of : SeverityFilter → List UnifiedResource → ℕ
count_of all_severities rs = length rs
count_of only_critical rs = critical_count rs
count_of only_warning rs = warning_count rs

count_of-filter :
    (s : SeverityFilter) (rs : List UnifiedResource)
    → count_of s rs ≡ length (filter (has_severity s) rs)
unfolding critical_count warning_count is_critical has_warning
count_of-filter all_severities rs = ap length (sym (filter-true rs))
count_of-filter only_critical rs = ap length (filter-eq _ _ rs critical-eq)
count_of-filter only_warning rs = ap length (filter-eq _ _ rs warned-eq)

-- The list holds exactly the results that are chosen, in order: in the namespace, if one is chosen, of
-- the severity, if one is (critical: an error, or a vulnerability that is CRITICAL or HIGH; warning:
-- a warning), and without the nodes and the four system namespaces unless they are asked for. It is never longer than the
-- count shown for its severity, and as long where nothing is hidden and no namespace is chosen.
pub filtered_results-chosen :
    (c : Choice) (rs : List UnifiedResource)
    → let everything = record c { include_system = true; filter_namespace = none } in
      (filtered_results c rs ≡ filter (is_chosen c) rs)
      × (length (filtered_results c rs) ≤ count_of c.severity_filter rs)
      × (length (filtered_results everything rs) ≡ count_of c.severity_filter rs)
filtered_results-chosen c rs = (
  filtered_results-filter c rs,
  rw (filtered_results-filter c rs, count_of-filter c.severity_filter rs)
      (length-filter-and
        (λ r.
          (c.include_system || not (belongs_to_system r))
          && chosen_namespace (truthy c.filter_namespace) r)
        (has_severity c.severity_filter) rs),
  ap length
        (filtered_results-filter (record c { include_system = true; filter_namespace = none }) rs)
      ∙ sym (count_of-filter c.severity_filter rs),
)
