-- ===== src/Security/Engine/Laws.antt =====
-- What a scan by renderer/utils/scanner/engine.ts says of a resource.
use mathlib.Core.List.{append_assoc, append-nil}
use podscape.Common.{
  String, false, not, Option, none, some, List, [], ◌∷◌, ◌++◌, ◌≡◌, ◌↔◌, ◌+◌, inl, inr, refl, sym,
  ap, ◌∙◌, arith, All, length, or_else, Option-cases,
}
use podscape.Security.Kube.{Container, PodSpec, Resource, Spec}
use podscape.Security.Rules.{
  prefixed, with_containers, spec_of, ScanIssue, ScannerRule, Prefixed, all_containers,
  scanned_spec, issues_where, lacks_limits, limits_issue, uses_latest, latest_issue, liveness_issue,
  readiness_issue, sensitive_issues, no_resource_limits, latest_image_tag, missing_liveness_probe,
  missing_readiness_probe, sensitive_env_var, best_practice_rules, in_spec,
}
use podscape.Security.Rules.Clean.{
  IsGiven, IsPinned, IsHarmless, IsHardened, IsProbed, lacks_limits_iff, uses_latest_iff,
  issues_where_iff, sensitive_issues_iff, All-iff, append-eq-nil,
}
use podscape.Security.Engine.{run_rules, summarize, scan, new_engine}

levels-add :
    (issues : List ScanIssue)
    → let s = summarize issues in s.errors + s.warnings + s.infos ≡ length issues
unfolding summarize
levels-add [] = refl
levels-add (i ∷ issues) = ground (arith, levels-add issues)

run_rules-append :
    (xs ys : List ScannerRule) (r : Resource)
    → run_rules (xs ++ ys) r ≡ run_rules xs r ++ run_rules ys r
unfolding run_rules
run_rules-append [] ys r = refl
run_rules-append (x ∷ xs) ys r = elim (Option-cases (x.validate r)) [
  | inl e ↦ rw e (run_rules-append xs ys r)
  | inr (found, e) ↦
      rw e (ap (◌++◌ found) (run_rules-append xs ys r) ∙ sym (append_assoc found _ _))
]

run_rules-throws :
    (x : ScannerRule) (ys : List ScannerRule) (r : Resource)
    → x.validate r ≡ none
    → run_rules (x ∷ ys) r ≡ run_rules ys r
unfolding run_rules
run_rules-throws x ys r e = rw e refl

-- A rule that throws on a resource, wherever it stands among the rules, leaves the result of the
-- scan as it is without that rule; and the three counts of a result add up to its issues.
scan_without_thrower :
    (xs ys : List ScannerRule) (x : ScannerRule) (r : Resource)
    → x.validate r ≡ none
    → let result = scan (xs ++ x ∷ ys) r in
      (result ≡ scan (xs ++ ys) r)
      × (result.summary.errors + result.summary.warnings + result.summary.infos
          ≡ length result.issues)
unfolding scan
scan_without_thrower xs ys x r e =
    let same : run_rules (xs ++ x ∷ ys) r ≡ run_rules (xs ++ ys) r =
      run_rules-append xs (x ∷ ys) r
      ∙ ap (◌++◌ (run_rules xs r)) (run_rules-throws x ys r e)
      ∙ sym (run_rules-append xs ys r) in
    (
      ap (λ is. record { resource_uid = r.uid; issues = is; summary = summarize is }) same,
      levels-add (run_rules (xs ++ x ∷ ys) r),
    )

-- A pod specification that lists its containers, which are hardened, as its init containers are, and
-- probed. Without such a list nothing is asked.
abbrev pub IsCleanPod : Option (List Container) → List Container → Type 0
IsCleanPod none inits = Unit
IsCleanPod (some cs) inits = All IsHardened cs × All IsHardened inits × All IsProbed cs

-- What is asked of the template of a resource, or of the resource itself where it has none.
abbrev pub IsClean : Option Spec → Type 0
IsClean none = Unit
IsClean (some s) = elim s.template [
  | none ↦ IsCleanPod s.own.containers (or_else s.own.init_containers [])
  | some t ↦ IsCleanPod t.containers (or_else t.init_containers [])
]

-- What the rules ask of the pod specification that they read.
abbrev IsCleanIn : Option PodSpec → Type 0
IsCleanIn none = Unit
IsCleanIn (some p) =
    All (λ x. IsHardened x.c) (all_containers p) × All IsProbed (or_else p.containers [])

All-both {ℓ} :
    {A : Type ℓ} (P Q : A → Type 0) (xs : List A) → All P xs → All Q xs → All (λ x. P x × Q x) xs
All-both P Q [] h k = tt
All-both P Q (x ∷ xs) h k = ((h.0, k.0), All-both P Q xs h.1 k.1)

-- The five lists of issues, for a specification that has containers.
found_in : PodSpec → List ScanIssue
found_in p =
    issues_where lacks_limits limits_issue (all_containers p)
    ++ (issues_where uses_latest latest_issue (all_containers p)
        ++ (issues_where (λ c. not c.liveness_probe) liveness_issue (or_else p.containers [])
            ++ (issues_where (λ c. not c.readiness_probe) readiness_issue (or_else p.containers [])
                ++ sensitive_issues (all_containers p))))

run_rules-found :
    (x : ScannerRule) (xs : List ScannerRule) (r : Resource) {found later : List ScanIssue}
    → x.validate r ≡ some found
    → run_rules xs r ≡ later
    → run_rules (x ∷ xs) r ≡ found ++ later
unfolding run_rules
run_rules-found x xs r {found} e h = rw e (ap (◌++◌ found) h)

in_spec-some :
    (check : PodSpec → List ScanIssue) (r : Resource) (p : PodSpec)
    → scanned_spec r ≡ some p
    → in_spec check r ≡ some (check p)
in_spec-some check r p e = rw (e, in_spec)

in_spec-none :
    (check : PodSpec → List ScanIssue) (r : Resource)
    → scanned_spec r ≡ none
    → in_spec check r ≡ some []
in_spec-none check r e = rw (e, in_spec)

run-best_practice :
    (r : Resource) (p : PodSpec)
    → scanned_spec r ≡ some p
    → run_rules best_practice_rules r ≡ found_in p
unfolding best_practice_rules found_in no_resource_limits latest_image_tag missing_liveness_probe
    missing_readiness_probe sensitive_env_var
run-best_practice r p e = run_rules-found _ _ r (in_spec-some _ r p e) (
    run_rules-found _ _ r (in_spec-some _ r p e) (
      run_rules-found _ _ r (in_spec-some _ r p e) (
        run_rules-found _ _ r (in_spec-some _ r p e)
          (run_rules-found _ [] r (in_spec-some _ r p e) nothing ∙ append-nil _))))
  where
    nothing : run_rules [] r ≡ []
    nothing = unfold run_rules in refl

scan_unread : (r : Resource) → scanned_spec r ≡ none → run_rules best_practice_rules r ≡ []
unfolding best_practice_rules no_resource_limits latest_image_tag missing_liveness_probe
    missing_readiness_probe sensitive_env_var
scan_unread r e = run_rules-found _ _ r (in_spec-none _ r e) (
    run_rules-found _ _ r (in_spec-none _ r e) (
      run_rules-found _ _ r (in_spec-none _ r e) (
        run_rules-found _ _ r (in_spec-none _ r e)
          (run_rules-found _ [] r (in_spec-none _ r e) (unfold run_rules in refl)))))

found_in_iff : (p : PodSpec) → (found_in p ≡ []) ↔ IsCleanIn (some p)
unfolding found_in
found_in_iff p =
    let all = all_containers p in
    let own = or_else p.containers [] in
    let s1 = append-eq-nil (issues_where lacks_limits limits_issue all) _ in
    let s2 = append-eq-nil (issues_where uses_latest latest_issue all) _ in
    let s3 = append-eq-nil (issues_where (λ c. not c.liveness_probe) liveness_issue own) _ in
    let s4 = append-eq-nil (issues_where (λ c. not c.readiness_probe) readiness_issue own) _ in
    let limits = issues_where_iff lacks_limits limits_issue all in
    let latest = issues_where_iff uses_latest latest_issue all in
    let live = issues_where_iff (λ (c : Container). not c.liveness_probe) liveness_issue own in
    let ready = issues_where_iff (λ (c : Container). not c.readiness_probe) readiness_issue own in
    let limits' =
      All-iff _ (λ (x : Prefixed). IsGiven x.c.cpu_limit × IsGiven x.c.memory_limit) all
        lacks_limits_iff in
    let latest' = All-iff _ (λ (x : Prefixed). IsPinned x.c.image) all uses_latest_iff in
    let vars = sensitive_issues_iff all in
    (
      λ h.
          let (a, h2) = s1.0 h in
          let (b, h3) = s2.0 h2 in
          let (c, h4) = s3.0 h3 in
          let (d, e) = s4.0 h4 in
          (
            hardened all (limits'.0 (limits.0 a)) (latest'.0 (latest.0 b)) (vars.0 e),
            probed own (live.0 c) (ready.0 d),
          ),
      λ (h, k). s1.1 (
        limits.1 (limits'.1 (limited all h)),
        s2.1 (
          latest.1 (latest'.1 (pinned all h)),
          s3.1 (live.1 (alive own k), s4.1 (ready.1 (served own k), vars.1 (harmless all h))),
        ),
      ),
    )
  where
    hardened :
        (xs : List Prefixed)
        → All (λ x. IsGiven x.c.cpu_limit × IsGiven x.c.memory_limit) xs
        → All (λ x. IsPinned x.c.image) xs
        → All (λ x. All IsHarmless x.c.env) xs
        → All (λ x. IsHardened x.c) xs
    hardened [] a b c = tt
    hardened (x ∷ xs) a b c = ((a.0.0, a.0.1, b.0, c.0), hardened xs a.1 b.1 c.1)

    limited :
        (xs : List Prefixed)
        → All (λ x. IsHardened x.c) xs
        → All (λ x. IsGiven x.c.cpu_limit × IsGiven x.c.memory_limit) xs
    limited [] h = tt
    limited (x ∷ xs) h = ((h.0.0, h.0.1), limited xs h.1)

    pinned : (xs : List Prefixed) → All (λ x. IsHardened x.c) xs → All (λ x. IsPinned x.c.image) xs
    pinned [] h = tt
    pinned (x ∷ xs) h = (h.0.2, pinned xs h.1)

    harmless :
        (xs : List Prefixed) → All (λ x. IsHardened x.c) xs → All (λ x. All IsHarmless x.c.env) xs
    harmless [] h = tt
    harmless (x ∷ xs) h = (h.0.3, harmless xs h.1)

    probed :
        (cs : List Container)
        → All (λ c. not c.liveness_probe ≡ false) cs
        → All (λ c. not c.readiness_probe ≡ false) cs
        → All IsProbed cs
    probed [] a b = tt
    probed (c ∷ cs) a b = ((ground arith, ground arith), probed cs a.1 b.1)

    alive : (cs : List Container) → All IsProbed cs → All (λ c. not c.liveness_probe ≡ false) cs
    alive [] h = tt
    alive (c ∷ cs) h = (ground arith, alive cs h.1)

    served : (cs : List Container) → All IsProbed cs → All (λ c. not c.readiness_probe ≡ false) cs
    served [] h = tt
    served (c ∷ cs) h = (ground arith, served cs h.1)

prefixed_iff :
    (prefix : String) (cs : List Container) (more : List Prefixed)
    → All (λ x. IsHardened x.c) (prefixed prefix cs ++ more)
      ↔ (All IsHardened cs × All (λ x. IsHardened x.c) more)
prefixed_iff prefix [] more = (λ h. (tt, h), λ (a, b). b)
prefixed_iff prefix (c ∷ cs) more =
    let ih = prefixed_iff prefix cs more in
    (λ h. let (a, b) = ih.0 h.1 in ((h.0, a), b), λ (a, b). (a.0, ih.1 (a.1, b)))

All-prefixed_iff :
    (prefix : String) (cs : List Container)
    → All (λ x. IsHardened x.c) (prefixed prefix cs) ↔ All IsHardened cs
All-prefixed_iff prefix [] = (λ h. tt, λ h. tt)
All-prefixed_iff prefix (c ∷ cs) =
    let ih = All-prefixed_iff prefix cs in (λ h. (h.0, ih.0 h.1), λ h. (h.0, ih.1 h.1))

IsCleanPod-iff :
    (containers inits : Option (List Container))
    → IsCleanIn
        (with_containers (some (record { containers = containers; init_containers = inits })))
      ↔ IsCleanPod containers (or_else inits [])
unfolding all_containers
IsCleanPod-iff none inits = (λ h. tt, λ h. tt)
IsCleanPod-iff (some cs) inits =
    let both = prefixed_iff "containers" cs (prefixed "initContainers" (or_else inits [])) in
    let later = All-prefixed_iff "initContainers" (or_else inits []) in
    (λ (h, k). let (a, b) = both.0 h in (a, later.0 b, k), λ (a, b, k). (both.1 (a, later.1 b), k))

IsClean-template_iff :
    (own : PodSpec) (template job : Option PodSpec)
    → let s : Spec = record { own = own; template = template; job_template = job } in
      IsCleanIn (with_containers (spec_of (some s))) ↔ IsClean (some s)
IsClean-template_iff own none job = IsCleanPod-iff own.containers own.init_containers
IsClean-template_iff own (some t) job = IsCleanPod-iff t.containers t.init_containers

IsClean-iff : (o : Option Spec) → IsCleanIn (with_containers (spec_of o)) ↔ IsClean o
IsClean-iff none = (λ h. tt, λ h. tt)
IsClean-iff (some s) = IsClean-template_iff s.own s.template s.job_template

read_iff : (r : Resource) → ((scan new_engine r).issues ≡ []) ↔ IsCleanIn (scanned_spec r)
unfolding scan new_engine
read_iff r = elim (Option-cases (scanned_spec r)) [
  | inl e ↦ rw (e, scan_unread r e) (λ h. tt, λ h. refl)
  | inr (p, e) ↦ rw (e, run-best_practice r p e) (found_in_iff p)
]

-- The engine finds nothing exactly if, in the template of the resource or else in its own
-- specification, no list of containers is given, or each container and init container has both
-- limits, an image that is absent or named with a colon and without `:latest` at its end, and no
-- variable that is named like a secret and has a value of its own, and each container has both
-- probes.
pub scan-nil_iff : (r : Resource) → ((scan new_engine r).issues ≡ []) ↔ IsClean r.spec
scan-nil_iff r =
    let read = read_iff r in
    let clean = IsClean-iff r.spec in (λ h. clean.0 (read.0 h), λ h. read.1 (clean.1 h))
