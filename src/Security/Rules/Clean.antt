-- ===== src/Security/Rules/Clean.antt =====
-- When the rules of renderer/utils/scanner/bestPracticeRules.ts find nothing, in the words of
-- Kubernetes.
use podscape.Common.{
  String, Bool, true, false, ◌||◌, Option, none, some, List, [], ◌∷◌, ◌++◌, ◌==◌, ◌≡◌, ◌≢◌, ◌⊎◌,
  ◌↔◌, inl, inr, refl, any, truthy, is_some, codes, to_upper, includes, All, arith, Bool-cases,
  eq_iff,
}
use podscape.Common.Substrings.{Occurs, IsSuffix, includes_iff, ends_with_iff}
use podscape.Security.Kube.{EnvVar, Container}
use podscape.Security.Rules.{
  ScanIssue, Prefixed, sensitive_keywords, issues_where, lacks_limits, uses_latest, image_is_latest,
  image_has_no_tag, is_sensitive, sensitive_issue, sensitive_issues,
}

-- A text that is there and not empty.
abbrev pub IsGiven : Option String → Type 0
IsGiven none = ⊥
IsGiven (some s) = s ≢ ""

-- An image that is absent, or whose name has a colon and does not end in `:latest`.
abbrev pub IsPinned : Option String → Type 0
IsPinned none = Unit
IsPinned (some i) =
    (i ≡ "") ⊎ (Occurs (codes ":") (codes i) × ¬ IsSuffix (codes ":latest") (codes i))

-- What the name of a variable may not hold.
abbrev pub secret_words : List String
secret_words = "PASSWORD" ∷ "TOKEN" ∷ "SECRET" ∷ "KEY" ∷ "AUTH" ∷ "API_KEY" ∷ []

-- A variable with no value of its own, or with a name that holds none of the words, in upper case.
abbrev pub IsHarmless : EnvVar → Type 0
IsHarmless e =
    (¬ IsGiven e.value) ⊎ All (λ k. ¬ Occurs (codes k) (to_upper (codes e.name))) secret_words

abbrev pub IsHardened : Container → Type 0
IsHardened c =
    IsGiven c.cpu_limit × IsGiven c.memory_limit × IsPinned c.image × All IsHarmless c.env

abbrev pub IsProbed : Container → Type 0
IsProbed c = (c.liveness_probe ≡ true) × (c.readiness_probe ≡ true)

pub is_some-truthy_iff : (o : Option String) → (is_some (truthy o) ≡ true) ↔ IsGiven o
is_some-truthy_iff none = (λ h. cc, λ h. absurd h)
is_some-truthy_iff (some s) =
    (λ h e. ground (arith, eq_iff s ""), λ h. ground (arith, eq_iff s "", h))

pub lacks_limits_iff :
    (x : Prefixed) → (lacks_limits x ≡ false) ↔ (IsGiven x.c.cpu_limit × IsGiven x.c.memory_limit)
unfolding lacks_limits
lacks_limits_iff x =
    let cpu = is_some-truthy_iff x.c.cpu_limit in
    let memory = is_some-truthy_iff x.c.memory_limit in
    (
      λ h. (cpu.0 (ground arith), memory.0 (ground arith)),
      λ (a, b). ground (arith, cpu.1 a, memory.1 b),
    )

not_true : {b : Bool} {P : Type 0} → (b ≡ true) ↔ P → (b ≡ false) ↔ (¬ P)
not_true {b} e =
    (λ h p. cc (e.1 p), λ n. elim (Bool-cases b) [ inl t ↦ absurd (n (e.0 t)) | inr f ↦ f ])

module _ (i : String) where
  IsPinned-of_test :
      (image_is_latest (some i) || image_has_no_tag (truthy (some i))) ≡ false → IsPinned (some i)
  IsPinned-of_test h = elim (Bool-cases (i == "")) [
    | inl empty ↦ inl ((eq_iff i "").0 empty)
    | inr full ↦ inr (
      (includes_iff (codes i) (codes ":")).0 (ground arith),
      (not_true (ends_with_iff (codes i) (codes ":latest"))).0 (ground arith),
    )
  ]

  test_of_pinned :
      IsPinned (some i) → (image_is_latest (some i) || image_has_no_tag (truthy (some i))) ≡ false
  test_of_pinned (inl empty) = rw empty refl
  test_of_pinned (inr (colon, other)) = ground (
    arith,
    (includes_iff (codes i) (codes ":")).1 colon,
    (not_true (ends_with_iff (codes i) (codes ":latest"))).1 other,
  )

image_iff :
    (o : Option String) → ((image_is_latest o || image_has_no_tag (truthy o)) ≡ false) ↔ IsPinned o
image_iff none = (λ h. tt, λ h. refl)
image_iff (some i) = (IsPinned-of_test i, test_of_pinned i)

pub uses_latest_iff : (x : Prefixed) → (uses_latest x ≡ false) ↔ IsPinned x.c.image
unfolding uses_latest
uses_latest_iff x = image_iff x.c.image

any_iff {ℓ} :
    {A : Type ℓ} (p : A → Bool) (P : A → Type 0) (xs : List A)
    → ((x : A) → (p x ≡ true) ↔ P x)
    → (any p xs ≡ false) ↔ All (λ x. ¬ P x) xs
any_iff p P [] e = (λ h. tt, λ h. refl)
any_iff p P (x ∷ xs) e =
    let ih = any_iff p P xs e in
    let here = not_true (e x) in
    (λ h. (here.0 (ground arith), ih.0 (ground arith)), λ (a, b). ground (arith, here.1 a, ih.1 b))

is_sensitive_iff : (e : EnvVar) → (is_sensitive e ≡ false) ↔ IsHarmless e
unfolding is_sensitive
is_sensitive_iff e =
    let given = not_true (is_some-truthy_iff e.value) in
    let name = to_upper (codes e.name) in
    let named =
      any_iff (λ (k : String). includes name (codes k)) (λ k. Occurs (codes k) name)
        sensitive_keywords (λ k. includes_iff name (codes k)) in
    (
      λ h. elim (Bool-cases (is_some (truthy e.value))) [
        | inl there ↦ inr (named.0 (ground arith))
        | inr missing ↦ inl (given.0 missing)
      ],
      λ h. elim h [
        | inl missing ↦ ground (arith, given.1 missing)
        | inr other ↦ ground (arith, named.1 other)
      ],
    )

-- The loop finds nothing exactly if every element passes.
pub issues_where_iff {ℓ} :
    {A : Type ℓ} (bad : A → Bool) (issue : A → ScanIssue) (xs : List A)
    → (issues_where bad issue xs ≡ []) ↔ All (λ x. bad x ≡ false) xs
unfolding issues_where
issues_where_iff bad issue [] = (λ h. tt, λ h. refl)
issues_where_iff bad issue (x ∷ xs) =
    let ih = issues_where_iff bad issue xs in
    (λ h. (ground arith, ih.0 (ground arith)), λ (a, b). ground (arith, ih.1 b))

pub All-iff {ℓ} :
    {A : Type ℓ} (P Q : A → Type 0) (xs : List A) → ((x : A) → P x ↔ Q x) → All P xs ↔ All Q xs
All-iff P Q [] e = (λ h. tt, λ h. tt)
All-iff P Q (x ∷ xs) e =
    let ih = All-iff P Q xs e in (λ (a, b). ((e x).0 a, ih.0 b), λ (a, b). ((e x).1 a, ih.1 b))

pub append-eq-nil : (xs ys : List ScanIssue) → (xs ++ ys ≡ []) ↔ ((xs ≡ []) × (ys ≡ []))
append-eq-nil [] ys = (λ h. (refl, h), λ (a, b). b)
append-eq-nil (x ∷ xs) ys = (λ h. cc, λ (a, b). cc)

pub sensitive_issues_iff :
    (xs : List Prefixed) → (sensitive_issues xs ≡ []) ↔ All (λ x. All IsHarmless x.c.env) xs
unfolding sensitive_issues
sensitive_issues_iff [] = (λ h. tt, λ h. refl)
sensitive_issues_iff (x ∷ xs) =
    let ih = sensitive_issues_iff xs in
    let split = append-eq-nil (issues_where is_sensitive (sensitive_issue x) x.c.env) _ in
    let here = issues_where_iff is_sensitive (sensitive_issue x) x.c.env in
    let vars = All-iff (λ e. is_sensitive e ≡ false) IsHarmless x.c.env is_sensitive_iff in
    (
      λ h. (vars.0 (here.0 (split.0 h).0), ih.0 (split.0 h).1),
      λ (a, b). split.1 (here.1 (vars.1 a), ih.1 b),
    )
