-- ===== src/Security/Scope/Chosen.antt =====
-- Which workloads and Trivy results are in the scope of a scan.
use podscape.Common.{
  ℕ, any, or_else, codes, codes_eq, to_lower, lower_code, eqb, leb, ◌+◌, String, Bool, true, false,
  not, ◌&&◌, ◌||◌, Option, none, some, List, [], ◌∷◌, ◌==◌, filter, if◌then◌else◌, ◌≡◌, refl, ◌∙◌,
  ap, arith,
}
use podscape.Security.Kube.{Resource}
use podscape.Security.Unified.{TrivyResource}
use podscape.Security.Scope.{
  CustomScanOptions, has, has_kind, is_empty, namespace_of, kind_of, by_namespace, by_kind,
  selected_kinds, in_options, workloads_in_scope, is_listed, filter_trivy_by_scope,
}

-- The same letter, in either case.
abbrev same_letter : ℕ → ℕ → Bool
same_letter c d =
    eqb c d
    || ((leb 65 c && leb c 90) && eqb (c + 32) d)
    || ((leb 65 d && leb d 90) && eqb (d + 32) c)

abbrev pub same_letters : List ℕ → List ℕ → Bool
same_letters [] [] = true
same_letters [] (d ∷ ds) = false
same_letters (c ∷ cs) [] = false
same_letters (c ∷ cs) (d ∷ ds) = same_letter c d && same_letters cs ds

-- A kind that is one of these, in any case.
abbrev pub is_kind : List String → String → Bool
is_kind kinds kind = any (λ k. same_letters (codes k) (codes kind)) kinds

abbrev is_one : List String → String → Bool
is_one names name = any (λ n. n == name) names

abbrev chosen_namespaces : Option CustomScanOptions → List String
chosen_namespaces none = []
chosen_namespaces (some o) = o.namespaces

abbrev chosen_kinds : Option CustomScanOptions → List String
chosen_kinds none = []
chosen_kinds (some o) = o.kinds

-- Nothing is asked, or the name is one of those that are.
abbrev is_free_or : List String → Bool → Bool
is_free_or [] b = true
is_free_or (n ∷ ns) b = b

-- In words: in one of the namespaces, if some are given; of one of the kinds, whatever their case, if
-- some are given; and no Pod, unless that kind is given.
unfoldable pub is_chosen : Option CustomScanOptions → Resource → Bool
is_chosen o w =
    (is_free_or (chosen_namespaces o) (is_one (chosen_namespaces o) (or_else w.namespace ""))
      && is_free_or (chosen_kinds o) (is_kind (chosen_kinds o) (or_else w.kind "")))
    && (is_kind (chosen_kinds o) "pod" || not (or_else w.kind "" == "Pod"))

abbrev is_given : List String → Option String → Bool
is_given names none = false
is_given names (some n) = is_one names n

unfoldable pub is_chosen_result : CustomScanOptions → TrivyResource → Bool
is_chosen_result o r =
    is_free_or o.namespaces (is_given o.namespaces r.namespace)
    && is_free_or o.kinds (is_given o.kinds r.kind)

letter-eq : (c d : ℕ) → eqb (lower_code c) (lower_code d) ≡ same_letter c d
letter-eq c d = ground arith

letters-eq : (s t : List ℕ) → codes_eq (to_lower s) (to_lower t) ≡ same_letters s t
letters-eq [] [] = refl
letters-eq [] (d ∷ ds) = refl
letters-eq (c ∷ cs) [] = refl
letters-eq (c ∷ cs) (d ∷ ds) = rw (letter-eq c d, letters-eq cs ds) refl

has_kind-eq : (kind : String) (kinds : List String) → has_kind kind kinds ≡ is_kind kinds kind
has_kind-eq kind [] = refl
has_kind-eq kind (k ∷ ks) = rw (letters-eq (codes k) (codes kind), has_kind-eq kind ks) refl

free-eq : (ns : List String) (b : Bool) → (is_empty ns || b) ≡ is_free_or ns b
free-eq [] b = refl
free-eq (n ∷ ns) b = refl

module _ {ℓ} {A : Type ℓ} where
  filter_unless :
      (b : Bool) (p : A → Bool) (xs : List A)
      → (if b then xs else filter p xs) ≡ filter (λ x. b || p x) xs
  filter_unless false p xs = refl
  filter_unless true p [] = refl
  filter_unless true p (x ∷ xs) = ap (λ ys. x ∷ ys) (filter_unless true p xs)

  filter-filter :
      (p q : A → Bool) (xs : List A) → filter q (filter p xs) ≡ filter (λ x. p x && q x) xs
  filter-filter p q [] = refl
  filter-filter p q (x ∷ xs) = ground (arith, filter-filter p q xs)

all_kept : (ws : List Resource) → ws ≡ filter (λ w. true) ws
all_kept [] = refl
all_kept (w ∷ ws) = ap (λ xs. w ∷ xs) (all_kept ws)

in_options-eq :
    (o : Option CustomScanOptions) (ws : List Resource)
    → in_options o ws
      ≡ filter
          (λ w.
            (is_empty (chosen_namespaces o) || has (namespace_of w) (chosen_namespaces o))
            && (is_empty (selected_kinds o) || has_kind (kind_of w) (selected_kinds o)))
          ws
unfolding in_options by_namespace by_kind
in_options-eq none ws = all_kept ws
in_options-eq (some o) ws =
    filter_unless (is_empty o.kinds) (λ w. has_kind (kind_of w) o.kinds) _
    ∙ ap (filter (λ w. is_empty o.kinds || has_kind (kind_of w) o.kinds))
        (filter_unless (is_empty o.namespaces) (λ w. has (namespace_of w) o.namespaces) ws)
    ∙ filter-filter (λ w. is_empty o.namespaces || has (namespace_of w) o.namespaces)
        (λ w. is_empty o.kinds || has_kind (kind_of w) o.kinds) ws

filter-eq {ℓ} :
    {A : Type ℓ} (p q : A → Bool) (xs : List A) → ((x : A) → p x ≡ q x) → filter p xs ≡ filter q xs
filter-eq p q [] e = refl
filter-eq p q (x ∷ xs) e = ground (arith, e x, filter-eq p q xs e)

-- The tests of the code, in one.
abbrev passes : Option CustomScanOptions → Resource → Bool
passes o w =
    ((is_empty (chosen_namespaces o) || has (namespace_of w) (chosen_namespaces o))
      && (is_empty (selected_kinds o) || has_kind (kind_of w) (selected_kinds o)))
    && (has_kind "pod" (selected_kinds o) || not (kind_of w == "Pod"))

abbrev passes_result : CustomScanOptions → TrivyResource → Bool
passes_result o r =
    (is_empty o.namespaces || is_listed o.namespaces r.namespace)
    && (is_empty o.kinds || is_listed o.kinds r.kind)

passes-eq : (o : Option CustomScanOptions) (w : Resource) → passes o w ≡ is_chosen o w
unfolding is_chosen
passes-eq none w = refl
passes-eq (some o) w =
    rw
      (
        free-eq o.namespaces (has (namespace_of w) o.namespaces),
        free-eq o.kinds (has_kind (kind_of w) o.kinds),
        has_kind-eq (kind_of w) o.kinds,
        has_kind-eq "pod" o.kinds,
      )
      refl

is_listed-eq : (names : List String) (o : Option String) → is_listed names o ≡ is_given names o
is_listed-eq names none = refl
is_listed-eq names (some n) = refl

passes_result-eq :
    (o : CustomScanOptions) (r : TrivyResource) → passes_result o r ≡ is_chosen_result o r
unfolding is_chosen_result
passes_result-eq o r =
    rw
      (
        free-eq o.namespaces (is_listed o.namespaces r.namespace),
        free-eq o.kinds (is_listed o.kinds r.kind),
        is_listed-eq o.namespaces r.namespace,
        is_listed-eq o.kinds r.kind,
      )
      refl

-- A scan covers exactly the workloads that are chosen, in order: those in one of the namespaces, if
-- some are given, and of one of the kinds in any case, if some are given, without Pods unless that
-- kind is given; and of the results of Trivy those that are in the namespaces and of the kinds as
-- they are written.
pub workloads_in_scope-filter :
    (o : Option CustomScanOptions) (c : CustomScanOptions) (ws : List Resource)
    (rs : List TrivyResource)
    → (workloads_in_scope o ws ≡ filter (is_chosen o) ws)
      × (filter_trivy_by_scope c rs ≡ filter (is_chosen_result c) rs)
unfolding workloads_in_scope filter_trivy_by_scope
workloads_in_scope-filter o c ws rs =
    let keeps_pods = has_kind "pod" (selected_kinds o) in
    (
      filter_unless keeps_pods (λ w. not (kind_of w == "Pod")) (in_options o ws)
          ∙ ap (filter (λ w. keeps_pods || not (kind_of w == "Pod"))) (in_options-eq o ws)
          ∙ filter-filter _ (λ w. keeps_pods || not (kind_of w == "Pod")) ws
          ∙ filter-eq (passes o) (is_chosen o) ws (passes-eq o),
      filter_unless (is_empty c.kinds) (λ r. is_listed c.kinds r.kind) _
          ∙ ap (filter (λ r. is_empty c.kinds || is_listed c.kinds r.kind))
              (filter_unless (is_empty c.namespaces) (λ r. is_listed c.namespaces r.namespace) rs)
          ∙ filter-filter (λ r. is_empty c.namespaces || is_listed c.namespaces r.namespace)
              (λ r. is_empty c.kinds || is_listed c.kinds r.kind) rs
          ∙ filter-eq (passes_result c) (is_chosen_result c) rs (passes_result-eq c),
    )
