-- ===== src/Security/Unified/Conserved.antt =====
-- What `buildUnifiedResults` keeps of the findings that it is given.
use podscape.Common.{
  ℕ, String, Bool, true, false, Option, none, some, List, [], ◌∷◌, ◌==◌, map, length, length-append,
  length-map, sum_of, any, All, or_else, ◌+◌, ◌≡◌, refl, ◌∙◌, arith,
}
use podscape.Common.Maps.{put, at_key, at_key-put-other}
use podscape.Common.Sorting.{IsSorted, sort_by-IsSorted, sum-sort_by}
use podscape.Security.Kube.{Resource}
use podscape.Security.Rules.{ScanIssue}
use podscape.Security.Unified.{
  UnifiedResource, Vulnerability, TrivyResult, TrivyResource, KubesecItem, ResourceMap, key_of,
  scanned, add_scans, from_scanner, vulnerability_of, vulnerabilities_of, empty_resource,
  with_vulnerabilities, add_trivy, named_by, kubesec_issue, with_issues, add_kubesec, values, size,
  larger, build_unified_results,
}

abbrev pub Scan : Type 0
Scan = Resource × List ScanIssue

abbrev pub scan_key : Scan → String
scan_key (r, issues) = key_of r.namespace r.name r.kind

abbrev pub same_key : Scan → Scan → Bool
same_key x y = scan_key x == scan_key y

-- Each resource is scanned once.
abbrev pub IsDistinct : List Scan → Type 0
IsDistinct [] = Unit
IsDistinct (x ∷ xs) = (any (same_key x) xs ≡ false) × IsDistinct xs

-- The findings of one source.
abbrev pub scan_count : Scan → ℕ
scan_count (r, issues) = length issues

abbrev pub result_count : TrivyResult → ℕ
result_count tr = length (or_else tr.vulnerabilities [])

abbrev pub trivy_count : TrivyResource → ℕ
trivy_count res = sum_of result_count (or_else res.results [])

abbrev pub kubesec_count : String × List KubesecItem → ℕ
kubesec_count (key, items) = length items

abbrev total : ResourceMap → ℕ
total m = sum_of size (values m)

abbrev size_at : Option UnifiedResource → ℕ
size_at none = 0
size_at (some u) = size u

total-put :
    (k : String) (u : UnifiedResource) (m : ResourceMap)
    → total (put k u m) + size_at (at_key k m) ≡ total m + size u
unfolding put at_key
total-put k u [] = omega arith
total-put k u ((l, v) ∷ m) = ground (arith, total-put k u m)

size-scanned : (r : Resource) (issues : List ScanIssue) → size (scanned r issues) ≡ length issues
unfolding size scanned
size-scanned r issues = omega (arith, length-map from_scanner issues)

pub put-absent :
    (x : Scan) (xs : List Scan) (u : UnifiedResource) (m : ResourceMap)
    → any (same_key x) xs ≡ false
    → All (λ y. at_key (scan_key y) m ≡ none) xs
    → All (λ y. at_key (scan_key y) (put (scan_key x) u m) ≡ none) xs
put-absent x [] u m d h = tt
put-absent x (y ∷ ys) u m d h = (
  at_key-put-other (scan_key x) (scan_key y) u m (ground arith) ∙ h.0,
  put-absent x ys u m (ground arith) h.1,
)

total-add_scans :
    (xs : List Scan) (m : ResourceMap)
    → IsDistinct xs
    → All (λ y. at_key (scan_key y) m ≡ none) xs
    → total (add_scans xs m) ≡ total m + sum_of scan_count xs
unfolding add_scans
total-add_scans [] m d h = omega arith
total-add_scans ((r, issues) ∷ more) m d h =
    let u = scanned r issues in
    let k = key_of r.namespace r.name r.kind in
    let ih = total-add_scans more (put k u m) d.1 (put-absent (r, issues) more u m d.0 h.1) in
    let grown : total (put k u m) + size_at none ≡ total m + size u = rw h.0 at (total-put k u m) in
    omega (arith, ih, grown, size-scanned r issues)

length-vulnerabilities_of :
    (trs : List TrivyResult) → length (vulnerabilities_of trs) ≡ sum_of result_count trs
unfolding vulnerabilities_of
length-vulnerabilities_of [] = omega arith
length-vulnerabilities_of (tr ∷ trs) =
    let vs = or_else tr.vulnerabilities [] in
    omega (
      arith,
      length-append (map (vulnerability_of tr) vs) (vulnerabilities_of trs),
      length-map (vulnerability_of tr) vs,
      length-vulnerabilities_of trs,
    )

size-with_vulnerabilities :
    (vs : List Vulnerability) (u : UnifiedResource)
    → size (with_vulnerabilities vs u) ≡ size u + length vs
unfolding size
size-with_vulnerabilities vs u = omega (arith, length-append u.vulnerabilities vs)

size-with_issues :
    (items : List KubesecItem) (u : UnifiedResource)
    → size (with_issues items u) ≡ size u + length items
unfolding size
size-with_issues items u =
    omega (arith, length-append u.issues (map kubesec_issue items), length-map kubesec_issue items)

-- A new resource starts without findings.
size-or_else :
    (o : Option UnifiedResource) (u : UnifiedResource) → size u ≡ 0 → size (or_else o u) ≡ size_at o
size-or_else none u h = h
size-or_else (some v) u h = refl

size-empty_resource :
    (namespace : Option String) (name : String) (kind : Option String)
    → size (empty_resource namespace name kind) ≡ 0
unfolding size
size-empty_resource namespace name kind = omega arith

size-named_by : (key : String) → size (named_by key) ≡ 0
unfolding size named_by
size-named_by key = omega arith

total-add_trivy :
    (rs : List TrivyResource) (m : ResourceMap)
    → total (add_trivy rs m) ≡ total m + sum_of trivy_count rs
unfolding add_trivy
total-add_trivy [] m = omega arith
total-add_trivy (res ∷ more) m =
    let k = key_of res.namespace res.name res.kind in
    let fresh = empty_resource res.namespace res.name res.kind in
    let found = vulnerabilities_of (or_else res.results []) in
    let u = with_vulnerabilities found (or_else (at_key k m) fresh) in
    omega (
      arith,
      total-add_trivy more (put k u m),
      total-put k u m,
      size-with_vulnerabilities found (or_else (at_key k m) fresh),
      size-or_else (at_key k m) fresh (size-empty_resource res.namespace res.name res.kind),
      length-vulnerabilities_of (or_else res.results []),
    )

total-add_kubesec :
    (ks : List (String × List KubesecItem)) (m : ResourceMap)
    → total (add_kubesec ks m) ≡ total m + sum_of kubesec_count ks
unfolding add_kubesec
total-add_kubesec [] m = omega arith
total-add_kubesec ((key, []) ∷ more) m = omega (arith, total-add_kubesec more m)
total-add_kubesec ((key, item ∷ items) ∷ more) m =
    let old = or_else (at_key key m) (named_by key) in
    let u = with_issues (item ∷ items) old in
    omega (
      arith,
      total-add_kubesec more (put key u m),
      total-put key u m,
      size-with_issues (item ∷ items) old,
      size-or_else (at_key key m) (named_by key) (size-named_by key),
    )

pub no_keys : (xs : List Scan) → All (λ y. at_key {A = UnifiedResource} (scan_key y) [] ≡ none) xs
unfolding at_key
no_keys [] = tt
no_keys (x ∷ xs) = (refl, no_keys xs)

larger_asym : (a b : UnifiedResource) → larger a b ≡ true → larger b a ≡ false
larger_asym a b h = ground arith

larger_trans :
    (a b c : UnifiedResource) → larger b a ≡ false → larger c b ≡ false → larger c a ≡ false
larger_trans a b c h k = ground arith

-- Where each resource is scanned once, no finding of the scanner, of Trivy or of Kubesec is lost or
-- shown twice: the findings of the rows add up to those of the three sources. The rows with the
-- most findings come first.
pub build_unified_results-IsSorted :
    (scans : List Scan) (trivy : List TrivyResource)
    (kubesec_results : List (String × List KubesecItem))
    → IsDistinct scans
    → let rows = build_unified_results scans trivy kubesec_results in
      (sum_of size rows
        ≡ sum_of scan_count scans + sum_of trivy_count trivy + sum_of kubesec_count kubesec_results)
      × IsSorted larger rows
unfolding build_unified_results
build_unified_results-IsSorted scans trivy kubesec_results d =
    let m1 = add_scans scans [] in
    let m2 = add_trivy trivy m1 in
    let rows = values (add_kubesec kubesec_results m2) in
    (
      omega (
        arith,
        sum-sort_by larger size rows,
        total-add_kubesec kubesec_results m2,
        total-add_trivy trivy m1,
        total-add_scans scans [] d (no_keys scans),
      ),
      sort_by-IsSorted larger larger_asym larger_trans rows,
    )
