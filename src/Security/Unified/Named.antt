-- ===== src/Security/Unified/Named.antt =====
-- How the rows of renderer/utils/security/buildUnifiedResults.ts are named.
use mathlib.Core.Path.{subst}
use podscape.Common.{
  String, List, [], ◌∷◌, ◌==◌, ◌≡◌, ◌⊎◌, inl, inr, refl, All, or_else, eq_iff, Bool-cases,
}
use podscape.Common.Maps.{put, at_key}
use podscape.Security.Unified.{
  UnifiedResource, TrivyResource, KubesecItem, ResourceMap, key_of, scanned, add_scans,
  empty_resource, add_trivy, named_by, add_kubesec, resource_map,
}
use podscape.Security.Unified.Conserved.{Scan}
use podscape.Security.Unified.Placed.{key_at}

-- A row whose namespace, name and kind make its key, or are the parts into which the key is cut.
abbrev pub IsNamed : String → UnifiedResource → Type 0
IsNamed k u =
    (key_at u.namespace u.name u.kind ≡ k)
    ⊎ ((u.namespace ≡ (named_by k).namespace)
        × (u.name ≡ (named_by k).name)
        × (u.kind ≡ (named_by k).kind))

abbrev IsNamedRow : String × UnifiedResource → Type 0
IsNamedRow p = IsNamed p.0 p.1

put-IsNamed :
    (k : String) (u : UnifiedResource) (m : ResourceMap)
    → IsNamed k u
    → All IsNamedRow m
    → All IsNamedRow (put k u m)
unfolding put
put-IsNamed k u [] n h = (n, tt)
put-IsNamed k u ((l, v) ∷ m) n h = elim (Bool-cases (l == k)) [
  | inl same ↦ rw same (n, h.1)
  | inr other ↦ rw other (h.0, put-IsNamed k u m n h.1)
]

-- The row at a key, or a new one that is named by it.
at_key-IsNamed :
    (k : String) (u : UnifiedResource) (m : ResourceMap)
    → IsNamed k u
    → All IsNamedRow m
    → IsNamed k (or_else (at_key k m) u)
unfolding at_key
at_key-IsNamed k u [] n h = n
at_key-IsNamed k u ((l, v) ∷ m) n h = elim (Bool-cases (l == k)) [
  | inl same ↦ rw same (subst (λ j. IsNamed j v) ((eq_iff l k).0 same) h.0)
  | inr other ↦ rw other (at_key-IsNamed k u m n h.1)
]

add_scans-IsNamed :
    (xs : List Scan) (m : ResourceMap) → All IsNamedRow m → All IsNamedRow (add_scans xs m)
unfolding add_scans key_of scanned
add_scans-IsNamed [] m h = h
add_scans-IsNamed ((r, issues) ∷ more) m h =
    let key = key_of r.namespace r.name r.kind in
    add_scans-IsNamed more _ (put-IsNamed key (scanned r issues) m (inl refl) h)

add_trivy-IsNamed :
    (rs : List TrivyResource) (m : ResourceMap) → All IsNamedRow m → All IsNamedRow (add_trivy rs m)
unfolding add_trivy key_of
add_trivy-IsNamed [] m h = h
add_trivy-IsNamed (res ∷ more) m h =
    let key = key_of res.namespace res.name res.kind in
    let fresh = empty_resource res.namespace res.name res.kind in
    let old : IsNamed key (or_else (at_key key m) fresh) =
      at_key-IsNamed key fresh m (inl refl) h in
    add_trivy-IsNamed more _ (put-IsNamed key _ m old h)

add_kubesec-IsNamed :
    (ks : List (String × List KubesecItem)) (m : ResourceMap)
    → All IsNamedRow m
    → All IsNamedRow (add_kubesec ks m)
unfolding add_kubesec
add_kubesec-IsNamed [] m h = h
add_kubesec-IsNamed ((key, []) ∷ more) m h = add_kubesec-IsNamed more m h
add_kubesec-IsNamed ((key, item ∷ items) ∷ more) m h =
    let fresh : IsNamed key (named_by key) = inr (refl, refl, refl) in
    let old : IsNamed key (or_else (at_key key m) (named_by key)) =
      at_key-IsNamed key (named_by key) m fresh h in
    add_kubesec-IsNamed more _ (put-IsNamed key _ m old h)

pub resource_map-IsNamed :
    (scans : List Scan) (trivy : List TrivyResource)
    (kubesec_results : List (String × List KubesecItem))
    → All (λ p. IsNamed p.0 p.1) (resource_map scans trivy kubesec_results)
resource_map-IsNamed scans trivy kubesec_results =
    add_kubesec-IsNamed kubesec_results _
      (add_trivy-IsNamed trivy _ (add_scans-IsNamed scans [] tt))
