-- ===== src/Security/Scope.antt =====
-- What a scan covers: the choice of the workloads in `scanSecurity` of
-- renderer/store/slices/analysisSlice.ts, and `filterTrivyByScope` of renderer/store/resourceConfig.ts.
-- The lists of the store come in as one list of workloads.
pub mod Chosen
mod Tests
use podscape.Common.{
  ℕ, String, Bool, true, false, not, ◌||◌, Option, none, some, List, [], ◌∷◌, ◌==◌, any, filter,
  or_else, truthy, codes, to_lower, codes_eq, if◌then◌else◌,
}
use podscape.Security.Kube.{Resource}
use podscape.Security.Unified.{TrivyResource}

pub record CustomScanOptions : Type 0 where
  pub namespaces : List String
  pub kinds : List String
  pub run_trivy : Bool
  pub run_kubesec : Bool
  pub selected_images : Option (List String)

abbrev pub has : String → List String → Bool
has k = any (λ x. x == k)

-- Equal in lower case.
abbrev pub same_kind : String → String → Bool
same_kind a b = codes_eq (to_lower (codes a)) (to_lower (codes b))

abbrev pub has_kind : String → List String → Bool
has_kind k = any (λ x. same_kind x k)

abbrev pub is_empty : List String → Bool
is_empty [] = true
is_empty (_ ∷ _) = false

-- `w.metadata.namespace || ''`, and the same of the kind.
abbrev pub namespace_of : Resource → String
namespace_of w = or_else w.namespace ""

abbrev pub kind_of : Resource → String
kind_of w = or_else w.kind ""

pub by_namespace : List String → List Resource → List Resource
by_namespace namespaces ws =
    if is_empty namespaces then ws else filter (λ w. has (namespace_of w) namespaces) ws

pub by_kind : List String → List Resource → List Resource
by_kind kinds ws = if is_empty kinds then ws else filter (λ w. has_kind (kind_of w) kinds) ws

abbrev pub selected_kinds : Option CustomScanOptions → List String
selected_kinds none = []
selected_kinds (some o) = o.kinds

unfoldable pub in_options : Option CustomScanOptions → List Resource → List Resource
in_options none ws = ws
in_options (some o) ws = by_kind o.kinds (by_namespace o.namespaces ws)

-- Pods repeat the findings of their controllers, unless they are asked for.
unfoldable pub workloads_in_scope : Option CustomScanOptions → List Resource → List Resource
workloads_in_scope o ws =
    let chosen = in_options o ws in
    if has_kind "pod" (selected_kinds o)
    then chosen
    else filter (λ w. not (kind_of w == "Pod")) chosen

unfoldable pub runs_trivy : Option CustomScanOptions → Bool
runs_trivy none = true
runs_trivy (some o) = o.run_trivy

unfoldable pub runs_kubesec : Option CustomScanOptions → Bool
runs_kubesec none = true
runs_kubesec (some o) = o.run_kubesec

abbrev pub is_listed : List String → Option String → Bool
is_listed ks none = false
is_listed ks (some k) = has k ks

-- The kinds are compared as they are written.
pub filter_trivy_by_scope : CustomScanOptions → List TrivyResource → List TrivyResource
filter_trivy_by_scope o rs =
    let in_namespaces =
      if is_empty o.namespaces then rs else filter (λ r. is_listed o.namespaces r.namespace) rs in
    if is_empty o.kinds then in_namespaces else filter (λ r. is_listed o.kinds r.kind) in_namespaces
