-- ===== src/Panels/Connectivity/Policies.antt =====
-- The network policies that renderer/components/advanced/ConnectivityTester.tsx picks to explain a
-- probe that failed.
use podscape.Common.{
  String, Bool, true, false, not, ◌&&◌, ◌||◌, ◌==◌, Option, none, some, List, [], all, any, filter,
  length, eqb, ltb, or_else, same_option,
}
use podscape.Common.Maps.{at_key}

abbrev pub Labels : Type 0
Labels = List (String × String)

unfoldable pub labels_match_selector : Option Labels → Labels → Bool
labels_match_selector none labels = true
labels_match_selector (some wanted) labels =
    all (λ w. same_option (at_key w.0 labels) (some w.1)) wanted

-- A policy, with the rules of each direction, if it has any.
pub record NetworkPolicy : Type 0 where
  pub name : String
  pub match_labels : Option Labels
  pub policy_types : Option (List String)
  pub ingress : Option (List String)
  pub egress : Option (List String)

abbrev pub has_type : String → List String → Bool
has_type t types = any (λ x. x == t) types

abbrev pub is_given : Option (List String) → Bool
is_given none = false
is_given (some rules) = true

unfoldable pub restricts : String → Option (List String) → NetworkPolicy → Bool
restricts t rules np =
    let types = or_else np.policy_types [] in
    has_type t types || (eqb (length types) 0 && is_given rules)

unfoldable pub is_ingress_restricted : NetworkPolicy → Bool
is_ingress_restricted np = restricts "Ingress" np.ingress np

unfoldable pub is_egress_restricted : NetworkPolicy → Bool
is_egress_restricted np = restricts "Egress" np.egress np

unfoldable pub ingress_pols : List NetworkPolicy → List NetworkPolicy
ingress_pols = filter is_ingress_restricted

unfoldable pub egress_pols : Labels → List NetworkPolicy → List NetworkPolicy
egress_pols source_labels =
    filter (λ np. is_egress_restricted np && labels_match_selector np.match_labels source_labels)

-- `!(rules && rules.length > 0)`.
unfoldable pub is_deny_all : Option (List String) → Bool
is_deny_all rules = not (ltb 0 (length (or_else rules [])))
