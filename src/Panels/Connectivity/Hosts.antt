-- ===== src/Panels/Connectivity/Hosts.antt =====
-- Host names of services and pods in renderer/components/advanced/ConnectivityTester.tsx.
use podscape.Common.{
  ℕ, false, Option, none, some, [], ◌∷◌, ◌++◌, codes, eqb, or_else, if◌then◌else◌, ◌≡◌, refl, ◌∙◌,
  ap, arith,
}
use podscape.Common.Splits.{Text, split, IsFree, split-append}
use podscape.Panels.Connectivity.{
  or_text, build_service_dns_name, dashed, build_pod_dns_name, labels_before, parse_svc_dns,
  parse_pod_dns, second,
}

dashed-IsFree : (ip : Text) → IsFree b'.' (dashed ip)
unfolding dashed
dashed-IsFree [] = tt
dashed-IsFree (c ∷ cs) =
    let free : eqb (if eqb c b'.' then b'-' else c) b'.' ≡ false = ground arith in
    (free, dashed-IsFree cs)

-- A host of two labels and a suffix.
split-host :
    (a b suffix : Text)
    → IsFree b'.' a
    → IsFree b'.' b
    → split b'.' (a ++ b'.' ∷ (b ++ b'.' ∷ suffix)) ≡ a ∷ b ∷ split b'.' suffix
split-host a b suffix ha hb =
    split-append b'.' a (b ++ b'.' ∷ suffix) ha ∙ ap (◌∷◌ a) (split-append b'.' b suffix hb)

or_text-IsFree : (a b : Text) → IsFree b'.' a → IsFree b'.' b → IsFree b'.' (or_text a b)
or_text-IsFree [] b ha hb = hb
or_text-IsFree (c ∷ cs) b ha hb = ha

default-IsFree : IsFree b'.' (codes "default")
default-IsFree = (refl, (refl, (refl, (refl, (refl, (refl, (refl, tt)))))))

-- The name that is built for a service or for a pod with an address is read back: the service with
-- its namespace, the pod with its namespace, and neither as the other, where the names have no dot.
pub parsed_hosts :
    (name ip : Text) (c : ℕ) (svc_namespace pod_namespace : Option Text)
    → IsFree b'.' name
    → IsFree b'.' (or_else svc_namespace [])
    → IsFree b'.' (or_else pod_namespace (codes "default"))
    → let svc = build_service_dns_name name svc_namespace in
      let pod = build_pod_dns_name (some (c ∷ ip)) pod_namespace in
      (parse_svc_dns svc ≡ some (name, or_text (or_else svc_namespace []) (codes "default")))
      × (parse_pod_dns svc ≡ none)
      × (parse_pod_dns pod ≡ some (or_else pod_namespace (codes "default")))
      × (parse_svc_dns pod ≡ none)
unfolding parse_svc_dns parse_pod_dns build_service_dns_name build_pod_dns_name split
parsed_hosts name ip c svc_namespace pod_namespace hname hsvc hpod =
    let svc_ns = or_text (or_else svc_namespace []) (codes "default") in
    let pod_ns = or_else pod_namespace (codes "default") in
    let svc_labels =
      split-host name svc_ns (codes "svc.cluster.local") hname
        (or_text-IsFree (or_else svc_namespace []) (codes "default") hsvc default-IsFree) in
    let pod_labels =
      split-host (dashed (c ∷ ip)) pod_ns (codes "pod.cluster.local") (dashed-IsFree (c ∷ ip))
        hpod in
    (
      ap (labels_before (codes "svc")) svc_labels,
      ap (λ ls. second (labels_before (codes "pod") ls)) svc_labels,
      ap (λ ls. second (labels_before (codes "pod") ls)) pod_labels,
      ap (labels_before (codes "svc")) pod_labels,
    )
