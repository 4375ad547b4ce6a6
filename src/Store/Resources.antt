-- ===== src/Store/Resources.antt =====
-- The resources of renderer/store/slices/resourceSlice.ts. Of a resource only what the slice reads is
-- kept.
pub mod History
pub mod Sections
use podscape.Common.{String, Bool, or_else, Option, none, some, List, [], ◌∷◌, ◌==◌, if◌then◌else◌}

pub record KubeResource : Type 0 where
  pub kind : Option String
  pub name : String
  pub namespace : Option String
  pub uid : String

abbrev pub has_uid : String → KubeResource → Bool
has_uid uid r = r.uid == uid

-- The table of `kindLabel` in renderer/store/resourceConfig.ts.
pub kind_labels : List (String × String)
kind_labels =
    ("pods", "pod")
    ∷ ("deployments", "deployment")
    ∷ ("daemonsets", "daemonset")
    ∷ ("statefulsets", "statefulset")
    ∷ ("replicasets", "replicaset")
    ∷ ("jobs", "job")
    ∷ ("cronjobs", "cronjob")
    ∷ ("hpas", "horizontalpodautoscaler")
    ∷ ("pdbs", "poddisruptionbudget")
    ∷ ("resourcequotas", "resourcequota")
    ∷ ("limitranges", "limitrange")
    ∷ ("services", "service")
    ∷ ("ingresses", "ingress")
    ∷ ("ingressclasses", "ingressclass")
    ∷ ("networkpolicies", "networkpolicy")
    ∷ ("endpoints", "endpoints")
    ∷ ("configmaps", "configmap")
    ∷ ("secrets", "secret")
    ∷ ("pvcs", "persistentvolumeclaim")
    ∷ ("pvs", "persistentvolume")
    ∷ ("storageclasses", "storageclass")
    ∷ ("serviceaccounts", "serviceaccount")
    ∷ ("roles", "role")
    ∷ ("clusterroles", "clusterrole")
    ∷ ("rolebindings", "rolebinding")
    ∷ ("clusterrolebindings", "clusterrolebinding")
    ∷ ("mutatingwebhookconfigurations", "mutatingwebhookconfiguration")
    ∷ ("validatingwebhookconfigurations", "validatingwebhookconfiguration")
    ∷ ("endpointslices", "endpointslice")
    ∷ ("priorityclasses", "priorityclass")
    ∷ ("runtimeclasses", "runtimeclass")
    ∷ ("nodes", "node")
    ∷ ("namespaces", "namespace")
    ∷ ("crds", "crd")
    ∷ []

pub lookup : String → List (String × String) → Option String
lookup k [] = none
lookup k ((a, b) ∷ m) = let rest = lookup k m in if a == k then some b else rest

pub kind_label : String → String
kind_label section = or_else (lookup section kind_labels) section
