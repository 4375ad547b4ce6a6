-- ===== src/Security/Images.antt =====
-- renderer/utils/security/extractImages.ts. The final sort of `getUniqueImages` is by
-- `localeCompare`, whose order depends on the locale: it is a parameter, the test whether one image
-- comes strictly before another, and the sort is JavaScript's stable one.
pub mod Usage
mod Tests
use podscape.Common.{
  ℕ, String, Bool, true, false, Option, none, some, List, [], ◌∷◌, ◌++◌, map, ◌==◌, or_else, truthy,
  if◌then◌else◌,
}
use podscape.Security.Kube.{Container, PodSpec, Spec, Resource}

pub record Workload : Type 0 where
  pub name : String
  pub namespace : String
  pub kind : String

pub record WorkloadImageEntry : Type 0 where
  pub image : String
  pub used_by : Workload

pub record UniqueImageEntry : Type 0 where
  pub image : String
  pub used_by : List Workload

pub images_of : List Container → List String
images_of [] = []
images_of (c ∷ cs) = elim (truthy c.image) [ none ↦ images_of cs | some i ↦ i ∷ images_of cs ]

pub get_container_images : Option PodSpec → List String
get_container_images none = []
get_container_images (some p) = images_of (or_else p.containers [] ++ or_else p.init_containers [])

-- The pod specification of a workload, by its kind.
pub pod_spec_of : String → Option Spec → Option PodSpec
pod_spec_of kind none = none
pod_spec_of kind (some s) =
    if kind == "Pod" then some s.own else if kind == "CronJob" then s.job_template else s.template

pub workload_of : Resource → Workload
workload_of w = record {
  name = w.name;
  namespace = or_else w.namespace "";
  kind = or_else w.kind "";
}

pub entries_of : Resource → List WorkloadImageEntry
entries_of w =
    map (λ i. record { image = i; used_by = workload_of w })
      (get_container_images (pod_spec_of (or_else w.kind "") w.spec))

pub extract_workload_images : List Resource → List WorkloadImageEntry
extract_workload_images [] = []
extract_workload_images (w ∷ ws) = entries_of w ++ extract_workload_images ws

-- `map.get(entry.image).push(…)`, with the empty list put in first where the key is missing.
pub add_use : WorkloadImageEntry → List UniqueImageEntry → List UniqueImageEntry
add_use e [] = record { image = e.image; used_by = e.used_by ∷ [] } ∷ []
add_use e (u ∷ us) =
    let rest = add_use e us in
    if u.image == e.image then record u { used_by = u.used_by ++ e.used_by ∷ [] } ∷ us else u ∷ rest

pub group_images : List WorkloadImageEntry → List UniqueImageEntry → List UniqueImageEntry
group_images [] us = us
group_images (e ∷ es) us = group_images es (add_use e us)

module _ (before : String → String → Bool) where
  pub insert_sorted : UniqueImageEntry → List UniqueImageEntry → List UniqueImageEntry
  insert_sorted u [] = u ∷ []
  insert_sorted u (v ∷ vs) =
      let rest = insert_sorted u vs in if before v.image u.image then v ∷ rest else u ∷ v ∷ vs

  pub sort_images : List UniqueImageEntry → List UniqueImageEntry
  sort_images [] = []
  sort_images (u ∷ us) = insert_sorted u (sort_images us)

  pub get_unique_images : List Resource → List UniqueImageEntry
  get_unique_images workloads = sort_images (group_images (extract_workload_images workloads) [])
