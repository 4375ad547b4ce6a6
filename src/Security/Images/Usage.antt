-- ===== src/Security/Images/Usage.antt =====
-- What `getUniqueImages` of renderer/utils/security/extractImages.ts says of the workloads.
use mathlib.Core.List.{append_assoc, append-nil}
use podscape.Common.{
  String, Bool, false, List, [], ◌∷◌, ◌++◌, ◌==◌, ◌≡◌, refl, sym, ◌∙◌, if◌then◌else◌, any, arith,
  eq_iff, eq_comm,
}
use podscape.Security.Kube.{Resource}
use podscape.Security.Images.{
  Workload, WorkloadImageEntry, UniqueImageEntry, extract_workload_images, add_use, group_images,
  insert_sorted, sort_images, get_unique_images,
}

-- The workloads of the entries for an image, in order.
pub users : String → List WorkloadImageEntry → List Workload
users i [] = []
users i (e ∷ es) = let rest = users i es in if e.image == i then e.used_by ∷ rest else rest

-- The workloads listed for an image in the result.
unfoldable pub listed : String → List UniqueImageEntry → List Workload
listed i [] = []
listed i (u ∷ us) = let rest = listed i us in if u.image == i then u.used_by ++ rest else rest

abbrev pub has_image : String → UniqueImageEntry → Bool
has_image i u = u.image == i

abbrev pub IsDistinct : List UniqueImageEntry → Type 0
IsDistinct [] = Unit
IsDistinct (u ∷ us) = (any (has_image u.image) us ≡ false) × IsDistinct us

listed_missing :
    (i : String) (us : List UniqueImageEntry) → any (has_image i) us ≡ false → listed i us ≡ []
unfolding listed
listed_missing i [] h = refl
listed_missing i (u ∷ us) h = ground (arith, listed_missing i us)

any-add_use :
    (i : String) (e : WorkloadImageEntry) (us : List UniqueImageEntry)
    → any (has_image i) us ≡ false
    → (e.image == i) ≡ false
    → any (has_image i) (add_use e us) ≡ false
unfolding add_use
any-add_use i e [] h n = ground arith
any-add_use i e (u ∷ us) h n = ground (arith, any-add_use i e us)

add_use-IsDistinct :
    (e : WorkloadImageEntry) (us : List UniqueImageEntry)
    → IsDistinct us
    → IsDistinct (add_use e us)
unfolding add_use
add_use-IsDistinct e [] d = (refl, tt)
add_use-IsDistinct e (u ∷ us) d =
    ground
      (arith, add_use-IsDistinct e us d.1, any-add_use u.image e us d.0, eq_comm u.image e.image)

listed-add_use :
    (i : String) (e : WorkloadImageEntry) (us : List UniqueImageEntry)
    → IsDistinct us
    → listed i (add_use e us)
      ≡ (if e.image == i then listed i us ++ e.used_by ∷ [] else listed i us)
unfolding listed add_use
listed-add_use i e [] d = ground arith
listed-add_use i e (u ∷ us) d = ground (
  arith,
  listed-add_use i e us d.1,
  eq_iff u.image e.image,
  eq_iff e.image i,
  eq_iff u.image i,
  listed_missing u.image us d.0,
  append-nil u.used_by,
  append-nil (u.used_by ++ e.used_by ∷ []),
  append_assoc u.used_by (listed i us) (e.used_by ∷ []),
)

group_images-listed :
    (i : String) (es : List WorkloadImageEntry) (us : List UniqueImageEntry)
    → IsDistinct us
    → (listed i (group_images es us) ≡ listed i us ++ users i es) × IsDistinct (group_images es us)
unfolding group_images users
group_images-listed i [] us d = (sym (append-nil _), d)
group_images-listed i (e ∷ es) us d =
    let (eq, distinct) = group_images-listed i es (add_use e us) (add_use-IsDistinct e us d) in
    (
      eq
          ∙ ground (
            arith,
            listed-add_use i e us d,
            append_assoc (listed i us) (e.used_by ∷ []) (users i es),
          ),
      distinct,
    )

module _ (before : String → String → Bool) where
  any-insert_sorted :
      (i : String) (u : UniqueImageEntry) (us : List UniqueImageEntry)
      → any (has_image i) (insert_sorted before u us) ≡ any (has_image i) (u ∷ us)
  unfolding insert_sorted
  any-insert_sorted i u [] = refl
  any-insert_sorted i u (v ∷ vs) = ground (arith, any-insert_sorted i u vs)

  any-sort_images :
      (i : String) (us : List UniqueImageEntry)
      → any (has_image i) (sort_images before us) ≡ any (has_image i) us
  unfolding sort_images
  any-sort_images i [] = refl
  any-sort_images i (u ∷ us) =
      ground (arith, any-insert_sorted i u (sort_images before us), any-sort_images i us)

  insert_sorted-IsDistinct :
      (u : UniqueImageEntry) (us : List UniqueImageEntry)
      → any (has_image u.image) us ≡ false
      → IsDistinct us
      → IsDistinct (insert_sorted before u us)
  unfolding insert_sorted
  insert_sorted-IsDistinct u [] h d = (refl, tt)
  insert_sorted-IsDistinct u (v ∷ vs) h d = ground (
    arith,
    insert_sorted-IsDistinct u vs,
    any-insert_sorted v.image u vs,
    eq_comm u.image v.image,
  )

  sort_images-IsDistinct :
      (us : List UniqueImageEntry) → IsDistinct us → IsDistinct (sort_images before us)
  unfolding sort_images
  sort_images-IsDistinct [] d = tt
  sort_images-IsDistinct (u ∷ us) d =
      insert_sorted-IsDistinct u (sort_images before us) (any-sort_images u.image us ∙ d.0)
        (sort_images-IsDistinct us d.1)

  listed-insert_sorted :
      (i : String) (u : UniqueImageEntry) (us : List UniqueImageEntry)
      → any (has_image u.image) us ≡ false
      → listed i (insert_sorted before u us) ≡ listed i (u ∷ us)
  unfolding insert_sorted listed
  listed-insert_sorted i u [] h = refl
  listed-insert_sorted i u (v ∷ vs) h = ground (
    arith,
    listed-insert_sorted i u vs,
    eq_iff u.image i,
    eq_iff v.image i,
    eq_comm u.image v.image,
  )

  listed-sort_images :
      (i : String) (us : List UniqueImageEntry)
      → IsDistinct us
      → listed i (sort_images before us) ≡ listed i us
  unfolding sort_images listed
  listed-sort_images i [] d = refl
  listed-sort_images i (u ∷ us) d =
      listed-insert_sorted i u (sort_images before us) (any-sort_images u.image us ∙ d.0)
      ∙ ground (arith, listed-sort_images i us d.1)

  -- Whatever the order of the locale: no image stands in two rows, and the rows list for each image
  -- exactly the workloads whose entries have it, in the order of the entries.
  pub listed-get_unique_images :
      (i : String) (workloads : List Resource)
      → let rows = get_unique_images before workloads in
        IsDistinct rows × (listed i rows ≡ users i (extract_workload_images workloads))
  unfolding get_unique_images listed
  listed-get_unique_images i workloads =
      let es = extract_workload_images workloads in
      let (eq, d) = group_images-listed i es [] tt in
      (
        sort_images-IsDistinct (group_images es []) d,
        listed-sort_images i (group_images es []) d ∙ eq,
      )
