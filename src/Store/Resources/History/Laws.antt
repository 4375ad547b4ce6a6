-- ===== src/Store/Resources/History/Laws.antt =====
-- What `selectResource` keeps of the history.
use podscape.Common.{
  ℕ, zero, suc, String, Bool, true, false, not, some, List, [], ◌∷◌, ◌≤◌, find, filter, any, take,
  is_some, length, length-filter-le, length-take-le, ◌≡◌, refl, sym, ◌∙◌, ap, arith, Bool-cases,
  inl, inr,
}
use podscape.Store.Resources.{KubeResource, has_uid}
use podscape.Store.Resources.History.{Selection, most, with_kind, remember, select_resource}

abbrev pub IsDistinct : List KubeResource → Type 0
IsDistinct [] = Unit
IsDistinct (h ∷ hs) = (any (has_uid h.uid) hs ≡ false) × IsDistinct hs

-- Five resources at most, each once, the selected one first.
pub record IsHistory (s : Selection) : Type 0 where
  pub short : length s.resource_history ≤ most
  pub distinct : IsDistinct s.resource_history

pub others : String → List KubeResource → List KubeResource
others uid = filter (λ h. not (has_uid uid h))

find-any :
    (uid : String) (hs : List KubeResource) → is_some (find (has_uid uid) hs) ≡ any (has_uid uid) hs
find-any uid [] = refl
find-any uid (h ∷ hs) = ground (arith, find-any uid hs)

any-filter :
    (p q : KubeResource → Bool) (hs : List KubeResource)
    → any p hs ≡ false
    → any p (filter q hs) ≡ false
any-filter p q [] h = refl
any-filter p q (x ∷ xs) h = ground (arith, any-filter p q xs)

any-others : (uid : String) (hs : List KubeResource) → any (has_uid uid) (others uid hs) ≡ false
unfolding others
any-others uid [] = refl
any-others uid (h ∷ hs) = ground (arith, any-others uid hs)

others-IsDistinct :
    (uid : String) (hs : List KubeResource) → IsDistinct hs → IsDistinct (others uid hs)
unfolding others
others-IsDistinct uid [] d = tt
others-IsDistinct uid (h ∷ hs) d = ground (
  arith,
  others-IsDistinct uid hs d.1,
  any-filter (has_uid h.uid) (λ x. not (has_uid uid x)) hs d.0,
)

-- A resource that is there leaves room for itself.
length-others-lt :
    (uid : String) (hs : List KubeResource)
    → any (has_uid uid) hs ≡ true
    → suc (length (others uid hs)) ≤ length hs
unfolding others
length-others-lt uid [] h = absurd (ground arith)
length-others-lt uid (x ∷ xs) h =
    ground (arith, length-others-lt uid xs, length-filter-le (λ h. not (has_uid uid h)) xs)

any-take :
    (p : KubeResource → Bool) (n : ℕ) (hs : List KubeResource)
    → any p hs ≡ false
    → any p (take n hs) ≡ false
any-take p zero hs h = refl
any-take p (suc n) [] h = refl
any-take p (suc n) (x ∷ xs) h = ground (arith, any-take p n xs)

take-IsDistinct : (n : ℕ) (hs : List KubeResource) → IsDistinct hs → IsDistinct (take n hs)
take-IsDistinct zero hs d = tt
take-IsDistinct (suc n) [] d = tt
take-IsDistinct (suc n) (x ∷ xs) d = (any-take (has_uid x.uid) n xs d.0, take-IsDistinct n xs d.1)

remember-known :
    (r : KubeResource) (hs : List KubeResource)
    → any (has_uid r.uid) hs ≡ true
    → remember r hs ≡ r ∷ others r.uid hs
unfolding remember others
remember-known r hs h = rw (find-any r.uid hs) (rw h refl)

remember-new :
    (r : KubeResource) (hs : List KubeResource)
    → any (has_uid r.uid) hs ≡ false
    → remember r hs ≡ r ∷ take 4 hs
unfolding remember
remember-new r hs h = rw (find-any r.uid hs) (rw h refl)

others_missing :
    (uid : String) (hs : List KubeResource) → any (has_uid uid) hs ≡ false → others uid hs ≡ hs
unfolding others
others_missing uid [] h = refl
others_missing uid (x ∷ xs) h = ground (arith, others_missing uid xs)

take_all : (n : ℕ) (hs : List KubeResource) → length hs ≤ n → take n hs ≡ hs
take_all zero [] h = refl
take_all zero (x ∷ xs) h = absurd (omega arith)
take_all (suc n) [] h = refl
take_all (suc n) (x ∷ xs) h = rw (take_all n xs (omega arith)) refl

remember-eq :
    (r : KubeResource) (hs : List KubeResource)
    → length hs ≤ most
    → remember r hs ≡ r ∷ take 4 (others r.uid hs)
remember-eq r hs short = elim (Bool-cases (any (has_uid r.uid) hs)) [
  | inl known ↦
      remember-known r hs known
      ∙ ap (λ xs. r ∷ xs)
          (sym
            (take_all 4 (others r.uid hs) (omega (arith, length-others-lt r.uid hs known, short))))
  | inr new ↦ remember-new r hs new ∙ ap (λ xs. r ∷ take 4 xs) (sym (others_missing r.uid hs new))
]

-- The history is that of the five resources selected last: the new one goes to the front, with its
-- kind, and the others follow in their order, without an older copy of it and without what is then
-- beyond the fifth. A history of at most five distinct resources stays one.
pub select_resource-IsHistory :
    (r : KubeResource) (s : Selection)
    → IsHistory s
    → let t = select_resource (some r) s in
      IsHistory t
      × (t.selected_resource ≡ some (with_kind s.section r))
      × (t.resource_history ≡ with_kind s.section r ∷ take 4 (others r.uid s.resource_history))
unfolding select_resource with_kind
select_resource-IsHistory r s v =
    let eq = remember-eq (with_kind s.section r) s.resource_history v.short in
    let kept = others r.uid s.resource_history in
    (
      record {
        short = rw eq (omega (arith, length-take-le 4 kept));
        distinct = rw eq (
          any-take (has_uid r.uid) 4 kept (any-others r.uid s.resource_history),
          take-IsDistinct 4 kept (others-IsDistinct r.uid s.resource_history v.distinct),
        );
      },
      refl,
      eq,
    )
