-- ===== src/Common/Sorting.antt =====
-- JavaScript's stable sort by a comparison function, of which only the sign is read: `before x y`
-- says that the comparison of x with y is negative.
use podscape.Common.{
  ℕ, Bool, true, false, List, [], ◌∷◌, filter, length, sum_of, ◌+◌, All, if◌then◌else◌, ◌≡◌, refl,
  ◌∙◌, ap, arith, Bool-cases, inl, inr,
}

module _ {ℓ} {A : Type ℓ} where
  pub All-map {κ μ} :
      (P : A → Type κ) (Q : A → Type μ) (xs : List A) → ((x : A) → P x → Q x) → All P xs → All Q xs
  All-map P Q [] f h = tt
  All-map P Q (x ∷ xs) f h = (f x h.0, All-map P Q xs f h.1)

  pub All-each {κ} : (P : A → Type κ) (xs : List A) → ((x : A) → P x) → All P xs
  All-each P [] h = tt
  All-each P (x ∷ xs) h = (h x, All-each P xs h)

module _ {ℓ} {A : Type ℓ} (before : A → A → Bool) where
  unfoldable pub insert_by : A → List A → List A
  insert_by x [] = x ∷ []
  insert_by x (y ∷ ys) = let rest = insert_by x ys in if before y x then y ∷ rest else x ∷ y ∷ ys

  unfoldable pub sort_by : List A → List A
  sort_by [] = []
  sort_by (x ∷ xs) = insert_by x (sort_by xs)

  -- No later element comes before an earlier one.
  abbrev pub IsSorted : List A → Type 0
  IsSorted [] = Unit
  IsSorted (x ∷ xs) = All (λ y. before y x ≡ false) xs × IsSorted xs

  All-insert_by {κ} :
      (P : A → Type κ) (x : A) (xs : List A) → P x → All P xs → All P (insert_by x xs)
  unfolding insert_by
  All-insert_by P x [] px h = (px, tt)
  All-insert_by P x (y ∷ ys) px h = elim (Bool-cases (before y x)) [
    | inl e ↦ rw e (h.0, All-insert_by P x ys px h.1)
    | inr e ↦ rw e (px, h)
  ]

  pub All-sort_by {κ} : (P : A → Type κ) (xs : List A) → All P xs → All P (sort_by xs)
  unfolding sort_by
  All-sort_by P [] h = tt
  All-sort_by P (x ∷ xs) h = All-insert_by P x (sort_by xs) h.0 (All-sort_by P xs h.1)

  length-filter-insert_by :
      (p : A → Bool) (x : A) (xs : List A)
      → length (filter p (insert_by x xs)) ≡ length (filter p (x ∷ xs))
  unfolding insert_by
  length-filter-insert_by p x [] = refl
  length-filter-insert_by p x (y ∷ ys) = ground (arith, length-filter-insert_by p x ys)

  sum-insert_by : (f : A → ℕ) (x : A) (xs : List A) → sum_of f (insert_by x xs) ≡ f x + sum_of f xs
  unfolding insert_by
  sum-insert_by f x [] = omega arith
  sum-insert_by f x (y ∷ ys) = ground (arith, sum-insert_by f x ys)

  pub sum-sort_by : (f : A → ℕ) (xs : List A) → sum_of f (sort_by xs) ≡ sum_of f xs
  unfolding sort_by
  sum-sort_by f [] = omega arith
  sum-sort_by f (x ∷ xs) = omega (arith, sum-insert_by f x (sort_by xs), sum-sort_by f xs)

  -- The sort neither drops nor adds anything.
  pub length-filter-sort_by :
      (p : A → Bool) (xs : List A) → length (filter p (sort_by xs)) ≡ length (filter p xs)
  unfolding sort_by
  length-filter-sort_by p [] = refl
  length-filter-sort_by p (x ∷ xs) =
      ground (arith, length-filter-insert_by p x (sort_by xs), length-filter-sort_by p xs)

  -- What satisfies p and is not before x, in front.
  filter-insert_by :
      (p : A → Bool) (x : A) (xs : List A)
      → All (λ y. p y ≡ true → before y x ≡ false) xs
      → p x ≡ true
      → filter p (insert_by x xs) ≡ x ∷ filter p xs
  unfolding insert_by
  filter-insert_by p x [] h px = rw px refl
  filter-insert_by p x (y ∷ ys) h px = elim (Bool-cases (before y x)) [
    | inl e ↦ rw e (elim (Bool-cases (p y)) [
      | inl py ↦ absurd (ground (arith, h.0 py))
      | inr ny ↦ rw ny (filter-insert_by p x ys h.1 px)
    ])
    | inr e ↦ rw e (rw px refl)
  ]

  filter-insert_by-skip :
      (p : A → Bool) (x : A) (xs : List A) → p x ≡ false → filter p (insert_by x xs) ≡ filter p xs
  unfolding insert_by
  filter-insert_by-skip p x [] nx = rw nx refl
  filter-insert_by-skip p x (y ∷ ys) nx = ground (arith, filter-insert_by-skip p x ys nx)

  -- Stability: elements that no comparison tells apart keep their order.
  pub filter-sort_by :
      (p : A → Bool) (xs : List A)
      → ((x y : A) → p x ≡ true → p y ≡ true → before y x ≡ false)
      → filter p (sort_by xs) ≡ filter p xs
  unfolding sort_by
  filter-sort_by p [] same = refl
  filter-sort_by p (x ∷ xs) same = elim (Bool-cases (p x)) [
    | inl px ↦ rw px (
        filter-insert_by p x (sort_by xs)
          (All-sort_by (λ y. p y ≡ true → before y x ≡ false) xs
            (All-each (λ y. p y ≡ true → before y x ≡ false) xs (λ y. same x y px)))
          px
        ∙ ap (λ zs. x ∷ zs) (filter-sort_by p xs same))
    | inr nx ↦ rw nx (filter-insert_by-skip p x (sort_by xs) nx ∙ filter-sort_by p xs same)
  ]

module _ {ℓ} {A : Type ℓ} (before : A → A → Bool)
    (asym : (x y : A) → before x y ≡ true → before y x ≡ false)
    (trans : (x y z : A) → before y x ≡ false → before z y ≡ false → before z x ≡ false) where
  insert_by-IsSorted :
      (x : A) (xs : List A) → IsSorted before xs → IsSorted before (insert_by before x xs)
  unfolding insert_by
  insert_by-IsSorted x [] h = (tt, tt)
  insert_by-IsSorted x (y ∷ ys) h = elim (Bool-cases (before y x)) [
    | inl e ↦ rw e (
      All-insert_by before (λ z. before z y ≡ false) x ys (asym y x e) h.0,
      insert_by-IsSorted x ys h.1,
    )
    | inr e ↦ rw e (
      (e, All-map (λ z. before z y ≡ false) (λ z. before z x ≡ false) ys (λ z. trans x y z e) h.0),
      h,
    )
  ]

  pub sort_by-IsSorted : (xs : List A) → IsSorted before (sort_by before xs)
  unfolding sort_by
  sort_by-IsSorted [] = tt
  sort_by-IsSorted (x ∷ xs) = insert_by-IsSorted x (sort_by before xs) (sort_by-IsSorted xs)
