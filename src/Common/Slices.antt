-- ===== src/Common/Slices.antt =====
-- `slice(-n)` of JavaScript: the last elements of an array.
use podscape.Common.{
  ℕ, zero, suc, List, [], ◌∷◌, ◌++◌, ◌+◌, ◌-◌, ◌≤◌, length, length-append, drop, ◌≡◌, refl, sym,
  ◌∙◌, ap, arith,
}

module _ {ℓ} {A : Type ℓ} where
  -- `xs.slice(-n)`, which is all of xs for n = 0.
  unfoldable pub slice_last : ℕ → List A → List A
  slice_last zero xs = xs
  slice_last (suc n) xs = drop (length xs - suc n) xs

  drop_nothing : (m : ℕ) (xs : List A) → length xs ≤ 0 → drop m xs ≡ xs
  drop_nothing zero xs h = refl
  drop_nothing (suc m) [] h = refl
  drop_nothing (suc m) (x ∷ xs) h = absurd (omega arith)

  pub drop-drop : (a b : ℕ) (xs : List A) → drop b (drop a xs) ≡ drop (a + b) xs
  drop-drop zero b xs = ap (λ n. drop n xs) (omega arith)
  drop-drop (suc a) b [] =
      drop_nothing b [] (omega arith) ∙ sym (drop_nothing (suc a + b) [] (omega arith))
  drop-drop (suc a) b (x ∷ xs) =
      let next : suc a + b ≡ suc (a + b) = omega arith in drop-drop a b xs ∙ rw next refl

  pub drop-append : (a : ℕ) (xs ys : List A) → a ≤ length xs → drop a xs ++ ys ≡ drop a (xs ++ ys)
  drop-append zero xs ys h = refl
  drop-append (suc a) [] ys h = absurd (omega arith)
  drop-append (suc a) (x ∷ xs) ys h = drop-append a xs ys (omega arith)

  pub length-drop : (a : ℕ) (xs : List A) → length (drop a xs) ≡ length xs - a
  length-drop zero xs = omega arith
  length-drop (suc a) [] = omega arith
  length-drop (suc a) (x ∷ xs) = omega (arith, length-drop a xs)

  drop_none : (n : ℕ) (xs : List A) → n ≡ 0 → drop n xs ≡ xs
  drop_none zero xs h = refl
  drop_none (suc n) xs h = absurd (omega arith)

  pub slice_last-pos : (m : ℕ) (xs : List A) → 1 ≤ m → slice_last m xs ≡ drop (length xs - m) xs
  unfolding slice_last
  slice_last-pos zero xs h = absurd (omega arith)
  slice_last-pos (suc m) xs h = refl

  pub slice_last-nil : (m : ℕ) → slice_last m [] ≡ []
  unfolding slice_last
  slice_last-nil zero = refl
  slice_last-nil (suc m) = drop_nothing _ [] (omega arith)

  pub length-slice_last-le : (m : ℕ) (xs : List A) → 1 ≤ m → length (slice_last m xs) ≤ m
  length-slice_last-le m xs h =
      rw (slice_last-pos m xs h) (omega (arith, length-drop (length xs - m) xs))

  -- What falls out of the buffer before more lines come would fall out after them.
  pub slice_last-append :
      (m : ℕ) (xs ys : List A)
      → 1 ≤ m
      → slice_last m (slice_last m xs ++ ys) ≡ slice_last m (xs ++ ys)
  slice_last-append m xs ys h =
      let n = length xs - m in
      let kept = drop n xs ++ ys in
      ap (λ zs. slice_last m (zs ++ ys)) (slice_last-pos m xs h)
      ∙ slice_last-pos m kept h
      ∙ ap (drop (length kept - m)) (drop-append n xs ys (omega arith))
      ∙ drop-drop n (length kept - m) (xs ++ ys)
      ∙ ap (λ k. drop k (xs ++ ys))
          (omega (arith, length-append (drop n xs) ys, length-drop n xs, length-append xs ys))
      ∙ sym (slice_last-pos m (xs ++ ys) h)
