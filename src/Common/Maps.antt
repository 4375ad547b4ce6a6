-- ===== src/Common/Maps.antt =====
-- Objects and maps of JavaScript with string keys, which keep the order of insertion.
use podscape.Common.{
  String, Option, none, some, List, [], ◌∷◌, ◌==◌, if◌then◌else◌, ◌≡◌, refl, false, arith, eq_refl,
  eq_iff,
}

unfoldable pub put {ℓ} : {A : Type ℓ} → String → A → List (String × A) → List (String × A)
put k a [] = (k, a) ∷ []
put k a ((l, b) ∷ m) = let rest = put k a m in if l == k then (k, a) ∷ m else (l, b) ∷ rest

unfoldable pub at_key {ℓ} : {A : Type ℓ} → String → List (String × A) → Option A
at_key k [] = none
at_key k ((l, b) ∷ m) = let rest = at_key k m in if l == k then some b else rest

pub at_key-put {ℓ} :
    {A : Type ℓ} (k : String) (a : A) (m : List (String × A)) → at_key k (put k a m) ≡ some a
unfolding at_key put
at_key-put k a [] = ground (arith, eq_refl k)
at_key-put k a ((l, b) ∷ m) = ground (arith, at_key-put k a m, eq_refl k)

pub at_key-put-other {ℓ} :
    {A : Type ℓ} (k l : String) (a : A) (m : List (String × A))
    → (k == l) ≡ false
    → at_key l (put k a m) ≡ at_key l m
unfolding at_key put
at_key-put-other k l a [] h = rw h refl
at_key-put-other k l a ((j, b) ∷ m) h =
    ground (arith, at_key-put-other k l a m h, eq_iff j k, eq_iff j l)
