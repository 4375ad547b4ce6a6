-- ===== src/Common/Substrings.antt =====
-- What the substring tests say.
use mathlib.Core.Path.{◌≡◌, refl, ap}
use mathlib.Core.Logic.{◌↔◌, inl, inr}
use mathlib.Core.Bool.{true}
use mathlib.Core.List.{List, [], ◌∷◌, ◌++◌}
use Prim.Native.Nat.{ℕ}
use native.Mathlib.Omega.{arith}
use podscape.Common.Tests.{Bool-cases}
use podscape.Common.Texts.{codes_eq, starts_with, includes, ends_with}

-- `t` occurs in `s`.
abbrev pub Occurs : List ℕ → List ℕ → Type 0
Occurs t s = (pre : List ℕ) × (post : List ℕ) × (s ≡ pre ++ (t ++ post))

abbrev pub IsSuffix : List ℕ → List ℕ → Type 0
IsSuffix t s = (pre : List ℕ) × (s ≡ pre ++ t)

eq_of_codes_eq : (s t : List ℕ) → codes_eq s t ≡ true → s ≡ t
eq_of_codes_eq [] [] h = refl
eq_of_codes_eq [] (d ∷ ds) h = cc
eq_of_codes_eq (c ∷ cs) [] h = cc
eq_of_codes_eq (c ∷ cs) (d ∷ ds) h = ground (arith, eq_of_codes_eq cs ds)

codes_eq_self : (s : List ℕ) → codes_eq s s ≡ true
codes_eq_self [] = refl
codes_eq_self (c ∷ cs) = ground (arith, codes_eq_self cs)

pub codes_eq_iff : (s t : List ℕ) → (codes_eq s t ≡ true) ↔ (s ≡ t)
codes_eq_iff s t = (eq_of_codes_eq s t, λ e. rw e (codes_eq_self t))

prefix_of_starts_with : (s t : List ℕ) → starts_with s t ≡ true → (post : List ℕ) × (s ≡ t ++ post)
prefix_of_starts_with s [] h = (s, refl)
prefix_of_starts_with [] (d ∷ ds) h = cc
prefix_of_starts_with (c ∷ cs) (d ∷ ds) h =
    let (post, e) = prefix_of_starts_with cs ds (ground arith) in
    let same : c ≡ d = ground arith in (post, rw (same, e))

starts_with-append : (t post : List ℕ) → starts_with (t ++ post) t ≡ true
starts_with-append [] post = refl
starts_with-append (d ∷ ds) post = ground (arith, starts_with-append ds post)

Occurs-of_includes : (s t : List ℕ) → includes s t ≡ true → Occurs t s
Occurs-of_includes [] t h = let (post, e) = prefix_of_starts_with [] t h in ([], post, e)
Occurs-of_includes (c ∷ cs) t h = elim (Bool-cases (starts_with (c ∷ cs) t)) [
  | inl here ↦ let (post, e) = prefix_of_starts_with (c ∷ cs) t here in ([], post, e)
  | inr later ↦
      let (pre, post, e) = Occurs-of_includes cs t (ground arith) in (c ∷ pre, post, ap (◌∷◌ c) e)
]

includes-append : (pre t post : List ℕ) → includes (pre ++ (t ++ post)) t ≡ true
includes-append [] [] [] = refl
includes-append [] [] (c ∷ post) = refl
includes-append [] (d ∷ ds) post = ground (arith, starts_with-append (d ∷ ds) post)
includes-append (c ∷ pre) t post = ground (arith, includes-append pre t post)

pub includes_iff : (s t : List ℕ) → (includes s t ≡ true) ↔ Occurs t s
includes_iff s t = (Occurs-of_includes s t, λ (pre, post, e). rw e (includes-append pre t post))

suffix_of_ends_with : (s t : List ℕ) → ends_with s t ≡ true → IsSuffix t s
suffix_of_ends_with [] [] h = ([], refl)
suffix_of_ends_with [] (d ∷ ds) h = cc
suffix_of_ends_with (c ∷ cs) t h = elim (Bool-cases (codes_eq (c ∷ cs) t)) [
  | inl here ↦ ([], eq_of_codes_eq (c ∷ cs) t here)
  | inr later ↦ let (pre, e) = suffix_of_ends_with cs t (ground arith) in (c ∷ pre, ap (◌∷◌ c) e)
]

ends_with-append : (pre t : List ℕ) → ends_with (pre ++ t) t ≡ true
ends_with-append [] [] = refl
ends_with-append [] (d ∷ ds) = ground (arith, codes_eq_self (d ∷ ds))
ends_with-append (c ∷ pre) t = ground (arith, ends_with-append pre t)

pub ends_with_iff : (s t : List ℕ) → (ends_with s t ≡ true) ↔ IsSuffix t s
ends_with_iff s t = (suffix_of_ends_with s t, λ (pre, e). rw e (ends_with-append pre t))
