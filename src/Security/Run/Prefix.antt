-- ===== src/Security/Run/Prefix.antt =====
-- What the progress view takes off a line of Trivy: TRIVY_PREFIX_RE in
-- renderer/store/slices/analysisSlice.ts.
use podscape.Common.{
  ℕ, true, false, not, all, codes, or_else, eqb, none, some, Option-cases, Bool-cases, [], ◌∷◌,
  ◌++◌, ◌≡◌, ◌⊎◌, inl, inr, refl, ◌∙◌, ap, arith,
}
use podscape.Common.Splits.{Text, is_space, after_prefix}
use podscape.Security.Run.{without_prefix, after_word, after_level, levels}

pub data Level : Type 0 where
  info_level warn_level error_level fatal_level : Level

abbrev pub level_text : Level → Text
level_text info_level = codes "INFO"
level_text warn_level = codes "WARN"
level_text error_level = codes "ERROR"
level_text fatal_level = codes "FATAL"

abbrev pub tagged : Text → Level → Text → Text
tagged word level message = word ++ (9 ∷ (level_text level ++ 9 ∷ message))

after_word-tab :
    (word rest : Text)
    → all (λ d. not (is_space d)) word ≡ true
    → after_word (word ++ 9 ∷ rest) ≡ 9 ∷ rest
after_word-tab [] rest h = refl
after_word-tab (c ∷ cs) rest h =
    let inside : is_space c ≡ false = ground arith in
    let more : all (λ d. not (is_space d)) cs ≡ true = ground arith in
    rw inside (after_word-tab cs rest more)

after_level-text :
    (level : Level) (message s whole : Text)
    → s ≡ 9 ∷ (level_text level ++ 9 ∷ message)
    → or_else (after_level levels s) whole ≡ message
after_level-text info_level message s whole e = ap (λ t. or_else (after_level levels t) whole) e
after_level-text warn_level message s whole e = ap (λ t. or_else (after_level levels t) whole) e
after_level-text error_level message s whole e = ap (λ t. or_else (after_level levels t) whole) e
after_level-text fatal_level message s whole e = ap (λ t. or_else (after_level levels t) whole) e

after_prefix-whole : (p s r : Text) → after_prefix p s ≡ some r → s ≡ p ++ r
after_prefix-whole [] s r h = cc
after_prefix-whole (c ∷ cs) [] r h = absurd (ground arith)
after_prefix-whole (c ∷ cs) (d ∷ ds) r h = elim (Bool-cases (eqb c d)) [
  | inl same ↦
      let rest : after_prefix cs ds ≡ some r = ground arith in
      let first : c ≡ d = grind arith in let others = after_prefix-whole cs ds r rest in cc
  | inr other ↦ absurd (ground arith)
]

-- A text that begins with a level between tabs, and what follows.
abbrev IsLevelled : Text → Text → Type 0
IsLevelled s r = (level : Level) × (s ≡ 9 ∷ (level_text level ++ 9 ∷ r))

after_level-cases :
    (s : Text)
    → (after_level levels s ≡ none)
      ⊎ ((r : Text) × (after_level levels s ≡ some r) × IsLevelled s r)
after_level-cases s = elim (Option-cases (after_prefix (codes "\tINFO\t") s)) [
  | inr (r, i) ↦ rw i (inr (r, refl, (info_level, after_prefix-whole (codes "\tINFO\t") s r i)))
  | inl i ↦ rw i (elim (Option-cases (after_prefix (codes "\tWARN\t") s)) [
    | inr (r, w) ↦ rw w (inr (r, refl, (warn_level, after_prefix-whole (codes "\tWARN\t") s r w)))
    | inl w ↦ rw w (elim (Option-cases (after_prefix (codes "\tERROR\t") s)) [
      | inr (r, e) ↦
          rw e (inr (r, refl, (error_level, after_prefix-whole (codes "\tERROR\t") s r e)))
      | inl e ↦ rw e (elim (Option-cases (after_prefix (codes "\tFATAL\t") s)) [
        | inr (r, x) ↦
            rw x (inr (r, refl, (fatal_level, after_prefix-whole (codes "\tFATAL\t") s r x)))
        | inl x ↦ rw x (inl refl)
      ])
    ])
  ])
]

-- The text is a word without spaces and what stands behind it.
after_word-whole :
    (s : Text)
    → (word : Text) × (all (λ d. not (is_space d)) word ≡ true) × (s ≡ word ++ after_word s)
after_word-whole [] = ([], refl, refl)
after_word-whole (c ∷ cs) = elim (Bool-cases (is_space c)) [
  | inl space ↦ ([], refl, rw space refl)
  | inr inside ↦
      let (word, free, whole) = after_word-whole cs in
      (c ∷ word, ground arith, rw inside (ap (◌∷◌ c) whole))
]

-- A line with a word, a level and then the text.
abbrev pub IsTagged : Text → Text → Type 0
IsTagged s r =
    (c : ℕ) × (word : Text) × (level : Level) × (all (λ d. not (is_space d)) (c ∷ word) ≡ true)
    × (s ≡ tagged (c ∷ word) level r)

untagged :
    (c : ℕ) (cs : Text)
    → is_space c ≡ false
    → (or_else (after_level levels (after_word cs)) (c ∷ cs) ≡ c ∷ cs)
      ⊎ IsTagged (c ∷ cs) (or_else (after_level levels (after_word cs)) (c ∷ cs))
untagged c cs inside = elim (after_level-cases (after_word cs)) [
  | inl unread ↦ rw unread (inl refl)
  | inr (r, found, (level, begins)) ↦
      let (word, free, whole) = after_word-whole cs in
      rw found (inr (c, word, level, ground arith, ap (◌∷◌ c) (whole ∙ ap (λ t. word ++ t) begins)))
]

-- A line that begins with a word without spaces, such as the time, and a level, each before a tab,
-- loses these and nothing else; and every line that loses anything begins with such a word and
-- level, behind which the rest stands.
pub without_prefix-tagged :
    (c : ℕ) (word message : Text) (level : Level) (s : Text)
    → all (λ d. not (is_space d)) (c ∷ word) ≡ true
    → (without_prefix (tagged (c ∷ word) level message) ≡ message)
      × ((without_prefix s ≡ s) ⊎ IsTagged s (without_prefix s))
unfolding without_prefix
without_prefix-tagged c word message level s h = (strips, keeps s)
  where
    strips : without_prefix (tagged (c ∷ word) level message) ≡ message
    strips =
        let inside : is_space c ≡ false = ground arith in
        rw inside (after_level-text level message _ _ (after_word-tab word _ (ground arith)))

    keeps : (t : Text) → (without_prefix t ≡ t) ⊎ IsTagged t (without_prefix t)
    keeps [] = inl refl
    keeps (d ∷ ds) = elim (Bool-cases (is_space d)) [
      | inl space ↦ rw space (inl refl)
      | inr free ↦ rw free (untagged d ds free)
    ]
