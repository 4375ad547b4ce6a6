-- ===== src/Main/Scan/Chunks.antt =====
-- The events of a scan do not depend on how main/ipc/kubectl.ts receives them.
use podscape.Common.{
  ℕ, true, false, List, [], ◌∷◌, ◌++◌, ◌≡◌, refl, ◌∙◌, sym, ap, arith, Bool-cases, inl, inr,
}
use podscape.Common.Splits.{Text}
use podscape.Main.Scan.{push_front, is_break, cut_blocks}

-- The blocks of a first part, then those of what it leaves and the rest.
abbrev pub then_blocks : List Text → List Text × Text → List Text × Text
then_blocks bs p = (bs ++ p.0, p.1)

push_front-then :
    (c : ℕ) (b : Text) (bs : List Text) (p : List Text × Text)
    → push_front c (then_blocks (b ∷ bs) p) ≡ then_blocks ((c ∷ b) ∷ bs) p
push_front-then c b bs p = refl

cut-break :
    (c d : ℕ) (cs : Text)
    → is_break c d ≡ true
    → cut_blocks (c ∷ d ∷ cs) ≡ ([] ∷ (cut_blocks cs).0, (cut_blocks cs).1)
unfolding cut_blocks
cut-break c d cs h = rw (cut_blocks, h) refl

cut-more :
    (c d : ℕ) (cs : Text)
    → is_break c d ≡ false
    → cut_blocks (c ∷ d ∷ cs) ≡ push_front c (cut_blocks (d ∷ cs))
unfolding cut_blocks
cut-more c d cs h = rw (cut_blocks, h) refl

-- A text with no block in it is left as it is.
push_front-whole :
    (c : ℕ) (xs : Text) (p : List Text × Text)
    → (p.0 ≡ [] → p.1 ≡ xs)
    → (push_front c p).0 ≡ []
    → (push_front c p).1 ≡ c ∷ xs
push_front-whole c xs ([], rest) h e = ap (◌∷◌ c) (h refl)
push_front-whole c xs (b ∷ bs, rest) h e = absurd (ground arith)

cut_blocks-whole : (xs : Text) → (cut_blocks xs).0 ≡ [] → (cut_blocks xs).1 ≡ xs
unfolding cut_blocks
cut_blocks-whole [] e = refl
cut_blocks-whole (c ∷ []) e = refl
cut_blocks-whole (c ∷ d ∷ cs) e = elim (Bool-cases (is_break c d)) [
  | inl cut ↦ absurd (
      let none_left : [] ∷ (cut_blocks cs).0 ≡ [] =
        ap (λ p. p.0) (sym (cut-break c d cs cut)) ∙ e in
      ground arith)
  | inr more ↦
      ap (λ p. p.1) (cut-more c d cs more)
      ∙ push_front-whole c (d ∷ cs) (cut_blocks (d ∷ cs)) (cut_blocks-whole (d ∷ cs))
          (ap (λ p. p.0) (sym (cut-more c d cs more)) ∙ e)
]

-- One character in front of a text whose parts are known.
front-append :
    (c d : ℕ) (cs ys : Text) (p : List Text × Text)
    → is_break c d ≡ false
    → (p.0 ≡ [] → p.1 ≡ d ∷ cs)
    → cut_blocks (d ∷ (cs ++ ys)) ≡ then_blocks p.0 (cut_blocks (p.1 ++ ys))
    → push_front c (cut_blocks (d ∷ (cs ++ ys)))
      ≡ then_blocks (push_front c p).0 (cut_blocks ((push_front c p).1 ++ ys))
front-append c d cs ys (b ∷ bs, rest) h whole e = ap (push_front c) e
front-append c d cs ys ([], rest) h whole e =
    let same : rest ≡ d ∷ cs = whole refl in
    sym (cut-more c d (cs ++ ys) h) ∙ ap (λ xs. cut_blocks (c ∷ (xs ++ ys))) (sym same)

pub cut_blocks-append :
    (xs ys : Text)
    → cut_blocks (xs ++ ys) ≡ then_blocks (cut_blocks xs).0 (cut_blocks ((cut_blocks xs).1 ++ ys))
unfolding cut_blocks
cut_blocks-append [] ys = refl
cut_blocks-append (c ∷ []) ys = refl
cut_blocks-append (c ∷ d ∷ cs) ys = elim (Bool-cases (is_break c d)) [
  | inl cut ↦
      cut-break c d (cs ++ ys) cut
      ∙ ap (λ p. ([] ∷ p.0, p.1)) (cut_blocks-append cs ys)
      ∙ ap (λ p. then_blocks p.0 (cut_blocks (p.1 ++ ys))) (sym (cut-break c d cs cut))
  | inr more ↦
      cut-more c d (cs ++ ys) more
      ∙ front-append c d cs ys (cut_blocks (d ∷ cs)) more (cut_blocks-whole (d ∷ cs))
          (cut_blocks-append (d ∷ cs) ys)
      ∙ ap (λ p. then_blocks p.0 (cut_blocks (p.1 ++ ys))) (sym (cut-more c d cs more))
]
