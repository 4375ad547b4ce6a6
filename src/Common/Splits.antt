-- ===== src/Common/Splits.antt =====
-- `split` and `join` of JavaScript, for a separator of one character. Texts are lists of code points.
use podscape.Common.{
  ℕ, Bool, false, List, [], ◌∷◌, ◌++◌, ◌≡◌, refl, eqb, leb, ◌&&◌, ◌||◌, Option, none, some,
  if◌then◌else◌, arith, All,
}

abbrev pub Text : Type 0
Text = List ℕ

-- `s.split(sep)` for a separator of one character.
abbrev pub push_head : ℕ → List Text → List Text
push_head c [] = (c ∷ []) ∷ []
push_head c (x ∷ xs) = (c ∷ x) ∷ xs

unfoldable pub split : ℕ → Text → List Text
split sep [] = [] ∷ []
split sep (c ∷ cs) = let rest = split sep cs in if eqb c sep then [] ∷ rest else push_head c rest

-- `xs.join(sep)`.
unfoldable pub join_with : ℕ → List Text → Text
join_with sep [] = []
join_with sep (x ∷ []) = x
join_with sep (x ∷ y ∷ ys) = x ++ (sep ∷ join_with sep (y ∷ ys))

-- A text without the separator.
abbrev pub IsFree : ℕ → Text → Type 0
IsFree sep s = All (λ c. eqb c sep ≡ false) s

pub split-append :
    (sep : ℕ) (x rest : Text) → IsFree sep x → split sep (x ++ sep ∷ rest) ≡ x ∷ split sep rest
unfolding split
split-append sep [] rest h = ground arith
split-append sep (c ∷ cs) rest h = rw (h.0, split-append sep cs rest h.1) refl

pub split_free : (sep : ℕ) (x : Text) → IsFree sep x → split sep x ≡ x ∷ []
unfolding split
split_free sep [] h = refl
split_free sep (c ∷ cs) h = rw (h.0, split_free sep cs h.1) refl

-- The white space of `trim`, in ASCII.
abbrev pub is_space : ℕ → Bool
is_space c = (leb 9 c && leb c 13) || eqb c 32

abbrev drop_spaces : Text → Text
drop_spaces [] = []
drop_spaces (c ∷ cs) = let rest = drop_spaces cs in if is_space c then rest else c ∷ cs

-- Spaces at the end alone are dropped.
abbrev drop_last_spaces : Text → Text
drop_last_spaces [] = []
drop_last_spaces (c ∷ cs) = elim (drop_last_spaces cs) [
  | [] ↦ if is_space c then [] else c ∷ []
  | (d ∷ ds) ↦ c ∷ d ∷ ds
]

-- `s.trim()`.
abbrev pub trim : Text → Text
trim s = drop_last_spaces (drop_spaces s)

-- `text.slice(prefix.length)` if the text starts with the prefix.
abbrev pub after_prefix : Text → Text → Option Text
after_prefix [] s = some s
after_prefix (c ∷ cs) [] = none
after_prefix (c ∷ cs) (d ∷ ds) = let rest = after_prefix cs ds in if eqb c d then rest else none
