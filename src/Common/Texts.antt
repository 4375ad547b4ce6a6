-- ===== src/Common/Texts.antt =====
-- JavaScript's string methods on native strings. Case is folded on ASCII letters only: the names
-- that the program folds (Kubernetes kinds, environment variables) are ASCII.
use Prim.Native.Nat.{ℕ, ◌+◌, ◌-◌}
use Prim.Native.Char.{code}
use Prim.Native.String
use Prim.Native.String.{String}
use mathlib.Core.Bool.{Bool, true, false, ◌&&◌, ◌||◌}
use mathlib.Core.List.{List, [], ◌∷◌, map}
use podscape.Common.Tests.{leb, eqb, if◌then◌else◌}

-- The code points of a string.
abbrev pub codes : String → List ℕ
codes String.[] = []
codes (String.◌∷◌ c s) = code c ∷ codes s

abbrev pub upper_code : ℕ → ℕ
upper_code c = if leb b'a' c && leb c b'z' then c - 32 else c

abbrev pub lower_code : ℕ → ℕ
lower_code c = if leb b'A' c && leb c b'Z' then c + 32 else c

abbrev pub to_upper : List ℕ → List ℕ
to_upper = map upper_code

abbrev pub to_lower : List ℕ → List ℕ
to_lower = map lower_code

abbrev pub codes_eq : List ℕ → List ℕ → Bool
codes_eq [] [] = true
codes_eq (c ∷ cs) (d ∷ ds) = eqb c d && codes_eq cs ds
codes_eq _ _ = false

abbrev pub starts_with : List ℕ → List ℕ → Bool
starts_with s [] = true
starts_with [] (d ∷ ds) = false
starts_with (c ∷ cs) (d ∷ ds) = eqb c d && starts_with cs ds

-- `s.includes(t)`.
abbrev pub includes : List ℕ → List ℕ → Bool
includes [] t = starts_with [] t
includes (c ∷ cs) t = starts_with (c ∷ cs) t || includes cs t

-- `s.endsWith(t)`.
abbrev pub ends_with : List ℕ → List ℕ → Bool
ends_with [] t = starts_with [] t
ends_with (c ∷ cs) t = codes_eq (c ∷ cs) t || ends_with cs t

-- A template literal.
abbrev pub join_text : List String → String
join_text [] = ""
join_text (s ∷ ss) = String.◌++◌ s (join_text ss)
