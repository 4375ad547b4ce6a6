-- ===== src/Main/Env/SearchPath.antt =====
-- The search path that main/system/env.ts builds.
use podscape.Common.{ℕ, true, not, List, [], ◌∷◌, ◌++◌, ◌≡◌, refl, codes_eq, if◌then◌else◌, arith}
use podscape.Common.Splits.{Text, IsFree}
use podscape.Main.Env.{is_nonempty, has}

pub codes_eq_refl : (s : Text) → codes_eq s s ≡ true
codes_eq_refl [] = refl
codes_eq_refl (c ∷ cs) = ground (arith, codes_eq_refl cs)

-- A path that can stand in a search path.
abbrev pub IsPlain : ℕ → Text → Type 0
IsPlain sep s = (is_nonempty s ≡ true) × IsFree sep s

abbrev pushed : Text → List Text → List Text
pushed p ex = if not (has p ex) then ex ++ p ∷ [] else ex
