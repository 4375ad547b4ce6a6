-- ===== src/Security/Unified/Rows.antt =====
-- The rows of renderer/utils/security/buildUnifiedResults.ts: each finding in its own.
use podscape.Common.{ℕ, ltb, Bool, List, length, ◌+◌}
use podscape.Security.Unified.{UnifiedResource}

-- How many findings a row has, and whether one has more than another.
abbrev pub findings : UnifiedResource → ℕ
findings u = length u.issues + length u.vulnerabilities

abbrev pub has_more : UnifiedResource → UnifiedResource → Bool
has_more a b = ltb (findings b) (findings a)
