-- ===== src/Security/Download.antt =====
-- The download of the results of a scan: escapeCSV and downloadResults of
-- renderer/components/advanced/SecurityHub.tsx. The issues of the results have no field `rule`, which
-- the code reads first. The texts of results are native strings, and the file is code points.
pub mod ReadBack
mod Tests
use podscape.Common.{
  ℕ, String, Bool, true, false, ◌||◌, Option, none, some, List, [], ◌∷◌, ◌++◌, any, map, codes, eqb,
  or_else, truthy, join_text, if◌then◌else◌,
}
use podscape.Common.Splits.{Text, join_with}
use podscape.Common.Csv.{double_quotes}
use podscape.Security.Rules.{IssueLevel, error, warning, info}
use podscape.Security.Unified.{
  IssueSource, config, kubesec, UnifiedIssue, Vulnerability, UnifiedResource,
}

pub has_separator : Text → Bool
has_separator = any (λ c. eqb c b',' || (eqb c b'"' || eqb c b'\n'))

pub escape_csv : Text → Text
escape_csv s = if has_separator s then b'"' ∷ (double_quotes s ++ b'"' ∷ []) else s

abbrev pub header : List Text
header =
    codes "Resource"
    ∷ codes "Namespace"
    ∷ codes "Kind"
    ∷ codes "Finding Type"
    ∷ codes "Severity"
    ∷ codes "ID / Rule"
    ∷ codes "Message"
    ∷ codes "Fix / Description"
    ∷ []

abbrev pub level_name : IssueLevel → String
level_name error = "Critical"
level_name warning = "Warning"
level_name info = "Warning"

abbrev pub source_name : IssueSource → String
source_name config = "config"
source_name kubesec = "kubesec"

-- The columns of a finding after the name of its resource.
pub issue_columns : UnifiedResource → UnifiedIssue → List Text
issue_columns r i =
    codes (or_else r.namespace "")
    ∷ codes (or_else r.kind "")
    ∷ codes "Config"
    ∷ codes (level_name i.issue.level)
    ∷ codes (source_name i.source)
    ∷ codes i.issue.message
    ∷ codes i.issue.suggestion
    ∷ []

pub vulnerability_columns : UnifiedResource → Vulnerability → List Text
vulnerability_columns r v =
    codes (or_else r.namespace "")
    ∷ codes (or_else r.kind "")
    ∷ codes "CVE"
    ∷ codes v.severity
    ∷ codes v.id
    ∷ codes (or_else v.title "")
    ∷ codes (elim (truthy (some v.fixed_version)) [
      | none ↦ ""
      | some version ↦ join_text ("Fix: " ∷ version ∷ [])
    ])
    ∷ []

-- A row is the name of its resource and the columns of its finding.
abbrev pub Row : Type 0
Row = Text × List Text

abbrev pub rows_of : UnifiedResource → List Row
rows_of r =
    map (λ i. (codes r.name, issue_columns r i)) r.issues
    ++ map (λ v. (codes r.name, vulnerability_columns r v)) r.vulnerabilities

pub rows : List UnifiedResource → List Row
rows [] = []
rows (r ∷ rs) = rows_of r ++ rows rs

abbrev pub fields : Row → List Text
fields (name, columns) = name ∷ columns

abbrev pub write_row : List Text → Text
write_row row = join_with b',' (map escape_csv row)

pub csv_content : List UnifiedResource → Text
csv_content results =
    join_with b'\n' (write_row header ∷ map (λ r. write_row (fields r)) (rows results))
