-- ===== src/Security/Download/ReadBack.antt =====
-- What is read from the download of renderer/components/advanced/SecurityHub.tsx.
use mathlib.Core.List.{append_assoc}
use mathlib.Core.Path.{subst}
use podscape.Common.{
  String, false, ◌++◌, ◌==◌, if◌then◌else◌, or_else, join_text, eqb, List, [], ◌∷◌, ◌+◌, any, map,
  codes, length, length-append, length-map, sum_of, ◌≡◌, refl, ◌∙◌, sym, ap, arith, All, inl, inr,
  Bool-cases,
}
use podscape.Common.Splits.{Text, join_with}
use podscape.Common.Csv.{IsField, is_special, read_open_rows}
use podscape.Common.Csv.Lines.{IsLine, HasLine, escaped-IsLine, read_rows-lines}
use podscape.Security.Rules.{IssueLevel, error, warning, info}
use podscape.Security.Unified.{
  IssueSource, config, kubesec, UnifiedIssue, Vulnerability, UnifiedResource,
}
use podscape.Security.Download.{
  level_name, source_name, has_separator, escape_csv, header, Row, issue_columns,
  vulnerability_columns, rows, fields, write_row, csv_content,
}

abbrev severity_of : IssueLevel → String
severity_of error = "Critical"
severity_of warning = "Warning"
severity_of info = "Warning"

abbrev finder_of : IssueSource → String
finder_of config = "config"
finder_of kubesec = "kubesec"

severity_of-eq : (l : IssueLevel) → level_name l ≡ severity_of l
severity_of-eq error = refl
severity_of-eq warning = refl
severity_of-eq info = refl

finder_of-eq : (s : IssueSource) → source_name s ≡ finder_of s
finder_of-eq config = refl
finder_of-eq kubesec = refl

-- A row for each finding, in words: the name, the namespace and the kind of its resource, and the
-- columns of an issue or of a vulnerability.
abbrev issue_row : UnifiedResource → UnifiedIssue → List Text
issue_row r i =
    codes r.name
    ∷ codes (or_else r.namespace "")
    ∷ codes (or_else r.kind "")
    ∷ codes "Config"
    ∷ codes (severity_of i.issue.level)
    ∷ codes (finder_of i.source)
    ∷ codes i.issue.message
    ∷ codes i.issue.suggestion
    ∷ []

abbrev fix_of : String → String
fix_of version = if version == "" then "" else join_text ("Fix: " ∷ version ∷ [])

abbrev vulnerability_row : UnifiedResource → Vulnerability → List Text
vulnerability_row r v =
    codes r.name
    ∷ codes (or_else r.namespace "")
    ∷ codes (or_else r.kind "")
    ∷ codes "CVE"
    ∷ codes v.severity
    ∷ codes v.id
    ∷ codes (or_else v.title "")
    ∷ codes (fix_of v.fixed_version)
    ∷ []

unfoldable pub expected : List UnifiedResource → List (List Text)
expected [] = []
expected (r ∷ rs) =
    map (issue_row r) r.issues ++ (map (vulnerability_row r) r.vulnerabilities ++ expected rs)

issue_row-eq :
    (r : UnifiedResource) (i : UnifiedIssue) → codes r.name ∷ issue_columns r i ≡ issue_row r i
unfolding issue_columns
issue_row-eq r i = rw (severity_of-eq i.issue.level, finder_of-eq i.source) refl

vulnerability_row-eq :
    (r : UnifiedResource) (v : Vulnerability)
    → codes r.name ∷ vulnerability_columns r v ≡ vulnerability_row r v
unfolding vulnerability_columns
vulnerability_row-eq r v = elim (Bool-cases (v.fixed_version == "")) [
  | inl none_known ↦ rw none_known refl
  | inr known ↦ rw known refl
]

issues-fields :
    (r : UnifiedResource) (is : List UnifiedIssue) (more : List Row) (rest : List (List Text))
    → map fields more ≡ rest
    → map fields (map (λ i. (codes r.name, issue_columns r i)) is ++ more)
      ≡ map (issue_row r) is ++ rest
issues-fields r [] more rest h = h
issues-fields r (i ∷ is) more rest h =
    ap (λ row. row ∷ map fields (map (λ i. (codes r.name, issue_columns r i)) is ++ more))
      (issue_row-eq r i)
    ∙ ap (◌∷◌ (issue_row r i)) (issues-fields r is more rest h)

vulnerabilities-fields :
    (r : UnifiedResource) (vs : List Vulnerability) (more : List Row) (rest : List (List Text))
    → map fields more ≡ rest
    → map fields (map (λ v. (codes r.name, vulnerability_columns r v)) vs ++ more)
      ≡ map (vulnerability_row r) vs ++ rest
vulnerabilities-fields r [] more rest h = h
vulnerabilities-fields r (v ∷ vs) more rest h =
    ap (λ row. row ∷ map fields (map (λ v. (codes r.name, vulnerability_columns r v)) vs ++ more))
      (vulnerability_row-eq r v)
    ∙ ap (◌∷◌ (vulnerability_row r v)) (vulnerabilities-fields r vs more rest h)

rows-expected : (rs : List UnifiedResource) → map fields (rows rs) ≡ expected rs
unfolding rows expected
rows-expected [] = refl
rows-expected (r ∷ rs) =
    let issues = map (λ i. (codes r.name, issue_columns r i)) r.issues in
    let found = map (λ v. (codes r.name, vulnerability_columns r v)) r.vulnerabilities in
    ap (map fields) (append_assoc issues found (rows rs))
    ∙ issues-fields r r.issues (found ++ rows rs) _
        (vulnerabilities-fields r r.vulnerabilities (rows rs) _ (rows-expected rs))

-- A text without a carriage return, which `escapeCSV` does not put in quotes.
abbrev pub IsReturnFree : Text → Type 0
IsReturnFree s = any (λ c. eqb c 13) s ≡ false

not_special : (s : Text) → has_separator s ≡ false → IsReturnFree s → any is_special s ≡ false
unfolding has_separator
not_special [] h k = refl
not_special (c ∷ cs) h k = ground (arith, not_special cs)

escape_csv-IsField : (s : Text) → IsReturnFree s → IsField s (escape_csv s)
unfolding escape_csv
escape_csv-IsField s k = elim (Bool-cases (has_separator s)) [
  | inl quotes ↦ rw quotes (inl refl)
  | inr plain ↦ rw plain (inr (refl, not_special s plain k))
]

fields-IsField : (ts : List Text) → All IsReturnFree ts → All (λ s. IsField s (escape_csv s)) ts
fields-IsField [] h = tt
fields-IsField (t ∷ ts) h = (escape_csv-IsField t h.0, fields-IsField ts h.1)

write_row-IsLine :
    (name : Text) (columns : List Text)
    → All IsReturnFree (name ∷ columns)
    → IsLine (write_row (name ∷ columns)) (name ∷ columns)
write_row-IsLine name columns h =
    escaped-IsLine escape_csv name columns (fields-IsField (name ∷ columns) h)

abbrev line_of : Row → Text × List Text
line_of row = (write_row (fields row), fields row)

-- The names of the columns.
abbrev pub titles : List Text
titles =
    codes "Resource"
    ∷ codes "Namespace"
    ∷ codes "Kind"
    ∷ codes "Finding Type"
    ∷ codes "Severity"
    ∷ codes "ID / Rule"
    ∷ codes "Message"
    ∷ codes "Fix / Description"
    ∷ []

header-IsLine : IsLine (write_row header) header
header-IsLine =
    write_row-IsLine (codes "Resource") _
      (refl, (refl, (refl, (refl, (refl, (refl, (refl, (refl, tt))))))))

lines_read : (rs : List Row) → All (All IsReturnFree) (map fields rs) → All HasLine (map line_of rs)
lines_read [] h = tt
lines_read ((name, columns) ∷ rs) h = (write_row-IsLine name columns h.0, lines_read rs h.1)

lines-written :
    (rs : List Row) → map (λ p. p.0) (map line_of rs) ≡ map (λ r. write_row (fields r)) rs
lines-written [] = refl
lines-written (r ∷ rs) = ap (◌∷◌ (write_row (fields r))) (lines-written rs)

lines-fields : (rs : List Row) → map (λ p. p.1) (map line_of rs) ≡ map fields rs
lines-fields [] = refl
lines-fields (r ∷ rs) = ap (◌∷◌ (fields r)) (lines-fields rs)

length-expected :
    (rs : List UnifiedResource)
    → length (expected rs) ≡ sum_of (λ r. length r.issues + length r.vulnerabilities) rs
unfolding expected
length-expected [] = refl
length-expected (r ∷ rs) =
    let found = map (vulnerability_row r) r.vulnerabilities in
    omega (
      arith,
      length-append (map (issue_row r) r.issues) (found ++ expected rs),
      length-append found (expected rs),
      length-map (issue_row r) r.issues,
      length-map (vulnerability_row r) r.vulnerabilities,
      length-expected rs,
    )

-- Where no text of the findings has a carriage return: the file, read as comma-separated values, has
-- the header and then a row for each issue and each vulnerability of the results, with the texts as
-- they are, the message and the fix included; there are as many rows as findings.
pub read_open_rows-csv_content :
    (results : List UnifiedResource)
    → All (All IsReturnFree) (expected results)
    → (read_open_rows (csv_content results) ≡ titles ∷ expected results)
      × (length (expected results)
          ≡ sum_of (λ r. length r.issues + length r.vulnerabilities) results)
unfolding csv_content
read_open_rows-csv_content results clean =
    let same = rows-expected results in
    let free : All (All IsReturnFree) (map fields (rows results)) =
      subst (All (All IsReturnFree)) (sym same) clean in
    (
      ap (λ ls. read_open_rows (join_with b'\n' (write_row header ∷ ls)))
            (sym (lines-written (rows results)))
          ∙ read_rows-lines (write_row header, header) (map line_of (rows results))
              (header-IsLine, lines_read (rows results) free)
          ∙ ap (◌∷◌ header) (lines-fields (rows results) ∙ same),
      length-expected results,
    )
