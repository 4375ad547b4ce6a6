-- ===== src/Main/Audit/Tests.antt =====
-- The export of the audit log at concrete inputs.
use podscape.Common.{false, none, some, [], ◌∷◌, map, codes, ◌≡◌, refl, All}
use podscape.Common.Csv.{read_rows, double_quotes}
use podscape.Main.Audit.{
  absent, scalar, object, AuditEntry, csv_columns, export_csv, audit_log_to_csv,
  fetch_audit_entries, csv_escape, needs_quotes, neutralized,
}
use podscape.Main.Audit.ReadBack.{is_evaluated, row_of, read_rows-export_csv}

abbrev deleted : AuditEntry
deleted =
    ("seq", scalar (codes "2"))
    ∷ ("action", scalar (codes "delete, force"))
    ∷ ("error", scalar (codes "=HYPERLINK()"))
    ∷ ("params", object (codes "{\"grace\":0}"))
    ∷ []

abbrev started : AuditEntry
started = ("seq", scalar (codes "1")) ∷ ("os_user", absent) ∷ []

-- A quote is doubled, and a formula is put behind a single quote.
params_in_quotes : csv_escape (object (codes "a\"b")) ≡ codes "\"a\"\"b\""
unfolding csv_escape needs_quotes neutralized double_quotes
params_in_quotes = refl

-- An answer that is not ok is exported as a log with no entries.
failed_export : export_csv none ≡ audit_log_to_csv []
unfolding export_csv fetch_audit_entries
failed_export = refl

read_rows-export_csv_example :
    (read_rows (export_csv (some (deleted ∷ started ∷ [])))
      ≡ map codes csv_columns ∷ row_of started ∷ row_of deleted ∷ [])
    × All (All (λ s. is_evaluated s ≡ false)) (row_of started ∷ row_of deleted ∷ [])
read_rows-export_csv_example = read_rows-export_csv (deleted ∷ started ∷ [])
