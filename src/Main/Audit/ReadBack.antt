-- ===== src/Main/Audit/ReadBack.antt =====
-- What a spreadsheet reads from the export of main/ipc/audit.ts.
use mathlib.Core.Path.{subst}
use podscape.Common.{
  String, ◌==◌, ℕ, Bool, eqb, if◌then◌else◌, false, some, List, [], ◌∷◌, ◌++◌, any, map, codes, ◌≡◌,
  refl, ◌∙◌, sym, ap, arith, All, inl, inr, Bool-cases,
}
use podscape.Common.Splits.{Text, join_with}
use podscape.Common.Maps.{at_key}
use podscape.Common.Csv.{IsField, is_special, read_rows}
use podscape.Common.Csv.Lines.{IsLine, HasLine, joined-IsLine, plain-IsLine, read_rows-lines}
use podscape.Main.Audit.{
  Value, absent, scalar, object, AuditEntry, csv_columns, further_columns, cell, neutralized,
  needs_quotes, csv_escape, column, csv_line, audit_log_to_csv, fetch_audit_entries, reverse,
  export_csv,
}

special_needs_quotes : (s : Text) → needs_quotes s ≡ false → any is_special s ≡ false
unfolding needs_quotes
special_needs_quotes [] h = refl
special_needs_quotes (c ∷ cs) h = ground (arith, special_needs_quotes cs)

neutralized-IsField : (value : Value) → IsField (neutralized (cell value)) (csv_escape value)
unfolding csv_escape
neutralized-IsField value =
    let s = neutralized (cell value) in
    elim (Bool-cases (needs_quotes s)) [
      | inl quotes ↦ rw quotes (inl refl)
      | inr plain ↦ rw plain (inr (refl, special_needs_quotes s plain))
    ]

-- A character that makes a spreadsheet evaluate what it begins: one of = + - @, a tab or a return.
abbrev starts_formula : ℕ → Bool
starts_formula c = any (λ f. eqb f c) (codes "=+-@\t\r")

-- A text that a spreadsheet evaluates.
abbrev pub is_evaluated : Text → Bool
is_evaluated [] = false
is_evaluated (c ∷ cs) = starts_formula c

-- The whole text, behind a single quote where a spreadsheet would evaluate it.
abbrev pub guarded : Text → Text
guarded [] = []
guarded (c ∷ cs) = if starts_formula c then b'\'' ∷ c ∷ cs else c ∷ cs

neutralized-guarded : (s : Text) → neutralized s ≡ guarded s
unfolding neutralized
neutralized-guarded [] = refl
neutralized-guarded (c ∷ cs) = ground arith

-- The text of what an entry holds under a name: nothing, a value or the JSON of an object.
abbrev text_under : AuditEntry → String → Text
text_under [] name = []
text_under ((key, absent) ∷ more) name = if key == name then [] else text_under more name
text_under ((key, scalar text) ∷ more) name = if key == name then text else text_under more name
text_under ((key, object json) ∷ more) name = if key == name then json else text_under more name

cell-column :
    (entry : AuditEntry) (name : String) → cell (column entry name) ≡ text_under entry name
unfolding at_key
cell-column [] name = refl
cell-column ((key, absent) ∷ more) name = elim (Bool-cases (key == name)) [
  | inl here ↦ rw here refl
  | inr not_here ↦ rw not_here (cell-column more name)
]
cell-column ((key, scalar text) ∷ more) name = elim (Bool-cases (key == name)) [
  | inl here ↦ rw here refl
  | inr not_here ↦ rw not_here (cell-column more name)
]
cell-column ((key, object json) ∷ more) name = elim (Bool-cases (key == name)) [
  | inl here ↦ rw here refl
  | inr not_here ↦ rw not_here (cell-column more name)
]

-- The fields of the row of an entry.
abbrev pub row_of : AuditEntry → List Text
row_of entry = map (λ col. guarded (text_under entry col)) csv_columns

abbrev with_row : AuditEntry → Text × List Text
with_row entry = (csv_line entry, row_of entry)

csv_escape-IsField :
    (entry : AuditEntry) (col : String)
    → IsField (guarded (text_under entry col)) (csv_escape (column entry col))
csv_escape-IsField entry col =
    let value = column entry col in
    let same = neutralized-guarded (cell value) ∙ ap guarded (cell-column entry col) in
    subst (λ t. IsField t (csv_escape value)) same (neutralized-IsField value)

csv_line-IsLine : (entry : AuditEntry) → IsLine (csv_line entry) (row_of entry)
unfolding csv_line
csv_line-IsLine entry =
    joined-IsLine (λ col. guarded (text_under entry col)) (λ col. csv_escape (column entry col))
      "seq" further_columns (csv_escape-IsField entry)

header-IsLine : IsLine (join_with b',' (map codes csv_columns)) (map codes csv_columns)
header-IsLine = plain-IsLine (codes "seq") (map codes further_columns) refl

guarded_inert : (s : Text) → is_evaluated (guarded s) ≡ false
guarded_inert [] = refl
guarded_inert (c ∷ cs) = ground arith

lines_read : (entries : List AuditEntry) → All HasLine (map with_row entries)
lines_read [] = tt
lines_read (e ∷ es) = (csv_line-IsLine e, lines_read es)

map-with_row-line : (es : List AuditEntry) → map (λ p. p.0) (map with_row es) ≡ map csv_line es
map-with_row-line [] = refl
map-with_row-line (e ∷ es) = ap (◌∷◌ (csv_line e)) (map-with_row-line es)

map-with_row-fields : (es : List AuditEntry) → map (λ p. p.1) (map with_row es) ≡ map row_of es
map-with_row-fields [] = refl
map-with_row-fields (e ∷ es) = ap (◌∷◌ (row_of e)) (map-with_row-fields es)

read_rows-audit_log_to_csv :
    (entries : List AuditEntry)
    → read_rows (audit_log_to_csv entries) ≡ map codes csv_columns ∷ map row_of entries
unfolding audit_log_to_csv
read_rows-audit_log_to_csv entries =
    let header = join_with b',' (map codes csv_columns) in
    ap (λ ls. read_rows (join_with b'\n' (header ∷ ls) ++ b'\n' ∷ []))
      (sym (map-with_row-line entries))
    ∙ read_rows-lines (header, map codes csv_columns) (map with_row entries)
        (header-IsLine, lines_read entries)
    ∙ ap (◌∷◌ (map codes csv_columns)) (map-with_row-fields entries)

All-of_map {ℓ κ μ} :
    {A : Type ℓ} {B : Type κ} (P : B → Type μ) (f : A → B) (xs : List A)
    → ((x : A) → P (f x))
    → All P (map f xs)
All-of_map P f [] h = tt
All-of_map P f (x ∷ xs) h = (h x, All-of_map P f xs h)

inert_rows :
    (entries : List AuditEntry) → All (All (λ s. is_evaluated s ≡ false)) (map row_of entries)
inert_rows entries = All-of_map (All (λ s. is_evaluated s ≡ false)) row_of entries (λ e.
    All-of_map (λ s. is_evaluated s ≡ false) (λ col. guarded (text_under e col)) csv_columns
      (λ col. guarded_inert (text_under e col)))

-- The exported file, read as comma-separated values, has the columns and then a row for each entry,
-- oldest first: each value as it is, or behind a single quote where a spreadsheet would evaluate
-- it. No field of an entry is one that a spreadsheet evaluates.
pub read_rows-export_csv :
    (newest_first : List AuditEntry)
    → let rows = map row_of (reverse newest_first) in
      (read_rows (export_csv (some newest_first)) ≡ map codes csv_columns ∷ rows)
      × All (All (λ s. is_evaluated s ≡ false)) rows
unfolding export_csv fetch_audit_entries
read_rows-export_csv newest_first =
    (read_rows-audit_log_to_csv (reverse newest_first), inert_rows (reverse newest_first))
