-- ===== src/Main/Audit.antt =====
-- main/ipc/audit.ts: the export of the audit log. An entry is an object, a list of its keys and
-- values; texts are lists of code points.
pub mod ReadBack
mod Tests
use podscape.Common.{
  ℕ, String, Bool, true, false, ◌||◌, Option, none, some, List, [], ◌∷◌, ◌++◌, any, map, codes, eqb,
  or_else, if◌then◌else◌,
}
use podscape.Common.Maps.{at_key}
use podscape.Common.Splits.{Text, join_with}
use podscape.Common.Csv.{double_quotes}

-- `undefined` and `null`; a value that `String` writes; an object, as `JSON.stringify` writes it.
pub data Value : Type 0 where
  absent : Value
  scalar object : Text → Value

abbrev pub AuditEntry : Type 0
AuditEntry = List (String × Value)

-- The columns after the first.
abbrev pub further_columns : List String
further_columns =
    "timestamp" ∷ "action" ∷ "kube_context" ∷ "kube_user" ∷ "kube_client_cert_cn" ∷ "os_user"
    ∷ "namespace" ∷ "resource_kind" ∷ "resource_name" ∷ "params" ∷ "outcome" ∷ "error"
    ∷ "duration_ms" ∷ "prev_hash" ∷ "hash" ∷ []

abbrev pub csv_columns : List String
csv_columns = "seq" ∷ further_columns

abbrev pub cell : Value → Text
cell absent = []
cell (scalar text) = text
cell (object json) = json

-- A first character that makes a spreadsheet evaluate the cell: `/^[=+\-@\t\r]/`.
abbrev pub is_formula_start : ℕ → Bool
is_formula_start c =
    eqb c b'=' || (eqb c b'+' || (eqb c b'-' || (eqb c b'@' || (eqb c 9 || eqb c 13))))

abbrev pub is_formula : Text → Bool
is_formula [] = false
is_formula (c ∷ cs) = is_formula_start c

pub neutralized : Text → Text
neutralized s = if is_formula s then b'\'' ∷ s else s

pub needs_quotes : Text → Bool
needs_quotes = any (λ c. eqb c b',' || (eqb c b'"' || (eqb c b'\n' || eqb c 13)))

pub csv_escape : Value → Text
csv_escape value =
    let s = neutralized (cell value) in
    if needs_quotes s then b'"' ∷ (double_quotes s ++ b'"' ∷ []) else s

-- `entry[col]`.
abbrev pub column : AuditEntry → String → Value
column entry col = or_else (at_key col entry) absent

pub csv_line : AuditEntry → Text
csv_line entry = join_with b',' (map (λ col. csv_escape (column entry col)) csv_columns)

pub audit_log_to_csv : List AuditEntry → Text
audit_log_to_csv entries =
    join_with b'\n' (join_with b',' (map codes csv_columns) ∷ map csv_line entries) ++ b'\n' ∷ []

-- The entries of an answer, newest first; `none` is an answer that is not ok.
pub fetch_audit_entries : Option (List AuditEntry) → List AuditEntry
fetch_audit_entries answer = or_else answer []

abbrev pub reverse : List AuditEntry → List AuditEntry
reverse [] = []
reverse (e ∷ es) = reverse es ++ e ∷ []

-- What the handler of `audit:export` writes in the format csv.
pub export_csv : Option (List AuditEntry) → Text
export_csv answer = audit_log_to_csv (reverse (fetch_audit_entries answer))
