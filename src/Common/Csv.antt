-- ===== src/Common/Csv.antt =====
-- Comma-separated values as RFC 4180 reads them, and the fields that are read back as they were
-- written. The reader is a machine on the characters; outside quotes a carriage return ends a row as
-- a line feed does.
pub mod Lines
use mathlib.Core.List.{append_assoc, append-nil}
use podscape.Common.{
  ℕ, Bool, true, false, not, ◌&&◌, ◌||◌, List, [], ◌∷◌, ◌++◌, any, eqb, if◌then◌else◌, map, ◌≡◌,
  refl, ◌∙◌, sym, ap, arith, ◌⊎◌, inl, inr, Bool-cases,
}
use podscape.Common.Splits.{Text, join_with}

pub data Mode : Type 0 where
  start plain quoted quote_seen : Mode

pub record Reader : Type 0 where
  pub mode : Mode
  pub field : Text
  pub row : List Text
  pub rows : List (List Text)

-- Before a field, with the fields of its row and the rows before it.
abbrev pub at_field : List Text → List (List Text) → Reader
at_field row rows = record { mode = start; field = []; row = row; rows = rows }

abbrev end_field : Reader → Reader
end_field s = at_field (s.row ++ s.field ∷ []) s.rows

abbrev end_row : Reader → Reader
end_row s = at_field [] (s.rows ++ (s.row ++ s.field ∷ []) ∷ [])

abbrev push : Mode → ℕ → Reader → Reader
push m c s = record s { mode = m; field = s.field ++ c ∷ [] }

abbrev is_line_end : ℕ → Bool
is_line_end c = eqb c b'\n' || eqb c 13

-- A character outside quotes.
abbrev unquoted : ℕ → Reader → Reader
unquoted c s =
    if eqb c b',' then end_field s else if is_line_end c then end_row s else push plain c s

pub read_char : ℕ → Reader → Reader
read_char c s = elim s.mode [
  | start ↦ if eqb c b'"' then record s { mode = quoted } else unquoted c s
  | plain ↦ unquoted c s
  | quoted ↦ if eqb c b'"' then record s { mode = quote_seen } else push quoted c s
  | quote_seen ↦ if eqb c b'"' then push quoted c s else unquoted c s
]

pub feed : Text → Reader → Reader
feed [] s = s
feed (c ∷ cs) s = feed cs (read_char c s)

-- The rows of a text whose rows end with line feeds, and of one whose last row has none.
pub read_rows : Text → List (List Text)
read_rows text = (feed text (at_field [] [])).rows

abbrev pub read_open_rows : Text → List (List Text)
read_open_rows text = read_rows (text ++ b'\n' ∷ [])

-- `s.replace(/"/g, '""')`.
unfoldable pub double_quotes : Text → Text
double_quotes [] = []
double_quotes (c ∷ cs) =
    let rest = double_quotes cs in if eqb c b'"' then c ∷ c ∷ rest else c ∷ rest

abbrev pub is_special : ℕ → Bool
is_special c = eqb c b',' || (eqb c b'"' || (eqb c b'\n' || eqb c 13))

-- A field as it may be written: in quotes, or as it is where nothing in it is special.
abbrev pub IsField : Text → Text → Type 0
IsField value written =
    (written ≡ b'"' ∷ (double_quotes value ++ b'"' ∷ []))
    ⊎ ((written ≡ value) × (any is_special value ≡ false))

pub feed-append : (xs ys : Text) (s : Reader) → feed (xs ++ ys) s ≡ feed ys (feed xs s)
unfolding feed
feed-append [] ys s = refl
feed-append (x ∷ xs) ys s = feed-append xs ys (read_char x s)

feed-plain :
    (cs f : Text) (r : List Text) (rs : List (List Text))
    → any is_special cs ≡ false
    → feed cs (record { mode = plain; field = f; row = r; rows = rs })
      ≡ record { mode = plain; field = f ++ cs; row = r; rows = rs }
unfolding feed read_char
feed-plain [] f r rs h = rw (append-nil f) refl
feed-plain (c ∷ cs) f r rs h =
    let no_comma : eqb c b',' ≡ false = ground arith in
    let no_line : is_line_end c ≡ false = ground arith in
    let more : any is_special cs ≡ false = ground arith in
    rw (no_comma, no_line)
      (feed-plain cs (f ++ c ∷ []) r rs more
        ∙ ap (λ g. record { mode = plain; field = g; row = r; rows = rs })
            (append_assoc f (c ∷ []) cs))

feed-double_quote :
    (c : ℕ) (cs f : Text) (r : List Text) (rs : List (List Text))
    → eqb c b'"' ≡ true
    → feed (c ∷ c ∷ cs) (record { mode = quoted; field = f; row = r; rows = rs })
      ≡ feed cs (record { mode = quoted; field = f ++ c ∷ []; row = r; rows = rs })
unfolding feed read_char
feed-double_quote c cs f r rs h = ground arith

feed-other :
    (c : ℕ) (cs f : Text) (r : List Text) (rs : List (List Text))
    → eqb c b'"' ≡ false
    → feed (c ∷ cs) (record { mode = quoted; field = f; row = r; rows = rs })
      ≡ feed cs (record { mode = quoted; field = f ++ c ∷ []; row = r; rows = rs })
unfolding feed read_char
feed-other c cs f r rs h = ground arith

feed-quoted :
    (cs f : Text) (r : List Text) (rs : List (List Text))
    → feed (double_quotes cs) (record { mode = quoted; field = f; row = r; rows = rs })
      ≡ record { mode = quoted; field = f ++ cs; row = r; rows = rs }
unfolding feed read_char double_quotes
feed-quoted [] f r rs = rw (append-nil f) refl
feed-quoted (c ∷ cs) f r rs =
    let next =
      feed-quoted cs (f ++ c ∷ []) r rs
      ∙ ap (λ g. record { mode = quoted; field = g; row = r; rows = rs })
          (append_assoc f (c ∷ []) cs) in
    elim (Bool-cases (eqb c b'"')) [
      | inl quote ↦ rw quote (feed-double_quote c (double_quotes cs) f r rs quote ∙ next)
      | inr other ↦ rw other (feed-other c (double_quotes cs) f r rs other ∙ next)
    ]

-- What a field leaves behind: the next comma ends it, and so does the next line feed.
pub HasRead : Text → List Text → List (List Text) → Reader → Type 0
HasRead value row rows s =
    (read_char b',' s ≡ at_field (row ++ value ∷ []) rows)
    × (read_char b'\n' s ≡ at_field [] (rows ++ (row ++ value ∷ []) ∷ []))

feed-unquoted :
    (value : Text) (r : List Text) (rs : List (List Text))
    → any is_special value ≡ false
    → HasRead value r rs (feed value (at_field r rs))
unfolding feed read_char HasRead
feed-unquoted [] r rs h = (refl, refl)
feed-unquoted (c ∷ cs) r rs h =
    let no_comma : eqb c b',' ≡ false = ground arith in
    let no_quote : eqb c b'"' ≡ false = ground arith in
    let no_line : is_line_end c ≡ false = ground arith in
    let more : any is_special cs ≡ false = ground arith in
    rw (no_comma, no_quote, no_line, feed-plain cs (c ∷ []) r rs more) (refl, refl)

feed-in_quotes :
    (value : Text) (r : List Text) (rs : List (List Text))
    → HasRead value r rs (feed (b'"' ∷ (double_quotes value ++ b'"' ∷ [])) (at_field r rs))
unfolding feed read_char HasRead
feed-in_quotes value r rs =
    rw
      (
        feed-append (double_quotes value) (b'"' ∷ [])
            (record { mode = quoted; field = []; row = r; rows = rs }),
        feed-quoted value [] r rs,
      )
      (refl, refl)

pub feed-field :
    (value written : Text) (r : List Text) (rs : List (List Text))
    → IsField value written
    → HasRead value r rs (feed written (at_field r rs))
feed-field value written r rs (inl e) = rw e (feed-in_quotes value r rs)
feed-field value written r rs (inr (e, h)) = rw e (feed-unquoted value r rs h)
