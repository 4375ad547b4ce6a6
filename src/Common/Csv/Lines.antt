-- ===== src/Common/Csv/Lines.antt =====
-- Lines of comma-separated values that are read back as they were written.
use mathlib.Core.List.{append_assoc, map-id}
use podscape.Common.{
  true, false, not, all, arith, List, [], ◌∷◌, ◌++◌, any, map, ◌≡◌, refl, ◌∙◌, sym, ap, All, inr,
}
use podscape.Common.Sorting.{All-each, All-map}
use podscape.Common.Splits.{Text, join_with}
use podscape.Common.Csv.{
  Reader, read_rows, at_field, feed, IsField, is_special, feed-append, HasRead, feed-field,
}

-- A line that reads as these fields.
abbrev pub IsLine : Text → List Text → Type 0
IsLine line fields =
    (rs : List (List Text)) (rest : Text)
    → feed (line ++ b'\n' ∷ rest) (at_field [] rs) ≡ feed rest (at_field [] (rs ++ fields ∷ []))

module _ {ℓ} {A : Type ℓ} (value write : A → Text) where
  IsWritten : A → Type 0
  IsWritten a = IsField (value a) (write a)

  feed-fields :
      (a : A) (more : List A) (r : List Text) (rs : List (List Text)) (rest : Text)
      → All IsWritten (a ∷ more)
      → feed (join_with b',' (map write (a ∷ more)) ++ b'\n' ∷ rest) (at_field r rs)
        ≡ feed rest (at_field [] (rs ++ (r ++ map value (a ∷ more)) ∷ []))
  unfolding join_with feed HasRead IsWritten
  feed-fields a [] r rs rest h =
      feed-append (write a) (b'\n' ∷ rest) (at_field r rs)
      ∙ ap (feed rest) (feed-field (value a) (write a) r rs h.0).1
  feed-fields a (b ∷ more) r rs rest h =
      let line = join_with b',' (map write (b ∷ more)) in
      ap (λ t. feed t (at_field r rs)) (append_assoc (write a) (b',' ∷ line) (b'\n' ∷ rest))
      ∙ feed-append (write a) (b',' ∷ (line ++ b'\n' ∷ rest)) (at_field r rs)
      ∙ ap (feed (line ++ b'\n' ∷ rest)) (feed-field (value a) (write a) r rs h.0).0
      ∙ feed-fields b more (r ++ value a ∷ []) rs rest h.1
      ∙ ap (λ row. feed rest (at_field [] (rs ++ row ∷ [])))
          (append_assoc r (value a ∷ []) (map value (b ∷ more)))

  -- Fields that are written well make a line that reads as their values.
  pub joined-IsLine :
      (a : A) (more : List A)
      → ((x : A) → IsField (value x) (write x))
      → IsLine (join_with b',' (map write (a ∷ more))) (map value (a ∷ more))
  unfolding IsWritten
  joined-IsLine a more h rs rest = feed-fields a more [] rs rest (All-each IsWritten (a ∷ more) h)

-- The same where each of these fields is written well.
pub each-IsLine {ℓ} :
    {A : Type ℓ} (value write : A → Text) (a : A) (more : List A)
    → All (λ x. IsField (value x) (write x)) (a ∷ more)
    → IsLine (join_with b',' (map write (a ∷ more))) (map value (a ∷ more))
unfolding IsWritten
each-IsLine value write a more h rs rest = feed-fields value write a more [] rs rest h

-- The same for texts that are their own values.
pub escaped-IsLine :
    (write : Text → Text) (t : Text) (more : List Text)
    → All (λ s. IsField s (write s)) (t ∷ more)
    → IsLine (join_with b',' (map write (t ∷ more))) (t ∷ more)
escaped-IsLine write t more h rs rest =
    each-IsLine (λ s. s) write t more h rs rest
    ∙ ap (λ ts. feed rest (at_field [] (rs ++ ts ∷ []))) (map-id (t ∷ more))

All-of_all :
    (ts : List Text)
    → all (λ t. not (any is_special t)) ts ≡ true
    → All (λ t. any is_special t ≡ false) ts
All-of_all [] h = tt
All-of_all (t ∷ ts) h =
    let plain : any is_special t ≡ false = ground arith in (plain, All-of_all ts (ground arith))

-- Fields with nothing special in them are written as they are.
pub plain-IsLine :
    (a : Text) (more : List Text)
    → all (λ t. not (any is_special t)) (a ∷ more) ≡ true
    → IsLine (join_with b',' (a ∷ more)) (a ∷ more)
unfolding IsWritten
plain-IsLine a more h rs rest =
    let same = λ (ts : List Text). map-id ts in
    ap (λ ts. feed (join_with b',' ts ++ b'\n' ∷ rest) (at_field [] rs)) (sym (same (a ∷ more)))
    ∙ feed-fields (λ t. t) (λ t. t) a more [] rs rest
        (All-map _ _ (a ∷ more) (λ t e. inr (refl, e)) (All-of_all (a ∷ more) h))
    ∙ ap (λ ts. feed rest (at_field [] (rs ++ ts ∷ []))) (same (a ∷ more))

abbrev pub HasLine : Text × List Text → Type 0
HasLine p = IsLine p.0 p.1

feed-lines :
    (p : Text × List Text) (ps : List (Text × List Text)) (rs : List (List Text))
    → All HasLine (p ∷ ps)
    → feed (join_with b'\n' (map (λ q. q.0) (p ∷ ps)) ++ b'\n' ∷ []) (at_field [] rs)
      ≡ at_field [] (rs ++ map (λ q. q.1) (p ∷ ps))
unfolding join_with feed
feed-lines p [] rs h = h.0 rs []
feed-lines p (q ∷ ps) rs h =
    let text = join_with b'\n' (map (λ t. t.0) (q ∷ ps)) in
    ap (λ t. feed t (at_field [] rs)) (append_assoc p.0 (b'\n' ∷ text) (b'\n' ∷ []))
    ∙ h.0 rs (text ++ b'\n' ∷ [])
    ∙ feed-lines q ps (rs ++ p.1 ∷ []) h.1
    ∙ ap (at_field []) (append_assoc rs (p.1 ∷ []) (map (λ t. t.1) (q ∷ ps)))

-- A text of lines, each with its line feed, reads as the fields of the lines.
pub read_rows-lines :
    (p : Text × List Text) (ps : List (Text × List Text))
    → All HasLine (p ∷ ps)
    → read_rows (join_with b'\n' (map (λ q. q.0) (p ∷ ps)) ++ b'\n' ∷ []) ≡ map (λ q. q.1) (p ∷ ps)
unfolding read_rows
read_rows-lines p ps h = ap (λ (s : Reader). s.rows) (feed-lines p ps [] h)
