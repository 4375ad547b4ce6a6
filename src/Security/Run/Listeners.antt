-- ===== src/Security/Run/Listeners.antt =====
-- The flags, the progress listener and the kept lines of scanSecurity in
-- renderer/store/slices/analysisSlice.ts, and what a start and an end of a scan do to them.
use podscape.Common.{
  ℕ, String, Bool, true, false, not, ◌||◌, Option, none, some, List, [], ◌∷◌, ◌++◌, ◌≤◌, any, all,
  filter, length, eqb, ◌≡◌, refl, arith, Bool-cases, inl, inr, any-append, ◌∙◌, if◌then◌else◌,
  length-filter-le, length-append,
}
use podscape.Common.Slices.{slice_last, length-slice_last-le}
use podscape.Security.Run.{Line, Scan, Analysis, drop_active}
use podscape.Security.Run.Ends.{is_active}

abbrev pub is_under_way : ℕ → List Scan → Bool
is_under_way k = any (λ s. eqb s.seq k)

-- The flag is on only while the latest scan is under way, and a scan is in the background only while
-- the flag is on.
abbrev pub IsFlagged : Bool → Bool → ℕ → List Scan → Type 0
IsFlagged scanning background seq ss =
    ((not scanning || is_under_way seq ss) ≡ true) × ((not background || scanning) ≡ true)

-- At most one listener is there, that of the global slot, whose scan is under way.
abbrev pub IsHeard : Option ℕ → List (ℕ × Option String) → List Scan → Type 0
IsHeard none ls ss = ls ≡ []
IsHeard (some k) ls ss =
    (is_under_way k ss ≡ true) × (length ls ≤ 1) × (all (λ l. eqb l.0 k) ls ≡ true)

unfoldable pub IsValid : Analysis → Type 0
IsValid w =
    IsFlagged w.security_scanning w.scan_in_background w.scan_seq w.under_way
    × IsHeard w.active_progress_unsub w.listeners w.under_way
    × (length w.lines ≤ 10)

pub length-add_line-le : (l : Line) (ls : List Line) → length (slice_last 9 ls ++ l ∷ []) ≤ 10
length-add_line-le l ls =
    omega (arith, length-append (slice_last 9 ls) (l ∷ []), length-slice_last-le 9 ls)

all-filter :
    (p q : ℕ × Option String → Bool) (ls : List (ℕ × Option String))
    → all p ls ≡ true
    → all p (filter q ls) ≡ true
all-filter p q [] h = refl
all-filter p q (l ∷ ls) h = ground (arith, all-filter p q ls)

filter-all :
    (k : ℕ) (ls : List (ℕ × Option String))
    → all (λ l. eqb l.0 k) ls ≡ true
    → filter (λ l. not (eqb l.0 k)) ls ≡ []
filter-all k [] h = refl
filter-all k (l ∷ ls) h = ground (arith, filter-all k ls)

-- The end of another scan.
is_under_way-filter :
    (j k : ℕ) (ss : List Scan)
    → eqb j k ≡ false
    → is_under_way k (filter (λ s. not (eqb s.seq j)) ss) ≡ is_under_way k ss
is_under_way-filter j k [] h = refl
is_under_way-filter j k (s ∷ ss) h = ground (arith, is_under_way-filter j k ss h)

pub filter-IsHeard :
    (j : ℕ) (o : Option ℕ) (ls : List (ℕ × Option String)) (ss : List Scan)
    → IsHeard o ls ss
    → IsHeard o (filter (λ l. not (eqb l.0 j)) ls) ss
filter-IsHeard j none ls ss h = rw h refl
filter-IsHeard j (some k) ls ss (u, n, a) =
    (u, omega (arith, length-filter-le (λ l. not (eqb l.0 j)) ls), all-filter _ _ ls a)

pub drop_active-nil :
    (o : Option ℕ) (ls : List (ℕ × Option String)) (ss : List Scan)
    → IsHeard o ls ss
    → drop_active o ls ≡ []
drop_active-nil none ls ss h = h
drop_active-nil (some k) ls ss (_, _, a) = filter-all k ls a

pub is_under_way-append :
    (k : ℕ) (ss : List Scan) (s : Scan) → eqb s.seq k ≡ true → is_under_way k (ss ++ s ∷ []) ≡ true
is_under_way-append k ss s h = ground (arith, any-append (λ t. eqb t.seq k) ss (s ∷ []))

pub finish-IsFlagged :
    (k : ℕ) (scanning background : Bool) (seq : ℕ) (ss : List Scan)
    → IsFlagged scanning background seq ss
    → IsFlagged
        (if eqb k seq then false else scanning)
        (if eqb k seq then false else background)
        seq
        (filter (λ s. not (eqb s.seq k)) ss)
finish-IsFlagged k scanning background seq ss f = elim (Bool-cases (eqb k seq)) [
  | inl same ↦ rw same (refl, refl)
  | inr differs ↦ rw (differs, is_under_way-filter k seq ss differs) f
]

all-eqb :
    (j k : ℕ) (ls : List (ℕ × Option String))
    → j ≡ k
    → all (λ l. eqb l.0 j) ls ≡ true
    → all (λ l. eqb l.0 k) ls ≡ true
all-eqb j k ls e a = rw (← e) a

pub finish-IsHeard :
    (k : ℕ) (o : Option ℕ) (ls : List (ℕ × Option String)) (ss : List Scan)
    → IsHeard o ls ss
    → IsHeard
        (if is_active k o then none else o)
        (filter (λ l. not (eqb l.0 k)) ls)
        (filter (λ s. not (eqb s.seq k)) ss)
finish-IsHeard k none ls ss h = rw h refl
finish-IsHeard k (some j) ls ss h = elim (Bool-cases (eqb j k)) [
  | inl same ↦ let e : j ≡ k = ground arith in rw same (filter-all k ls (all-eqb j k ls e h.2))
  | inr differs ↦
      let apart : eqb k j ≡ false = ground arith in
      rw differs (
        is_under_way-filter k j ss apart ∙ h.0,
        (filter-IsHeard k (some j) ls ss h).1,
        (filter-IsHeard k (some j) ls ss h).2,
      )
]
