-- ===== src/Security/Run/Lines.antt =====
-- The progress lines of a scan: the relay and the milestones of scanSecurity in
-- renderer/store/slices/analysisSlice.ts.
use mathlib.Core.List.{append_assoc, append-nil}
use podscape.Common.{
  false, not, ◌&&◌, ◌||◌, all, filter, codes, to_lower, includes, if◌then◌else◌, Bool-cases, inl,
  inr, ℕ, suc, String, Bool, true, Option, none, some, List, [], ◌∷◌, ◌++◌, ◌≤◌, ◌-◌, map, length,
  length-append, ◌≡◌, refl, ◌∙◌, sym, ap, arith, eq_refl, same_option,
}
use podscape.Common.Splits.{Text, trim}
use podscape.Common.Slices.{slice_last, slice_last-pos, slice_last-append, drop-append}
use podscape.Security.Kube.{Resource}
use podscape.Security.Scope.{CustomScanOptions, workloads_in_scope}
use podscape.Security.Run.{
  Line, progress, without_prefix, is_blank, is_noise, in_scope, launching, Analysis, add_line,
  relayed, add_relayed, hear, hear_all, start,
}
use podscape.Security.Run.Ends.{starts, progresses, step, run}
use podscape.Security.Run.Listeners.{IsValid, drop_active-nil, length-add_line-le}

abbrev is_visible : Text → Bool
is_visible [] = false
is_visible (c ∷ cs) = true

abbrev noises : List String
noises = "unable to parse container" ∷ "unable to parse image" ∷ "unable to parse digest" ∷ []

-- A text that is not empty and holds none of the noises, in any case.
abbrev pub is_shown : Text → Bool
is_shown t = is_visible t && all (λ n. not (includes (to_lower t) (codes n))) noises

-- The lines of Trivy that are shown, without the time and the level in front and blanks around.
pub kept : List Text → List Line
kept ss = map progress (filter is_shown (map (λ s. trim (without_prefix s)) ss))

-- The guards of the relay, one after the other.
guards-eq :
    (a b c : Bool) (l : Line)
    → (if (a || b) || c then none else some l)
      ≡ (if not a && (not b && (not c && true)) then some l else none)
guards-eq true b c l = refl
guards-eq false true c l = refl
guards-eq false false true l = refl
guards-eq false false false l = refl

relayed-eq :
    (s : Text)
    → relayed s ≡ (
        if is_shown (trim (without_prefix s))
        then some (progress (trim (without_prefix s)))
        else none)
unfolding relayed is_noise
relayed-eq s = shown (trim (without_prefix s))
  where
    shown :
        (t : Text)
        → (if is_blank t || is_noise t then none else some (progress t))
          ≡ (if is_shown t then some (progress t) else none)
    shown [] = refl
    shown (c ∷ cs) =
        let t = to_lower (c ∷ cs) in
        guards-eq (includes t (codes "unable to parse container"))
          (includes t (codes "unable to parse image")) (includes t (codes "unable to parse digest"))
          (progress (c ∷ cs))

abbrev with_relayed : Option Line → List Line → List Line
with_relayed none ls = ls
with_relayed (some l) ls = l ∷ ls

kept-relayed : (s : Text) (ss : List Text) → kept (s ∷ ss) ≡ with_relayed (relayed s) (kept ss)
unfolding kept
kept-relayed s ss = elim (Bool-cases (is_shown (trim (without_prefix s)))) [
  | inl shown ↦ rw (relayed-eq s) (rw shown refl)
  | inr hidden ↦ rw (relayed-eq s) (rw hidden refl)
]

slice_last-short : (ls : List Line) → length ls ≤ 10 → slice_last 10 (ls ++ []) ≡ ls
slice_last-short ls h =
    let all_of : length ls - 10 ≡ 0 = omega arith in
    ap (slice_last 10) (append-nil ls) ∙ slice_last-pos 10 ls (omega arith) ∙ rw all_of refl

-- Nine lines and a new one are the last ten.
slice_last_next :
    (ls : List Line) (l : Line) → slice_last 9 ls ++ l ∷ [] ≡ slice_last 10 (ls ++ l ∷ [])
slice_last_next ls l =
    let n : length (ls ++ l ∷ []) - 10 ≡ length ls - 9 = omega (arith, length-append ls (l ∷ [])) in
    rw (slice_last-pos 9 ls (omega arith), slice_last-pos 10 (ls ++ l ∷ []) (omega arith), n)
      (drop-append (length ls - 9) ls (l ∷ []) (omega arith))

same_option_self : (o : Option String) → same_option o o ≡ true
same_option_self none = refl
same_option_self (some k) = eq_refl k

hear_own :
    (line : Text) (seq : ℕ) (w : Analysis)
    → hear line seq w.selected_context w ≡ add_relayed (relayed line) w
unfolding hear
hear_own line seq w = rw (same_option_self w.selected_context) refl

relay_step :
    (line : Text) (seq : ℕ) (w : Analysis)
    → w.listeners ≡ (seq, w.selected_context) ∷ []
    → step (progresses line) w ≡ add_relayed (relayed line) w
unfolding step hear_all
relay_step line seq w h = ap (λ ls. hear_all line ls w) h ∙ hear_own line seq w

-- The listener of the current context alone, and at most ten lines.
IsRelaying : ℕ → Analysis → Type 0
IsRelaying seq w = (w.listeners ≡ (seq, w.selected_context) ∷ []) × (length w.lines ≤ 10)

relayed_next :
    (o : Option Line) (lines : List Text) (seq : ℕ) (w : Analysis)
    → ((v : Analysis)
        → IsRelaying seq v
        → (run (map progresses lines) v).lines ≡ slice_last 10 (v.lines ++ kept lines))
    → IsRelaying seq w
    → (run (map progresses lines) (add_relayed o w)).lines
      ≡ slice_last 10 (w.lines ++ with_relayed o (kept lines))
unfolding IsRelaying add_line
relayed_next none lines seq w next r = next w r
relayed_next (some l) lines seq w next (h, n) =
    next (add_line l w) (h, length-add_line-le l w.lines)
    ∙ ap (λ ls. slice_last 10 (ls ++ kept lines)) (slice_last_next w.lines l)
    ∙ slice_last-append 10 (w.lines ++ l ∷ []) (kept lines) (omega arith)
    ∙ ap (slice_last 10) (append_assoc w.lines (l ∷ []) (kept lines))

relayed_lines :
    (lines : List Text) (seq : ℕ) (w : Analysis)
    → IsRelaying seq w
    → (run (map progresses lines) w).lines ≡ slice_last 10 (w.lines ++ kept lines)
unfolding run kept IsRelaying
relayed_lines [] seq w (h, n) = sym (slice_last-short w.lines n)
relayed_lines (s ∷ ss) seq w r =
    ap (λ v. (run (map progresses ss) v).lines) (relay_step s seq w r.0)
    ∙ relayed_next (relayed s) ss seq w (relayed_lines ss seq) r
    ∙ ap (λ ls. slice_last 10 (w.lines ++ ls)) (sym (kept-relayed s ss))

start-IsRelaying :
    (options : Option CustomScanOptions) (background : Bool) (workloads : List Resource)
    (w : Analysis)
    → IsValid w
    → IsRelaying (suc w.scan_seq) (start options background workloads w)
unfolding start IsRelaying IsValid
start-IsRelaying options background workloads w (f, h, n) =
    rw (drop_active-nil w.active_progress_unsub w.listeners w.under_way h) (refl, omega arith)

-- When a scan starts, whatever ran before it, and Trivy then reports lines, the progress view is the
-- last ten of: the size of the scope, what is launched, and the lines without their prefix, of which
-- the blank ones and the noise are left out.
pub scan_lines :
    (options : Option CustomScanOptions) (background : Bool) (workloads : List Resource)
    (lines : List Text) (w : Analysis)
    → IsValid w
    → (run (starts options background workloads ∷ map progresses lines) w).lines
      ≡ slice_last 10 (
          in_scope (length (workloads_in_scope options workloads)) ∷ launching options ∷ kept lines)
unfolding run step start
scan_lines options background workloads lines w v =
    relayed_lines lines (suc w.scan_seq) (start options background workloads w)
      (start-IsRelaying options background workloads w v)
