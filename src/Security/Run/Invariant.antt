-- ===== src/Security/Run/Invariant.antt =====
-- What holds in every interleaving of scans, lines of Trivy and switches of the cluster:
-- scanSecurity of renderer/store/slices/analysisSlice.ts.
use podscape.Common.{
  ℕ, suc, String, Bool, true, false, not, Option, none, some, List, [], ◌∷◌, eqb, ◌≡◌, refl, arith,
  if_rule, same_option, find,
}
use podscape.Common.Splits.{Text}
use podscape.Security.Run.{
  Line, processing, Scan, Analysis, initially, add_line, unsubscribe, hear, hear_all, relayed,
  add_relayed, start,
}
use podscape.Security.Run.Ends.{
  settle, fail, finish, reset, Event, starts, progresses, ends, breaks, switches, restores, step,
  run,
}
use podscape.Security.Run.Listeners.{
  IsFlagged, IsHeard, IsValid, length-add_line-le, filter-IsHeard, drop_active-nil,
  is_under_way-append, finish-IsFlagged, finish-IsHeard,
}

add_relayed-IsValid : (o : Option Line) (w : Analysis) → IsValid w → IsValid (add_relayed o w)
unfolding IsValid add_line
add_relayed-IsValid none w v = v
add_relayed-IsValid (some l) w (f, h, n) = (f, h, length-add_line-le l w.lines)

unsubscribe-IsValid : (k : ℕ) (w : Analysis) → IsValid w → IsValid (unsubscribe k w)
unfolding IsValid unsubscribe
unsubscribe-IsValid k w (f, h, n) =
    (f, filter-IsHeard k w.active_progress_unsub w.listeners w.under_way h, n)

hear-IsValid :
    (line : Text) (seq : ℕ) (context : Option String) (w : Analysis)
    → IsValid w
    → IsValid (hear line seq context w)
unfolding hear
hear-IsValid line seq context w v =
    if_rule IsValid (not (same_option w.selected_context context))
      (λ _. unsubscribe-IsValid seq w v) (λ _. add_relayed-IsValid (relayed line) w v)

hear_all-IsValid :
    (line : Text) (ls : List (ℕ × Option String)) (w : Analysis)
    → IsValid w
    → IsValid (hear_all line ls w)
unfolding hear_all
hear_all-IsValid line [] w v = v
hear_all-IsValid line ((seq, context) ∷ ls) w v =
    hear_all-IsValid line ls (hear line seq context w) (hear-IsValid line seq context w v)

start-IsValid :
    (options : _) (background : Bool) (workloads : _) (w : Analysis)
    → IsValid w
    → IsValid (start options background workloads w)
unfolding start IsValid
start-IsValid options background workloads w (f, h, n) =
    let latest = is_under_way-append (suc w.scan_seq) w.under_way in
    rw (drop_active-nil w.active_progress_unsub w.listeners w.under_way h) (
      (latest _ (ground arith), ground arith),
      (latest _ (ground arith), omega arith, ground arith),
      omega arith,
    )

settle-IsValid :
    (scan : Scan) (t : _) (k : _) (w : Analysis) → IsValid w → IsValid (settle scan t k w)
unfolding settle add_line IsValid
settle-IsValid scan t k w (f, h, n) =
    if_rule IsValid (not (same_option w.selected_context scan.context)) (λ _. (f, h, n))
      (λ _. ((f.0, refl), h, length-add_line-le processing w.lines))

fail-IsValid : (scan : Scan) (msg : Text) (w : Analysis) → IsValid w → IsValid (fail scan msg w)
unfolding fail IsValid
fail-IsValid scan msg w v =
    if_rule IsValid (not (same_option w.selected_context scan.context)) (λ _. v)
      (λ _. if_rule IsValid (eqb scan.seq w.scan_seq) (λ _. v) (λ _. v))

finish-IsValid : (k : ℕ) (w : Analysis) → IsValid w → IsValid (finish k w)
unfolding finish unsubscribe IsValid
finish-IsValid k w (f, h, n) = (
  finish-IsFlagged k w.security_scanning w.scan_in_background w.scan_seq w.under_way f,
  finish-IsHeard k w.active_progress_unsub w.listeners w.under_way h,
  n,
)

found-IsValid :
    (k : ℕ) (o : Option Scan) (act : Scan → Analysis → Analysis) (w : Analysis)
    → ((scan : Scan) → IsValid w → IsValid (act scan w))
    → IsValid w
    → IsValid (elim o [ none ↦ w | some scan ↦ finish k (act scan w) ])
found-IsValid k none act w h v = v
found-IsValid k (some scan) act w h v = finish-IsValid k (act scan w) (h scan v)

step-IsValid : (e : Event) (w : Analysis) → IsValid w → IsValid (step e w)
unfolding step IsValid reset
step-IsValid (starts options background workloads) w v =
    start-IsValid options background workloads w v
step-IsValid (progresses line) w v = hear_all-IsValid line w.listeners w v
step-IsValid (ends k t c) w v =
    found-IsValid k (find (λ s. eqb s.seq k) w.under_way) (λ scan. settle scan t c) w
      (λ scan. settle-IsValid scan t c w) v
step-IsValid (breaks k msg) w v =
    found-IsValid k (find (λ s. eqb s.seq k) w.under_way) (λ scan. fail scan msg) w
      (λ scan. fail-IsValid scan msg w) v
step-IsValid (switches name) w (f, h, n) = ((refl, refl), h, omega arith)
step-IsValid (restores context msg) w v = v

run_from-IsValid : (es : List Event) (w : Analysis) → IsValid w → IsValid (run es w)
unfolding run
run_from-IsValid [] w v = v
run_from-IsValid (e ∷ es) w v = run_from-IsValid es (step e w) (step-IsValid e w v)

-- In every interleaving of scans, ends of scans, lines of Trivy and switches of the cluster: the
-- scanning flag is on only while the latest scan is under way, and a scan is in the background only
-- while the flag is on; at most one progress listener is there, that of the global slot, whose scan
-- is under way; and at most ten progress lines are kept.
pub run-IsValid : (context : Option String) (es : List Event) → IsValid (run es (initially context))
unfolding IsValid
run-IsValid context es = run_from-IsValid es (initially context) ((refl, refl), refl, omega arith)

nobody_heard :
    (o : Option ℕ) (ls : List (ℕ × Option String)) → IsHeard o ls [] → (o ≡ none) × (ls ≡ [])
nobody_heard none ls h = (refl, h)
nobody_heard (some k) ls h =
    (let never : false ≡ true = h.0 in cc, let never : false ≡ true = h.0 in cc)

off :
    (scanning background : Bool) (seq : ℕ)
    → IsFlagged scanning background seq []
    → (scanning ≡ false) × (background ≡ false)
off scanning background seq f = (ground arith, ground arith)

quiet :
    (w : Analysis)
    → w.under_way ≡ []
    → IsValid w
    → (w.security_scanning ≡ false)
      × (w.scan_in_background ≡ false)
      × (w.active_progress_unsub ≡ none)
      × (w.listeners ≡ [])
unfolding IsValid
quiet w e (f, h, n) =
    let (s, b) = off w.security_scanning w.scan_in_background w.scan_seq (rw e at f) in
    let (free, none_left) = nobody_heard w.active_progress_unsub w.listeners (rw e at h) in
    (s, b, free, none_left)

-- Whatever the order in which scans start, report and end, and however the cluster is switched
-- meanwhile: when no scan is under way, neither flag is on, the global slot is empty, and no
-- progress listener is left.
no_scan_left :
    (context : Option String) (es : List Event)
    → (run es (initially context)).under_way ≡ []
    → let w = run es (initially context) in
      (w.security_scanning ≡ false)
      × (w.scan_in_background ≡ false)
      × (w.active_progress_unsub ≡ none)
      × (w.listeners ≡ [])
no_scan_left context es h = quiet (run es (initially context)) h (run-IsValid context es)
