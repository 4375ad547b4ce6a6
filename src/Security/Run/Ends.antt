-- ===== src/Security/Run/Ends.antt =====
-- The rest of scanSecurity from its await on, and what else changes its state: renderer/store/slices/
-- analysisSlice.ts and the resets of selectContext in renderer/store/slices/clusterSlice.ts. In
-- Electron, `Notification` is always there.
use podscape.Common.{
  ℕ, String, Bool, true, false, not, ◌||◌, Option, none, some, List, [], ◌∷◌, ◌++◌, ◌+◌, filter,
  find, length, eqb, or_else, same_option, codes, includes, join_text, if◌then◌else◌,
}
use podscape.Common.Maps.{put}
use podscape.Common.Splits.{Text}
use podscape.Security.Kube.{Resource}
use podscape.Security.Unified.{TrivyResource, KubesecItem}
use podscape.Security.Scope.{CustomScanOptions, runs_trivy, runs_kubesec, filter_trivy_by_scope}
use podscape.Security.Run.{
  processing, ScanError, image_scan_failed, scan_failed, other, Settled, fulfilled, rejected,
  request_permission, Scan, KubesecBatch, Analysis, add_line, unsubscribe, hear_all, start,
}

pub record TrivyUpdate : Type 0 where
  pub results : Option (List TrivyResource)
  pub available : Option Bool
  pub error : Option ScanError

unfoldable pub scoped :
    Option CustomScanOptions → Option (List TrivyResource) → Option (List TrivyResource)
scoped none data_ = data_
scoped (some o) none = none
scoped (some o) (some rs) = some (filter_trivy_by_scope o rs)

unfoldable pub is_missing : Text → Bool
is_missing msg =
    includes msg (codes "trivy_not_found") || includes msg (codes "trivy binary not found")

unfoldable pub trivy_ended :
    Option CustomScanOptions → Settled (Option (List TrivyResource)) → TrivyUpdate
trivy_ended options (fulfilled rs) = record {
  results = scoped options rs;
  available = some true;
  error = none;
}
trivy_ended options (rejected msg) =
    if is_missing msg
    then record { results = none; available = some false; error = none }
    else record { results = none; available = none; error = some (image_scan_failed msg) }

-- The fields for Trivy of the update; `available` is what stands before, which a scan without Trivy
-- leaves.
unfoldable pub trivy_update :
    Scan → Settled (Option (List TrivyResource)) → Option Bool → TrivyUpdate
trivy_update scan outcome available =
    if not (runs_trivy scan.options)
    then record { results = none; available = available; error = none }
    else trivy_ended scan.options (if scan.asks_trivy then outcome else fulfilled none)

abbrev pub batch_key : Resource → String
batch_key w = join_text (or_else w.namespace "" ∷ "/" ∷ w.name ∷ "/" ∷ or_else w.kind "" ∷ [])

-- A result that is missing has no issues.
unfoldable pub add_results : List Resource → List (List KubesecItem) → KubesecBatch → KubesecBatch
add_results [] raw m = m
add_results (w ∷ ws) [] m = add_results ws [] (put (batch_key w) [] m)
add_results (w ∷ ws) (r ∷ raw) m = add_results ws raw (put (batch_key w) r m)

unfoldable pub kubesec_update :
    Scan → Settled (Option (List (List KubesecItem))) → Option KubesecBatch
kubesec_update scan (rejected msg) = none
kubesec_update scan (fulfilled none) = none
kubesec_update scan (fulfilled (some raw)) =
    if runs_kubesec scan.options then some (add_results scan.workloads raw []) else none

abbrev has_issues : String × List KubesecItem → Bool
has_issues (_, []) = false
has_issues (_, _ ∷ _) = true

unfoldable pub issue_count : Option (List TrivyResource) → Option KubesecBatch → ℕ
issue_count rs batch = length (or_else rs []) + length (filter has_issues (or_else batch []))

-- The body of the `try` after the await.
unfoldable pub settle :
    Scan
    → Settled (Option (List TrivyResource))
    → Settled (Option (List (List KubesecItem)))
    → Analysis
    → Analysis
settle scan trivy kubesec w =
    let update = trivy_update scan trivy w.trivy_available in
    let batch = kubesec_update scan kubesec in
    let notice =
      if scan.background then request_permission (issue_count update.results batch) ∷ [] else [] in
    if not (same_option w.selected_context scan.context)
    then w
    else record (add_line processing w) {
      security_scan_results = update.results;
      trivy_available = update.available;
      kubesec_batch_results = batch;
      error = update.error;
      scan_in_background = false;
      calls = w.calls ++ notice;
    }

abbrev or_unknown : Text → Text
or_unknown [] = codes "Unknown error"
or_unknown (c ∷ cs) = c ∷ cs

-- The body of the `catch`.
unfoldable pub fail : Scan → Text → Analysis → Analysis
fail scan msg w =
    if not (same_option w.selected_context scan.context)
    then w
    else if eqb scan.seq w.scan_seq
    then record w { error = some (scan_failed (or_unknown msg)) }
    else w

-- Whether the global slot holds the listener of this scan.
abbrev pub is_active : ℕ → Option ℕ → Bool
is_active seq none = false
is_active seq (some k) = eqb k seq

-- The body of the `finally`, which ends the scan.
unfoldable pub finish : ℕ → Analysis → Analysis
finish seq w =
    let is_latest = eqb seq w.scan_seq in
    record (unsubscribe seq w) {
      active_progress_unsub =
          if is_active seq w.active_progress_unsub then none else w.active_progress_unsub;
      security_scanning = if is_latest then false else w.security_scanning;
      scan_in_background = if is_latest then false else w.scan_in_background;
      under_way = filter (λ s. not (eqb s.seq seq)) w.under_way;
    }

-- The reset of `selectContext`, as far as it is about scans.
unfoldable pub reset : String → Analysis → Analysis
reset name w = record w {
  selected_context = some name;
  error = none;
  security_scan_results = none;
  kubesec_batch_results = none;
  trivy_available = none;
  lines = [];
  security_scanning = false;
  scan_in_background = false;
}

pub data Event : Type 0 where
  starts : Option CustomScanOptions → Bool → List Resource → Event
  progresses : Text → Event
  ends :
      ℕ → Settled (Option (List TrivyResource)) → Settled (Option (List (List KubesecItem))) → Event
  breaks : ℕ → Text → Event
  switches : String → Event
  -- the roll back of a switch that failed
  restores : Option String → Text → Event

unfoldable pub step : Event → Analysis → Analysis
step (starts options background workloads) w = start options background workloads w
step (progresses line) w = hear_all line w.listeners w
step (ends seq trivy kubesec) w = elim (find (λ s. eqb s.seq seq) w.under_way) [
  | none ↦ w
  | some scan ↦ finish seq (settle scan trivy kubesec w)
]
step (breaks seq msg) w = elim (find (λ s. eqb s.seq seq) w.under_way) [
  | none ↦ w
  | some scan ↦ finish seq (fail scan msg w)
]
step (switches name) w = reset name w
step (restores context msg) w = record w { selected_context = context; error = some (other msg) }

unfoldable pub run : List Event → Analysis → Analysis
run [] w = w
run (e ∷ es) w = run es (step e w)
