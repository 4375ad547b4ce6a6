-- ===== src/Security/Run.antt =====
-- The run of a security scan: scanSecurity of renderer/store/slices/analysisSlice.ts, cut at its
-- await, with its counter, its progress listener and the reset by a switch of the cluster
-- (renderer/store/slices/clusterSlice.ts). A scan and its listener are known by the scan's number. A
-- message of an exception is empty where the code finds none.
pub mod Ends
pub mod Listeners
pub mod Lines
pub mod Prefix
pub mod Invariant
mod Tests
use podscape.Common.{
  ℕ, suc, String, Bool, true, false, not, ◌||◌, ◌&&◌, Option, none, some, List, [], ◌∷◌, ◌++◌, ◌==◌,
  any, filter, length, eqb, or_else, is_some, same_option, codes, to_lower, includes, join_text,
  if◌then◌else◌,
}
use podscape.Common.Maps.{put}
use podscape.Common.Slices.{slice_last}
use podscape.Common.Splits.{Text, is_space, trim, after_prefix}
use podscape.Security.Kube.{Resource}
use podscape.Security.Images.{WorkloadImageEntry, extract_workload_images}
use podscape.Security.Unified.{TrivyResource, KubesecItem}
use podscape.Security.Scope.{
  CustomScanOptions, has, workloads_in_scope, runs_trivy, runs_kubesec, filter_trivy_by_scope,
}

-- A line of the progress view: a milestone, which the code prefixes with '› ', or a line of Trivy.
pub data Line : Type 0 where
  in_scope : ℕ → Line
  launching_both launching_images launching_config processing : Line
  progress : Text → Line

pub data ScanError : Type 0 where
  image_scan_failed scan_failed : Text → ScanError
  -- an error of another action
  other : Text → ScanError

-- How a promise of `Promise.allSettled` ended.
pub data Settled {ℓ} (A : Type ℓ) : Type ℓ where
  fulfilled : A → Settled A
  rejected : Text → Settled A

-- A call of the main process.
pub data Call : Type 0 where
  scan_trivy_images : List WorkloadImageEntry → Call
  scan_security : Call
  scan_kubesec_batch : List Resource → Call
  request_permission : (issue_count : ℕ) → Call

-- What a scan under way holds: `asks_trivy` says whether Trivy was called.
pub record Scan : Type 0 where
  pub seq : ℕ
  pub context : Option String
  pub options : Option CustomScanOptions
  pub background : Bool
  pub workloads : List Resource
  pub asks_trivy : Bool

abbrev pub KubesecBatch : Type 0
KubesecBatch = List (String × List KubesecItem)

pub record Analysis : Type 0 where
  pub selected_context : Option String
  pub security_scanning : Bool
  pub scan_in_background : Bool
  pub error : Option ScanError
  pub lines : List Line
  pub security_scan_results : Option (List TrivyResource)
  pub trivy_available : Option Bool
  pub kubesec_batch_results : Option KubesecBatch
  pub scan_seq : ℕ
  pub active_progress_unsub : Option ℕ
  pub listeners : List (ℕ × Option String)
  pub under_way : List Scan
  pub calls : List Call

abbrev pub initially : Option String → Analysis
initially context = record {
  selected_context = context;
  security_scanning = false;
  scan_in_background = false;
  error = none;
  lines = [];
  security_scan_results = none;
  trivy_available = none;
  kubesec_batch_results = none;
  scan_seq = 0;
  active_progress_unsub = none;
  listeners = [];
  under_way = [];
  calls = [];
}

-- The last ten lines are kept.
pub add_line : Line → Analysis → Analysis
add_line l w = record w { lines = slice_last 9 w.lines ++ l ∷ [] }

abbrev pub without : ℕ → List (ℕ × Option String) → List (ℕ × Option String)
without seq = filter (λ l. not (eqb l.0 seq))

pub unsubscribe : ℕ → Analysis → Analysis
unsubscribe seq w = record w { listeners = without seq w.listeners }

-- The text behind the first word.
abbrev pub after_word : Text → Text
after_word [] = []
after_word (c ∷ cs) = let rest = after_word cs in if is_space c then c ∷ cs else rest

abbrev pub after_level : List Text → Text → Option Text
after_level [] s = none
after_level (level ∷ levels) s = elim (after_prefix level s) [
  | none ↦ after_level levels s
  | some rest ↦ some rest
]

abbrev pub levels : List Text
levels = codes "\tINFO\t" ∷ codes "\tWARN\t" ∷ codes "\tERROR\t" ∷ codes "\tFATAL\t" ∷ []

abbrev pub is_blank : Text → Bool
is_blank [] = true
is_blank (_ ∷ _) = false

-- `line.replace(TRIVY_PREFIX_RE, '')`.
pub without_prefix : Text → Text
without_prefix [] = []
without_prefix (c ∷ cs) =
    if is_space c then c ∷ cs else or_else (after_level levels (after_word (c ∷ cs))) (c ∷ cs)

-- `TRIVY_NOISE_RE.test`.
pub is_noise : Text → Bool
is_noise s =
    let t = to_lower s in
    includes t (codes "unable to parse container")
    || includes t (codes "unable to parse image")
    || includes t (codes "unable to parse digest")

-- What a listener adds for a line of Trivy.
pub relayed : Text → Option Line
relayed line =
    let clean = trim (without_prefix line) in
    if is_blank clean || is_noise clean then none else some (progress clean)

abbrev pub add_relayed : Option Line → Analysis → Analysis
add_relayed none w = w
add_relayed (some l) w = add_line l w

pub hear : Text → ℕ → Option String → Analysis → Analysis
hear line seq context w =
    if not (same_option w.selected_context context)
    then unsubscribe seq w
    else add_relayed (relayed line) w

pub hear_all : Text → List (ℕ × Option String) → Analysis → Analysis
hear_all line [] w = w
hear_all line ((seq, context) ∷ ls) w = hear_all line ls (hear line seq context w)

abbrev chosen_images : Option CustomScanOptions → Option (List String)
chosen_images none = none
chosen_images (some o) = o.selected_images

abbrev images_calls : List WorkloadImageEntry → List Call
images_calls [] = []
images_calls (e ∷ es) = scan_trivy_images (e ∷ es) ∷ []

-- The calls of Trivy that the scan begins with.
pub trivy_calls : Option CustomScanOptions → List Resource → List Call
trivy_calls options workloads =
    if not (runs_trivy options) then [] else elim (chosen_images options) [
      | none ↦ scan_security ∷ []
      | some images ↦
          images_calls (filter (λ e. has e.image images) (extract_workload_images workloads))
    ]

abbrev pub launching : Option CustomScanOptions → Line
launching options =
    if runs_trivy options && runs_kubesec options
    then launching_both
    else if runs_trivy options
    then launching_images
    else launching_config

-- `if (activeProgressUnsub) activeProgressUnsub()`.
abbrev pub drop_active : Option ℕ → List (ℕ × Option String) → List (ℕ × Option String)
drop_active none ls = ls
drop_active (some seq) ls = without seq ls

abbrev are_some : List Call → Bool
are_some [] = false
are_some (_ ∷ _) = true

-- `scanSecurity` up to its await, on the workloads that the store holds.
pub start : Option CustomScanOptions → Bool → List Resource → Analysis → Analysis
start options background all_workloads w =
    let seq = suc w.scan_seq in
    let workloads = workloads_in_scope options all_workloads in
    let asked = trivy_calls options workloads in
    let batch = if runs_kubesec options then scan_kubesec_batch workloads ∷ [] else [] in
    record w {
      scan_seq = seq;
      security_scanning = true;
      scan_in_background = background;
      error = none;
      lines = in_scope (length workloads) ∷ launching options ∷ [];
      active_progress_unsub = some seq;
      listeners = drop_active w.active_progress_unsub w.listeners ++ (seq, w.selected_context) ∷ [];
      calls = w.calls ++ asked ++ batch;
      under_way =
          w.under_way
          ++ record {
            seq = seq;
            context = w.selected_context;
            options = options;
            background = background;
            workloads = workloads;
            asks_trivy = are_some asked;
          }
            ∷ [];
    }
