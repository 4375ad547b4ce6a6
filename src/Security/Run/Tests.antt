-- ===== src/Security/Run/Tests.antt =====
-- Runs of scans at concrete inputs.
use podscape.Common.{
  ◌⊎◌, true, false, Option, none, some, List, [], ◌∷◌, map, codes, length, ◌≡◌, refl, arith,
}
use podscape.Common.Slices.{slice_last}
use podscape.Common.Splits.{Text}
use podscape.Security.Kube.{Resource}
use podscape.Security.Unified.{TrivyResource, KubesecItem}
use podscape.Security.Scope.{workloads_in_scope, in_options, runs_trivy, runs_kubesec}
use podscape.Security.Run.{
  in_scope, launching_both, progress, scan_failed, fulfilled, rejected, Settled, Analysis,
  initially, launching, add_line, unsubscribe, without_prefix, is_noise, relayed, hear, hear_all,
  trivy_calls, start,
}
use podscape.Security.Run.Ends.{
  scoped, is_missing, trivy_ended, trivy_update, settle, fail, finish, reset, Event, starts,
  progresses, ends, breaks, switches, step, run,
}
use podscape.Security.Run.Listeners.{IsValid}
use podscape.Security.Run.Invariant.{run-IsValid}
use podscape.Security.Run.Prefix.{IsTagged, warn_level, tagged, without_prefix-tagged}
use podscape.Security.Run.Lines.{kept, scan_lines}

abbrev web : Resource
web = record {
  kind = some "Deployment";
  name = "web";
  namespace = some "shop";
  uid = "1";
  spec = none;
}

abbrev found : TrivyResource
found = record { namespace = some "shop"; name = "web"; kind = some "Deployment"; results = none }

abbrev full : Event
full = starts none false (web ∷ [])

abbrev no_batch : Settled (Option (List (List KubesecItem)))
no_batch = rejected []

abbrev finds : List TrivyResource → Settled (Option (List TrivyResource))
finds rs = fulfilled (some rs)

abbrev after : List Event → Analysis
after es = run es (initially (some "prod"))

-- The level is cut off; noise and blank lines are not shown.
abbrev reports : List Text
reports =
    codes "2024\tINFO\tScanning"
    ∷ codes "2024\tWARN\tUnable to parse container"
    ∷ codes "  "
    ∷ codes "no level"
    ∷ []

reported :
    (after (full ∷ map progresses reports)).lines
    ≡ in_scope 1 ∷ launching_both ∷ progress (codes "Scanning") ∷ progress (codes "no level") ∷ []
unfolding run step start hear_all hear relayed without_prefix is_noise add_line slice_last
    workloads_in_scope in_options runs_trivy runs_kubesec
reported = refl

-- A result of the former cluster is discarded.
discarded :
    let w = after (full ∷ switches "test" ∷ ends 1 (finds (found ∷ [])) no_batch ∷ []) in
    (w.security_scan_results ≡ none) × (w.security_scanning ≡ false) × (w.listeners ≡ [])
unfolding run step start reset settle finish unsubscribe
discarded = (refl, refl, refl)

not_installed :
    let w = after (full ∷ ends 1 (rejected (codes "Error: trivy_not_found")) no_batch ∷ []) in
    (w.trivy_available ≡ some false) × (w.error ≡ none)
unfolding run step start settle finish trivy_update trivy_ended trivy_calls is_missing unsubscribe
    add_line runs_trivy
not_installed = (refl, refl)

broken : (after (full ∷ breaks 1 [] ∷ [])).error ≡ some (scan_failed (codes "Unknown error"))
unfolding run step start fail finish unsubscribe
broken = refl

-- After a switch away and back a second scan can run beside the first. The first one, which ends
-- last, replaces the results of the second.
older_scan_wins :
    let w = after (
      full
      ∷ switches "test"
      ∷ switches "prod"
      ∷ full
      ∷ ends 2 (finds (found ∷ [])) no_batch
      ∷ ends 1 (finds []) no_batch
      ∷ []) in
    w.security_scan_results ≡ some []
unfolding run step start reset settle finish unsubscribe trivy_update trivy_ended trivy_calls scoped
    add_line runs_trivy
older_scan_wins = refl

-- It also takes the second scan out of the background while that runs.
background_lost :
    let w = after (
      full
      ∷ switches "test"
      ∷ switches "prod"
      ∷ starts none true (web ∷ [])
      ∷ ends 1 (finds []) no_batch
      ∷ []) in
    (w.security_scanning ≡ true) × (w.scan_in_background ≡ false)
unfolding run step start reset settle finish unsubscribe add_line
background_lost = (refl, refl)

run-IsValid_example :
    IsValid (after (full ∷ switches "test" ∷ full ∷ progresses (codes "x") ∷ breaks 1 [] ∷ []))
run-IsValid_example =
    run-IsValid (some "prod")
      (full ∷ switches "test" ∷ full ∷ progresses (codes "x") ∷ breaks 1 [] ∷ [])

initially-IsValid : IsValid (initially (some "prod"))
unfolding IsValid
initially-IsValid = ((refl, refl), refl, omega arith)

scan_lines_example :
    (run (full ∷ map progresses reports) (initially (some "prod"))).lines
    ≡ slice_last 10
        (in_scope (length (workloads_in_scope none (web ∷ []))) ∷ launching none ∷ kept reports)
scan_lines_example =
    scan_lines none false (web ∷ []) reports (initially (some "prod")) initially-IsValid

without_prefix-tagged_example :
    (without_prefix (tagged (codes "2024") warn_level (codes "slow")) ≡ codes "slow")
    × ((without_prefix (codes "INFO slow") ≡ codes "INFO slow")
        ⊎ IsTagged (codes "INFO slow") (without_prefix (codes "INFO slow")))
without_prefix-tagged_example =
    without_prefix-tagged 50 (codes "024") (codes "slow") warn_level (codes "INFO slow") refl
