-- ===== src/Store/Cluster/Switch/Settles.antt =====
-- How one call of `selectContext` ends, and what calls that are no longer the newest do.
use podscape.Common.{
  ℕ, suc, String, true, false, Option, none, some, List, [], ◌∷◌, ap, ◌∙◌, ◌≡◌, refl, arith, eqb,
  eq_refl,
}
use podscape.Store.Cluster.{
  Switcher, Run, ProviderSet, ClusterData, default_providers, preload, fetch_providers,
  fetch_allowed_verbs, switches, fetches_namespaces, loads, listing, loading, rolling_back,
}
use podscape.Store.Cluster.Switch.{
  is_target, is_newest, present, name_of, is_prod, friendly, select_new, new_run, select, settled,
  after_cancel, release, resolves, rejects, catch_error, after_switch, restored, fail_list, listed,
  succeed_list, after_list, after_rollback, after_load, call, at, show, with_status, Answer,
  resume_at, resume, reset,
}

-- A call whose promises end one after the other, with nothing between them.
pub run_on : List Answer → Switcher × Option Run → Switcher × Option Run
run_on [] (s, o) = (s, o)
run_on (a ∷ more) (s, none) = (s, none)
run_on (a ∷ more) (s, some r) = run_on more (resume a r s)

abbrev pub fine : Answer
fine = record { done = resolves tt; namespaces = resolves [] }

abbrev pub lists : List String → Answer
lists ns = record { done = resolves tt; namespaces = resolves ns }

abbrev pub fails_list : String → Answer
fails_list msg = record { done = resolves tt; namespaces = rejects msg }

abbrev pub fails : String → Answer
fails msg = record { done = rejects msg; namespaces = rejects msg }

pub newest_refl : (n : ℕ) → eqb n n ≡ true
newest_refl n = ground arith

release_own :
    (r : Run) (s : Switcher)
    → s.inflight_switch_target ≡ some r.name
    → release r s ≡ record s { inflight_switch_target = none }
unfolding release
release_own r s h = rw h (rw (eq_refl r.name) refl)

-- The segments of the newest call.
pub select_fresh :
    (name : String) (s : Switcher)
    → is_target s.inflight_switch_target name ≡ false
    → select name s ≡ (select_new name s, some (new_run name s))
unfolding select
select_fresh name s h = rw h refl

pub after_switch-newest :
    (r : Run) (s : Switcher)
    → s.inflight_switch_target ≡ some r.name
    → is_newest r s ≡ true
    → after_switch (resolves tt) r s ≡ (
      call
          (fetches_namespaces r.name)
          (show (with_status "Loading namespaces…") (record s { inflight_switch_target = none })),
      at listing r,
    )
unfolding after_switch
after_switch-newest r s target newest = rw (release_own r s target) (rw newest refl)

after_switch-rejected :
    (msg : String) (r : Run) (s : Switcher)
    → s.inflight_switch_target ≡ some r.name
    → is_newest r s ≡ true
    → after_switch (rejects msg) r s
      ≡ (show (settled (some msg)) (record s { inflight_switch_target = none }), none)
unfolding after_switch catch_error
after_switch-rejected msg r s target newest = rw (release_own r s target) (rw newest refl)

pub after_list-newest :
    (n : String) (ns : List String) (r : Run) (s : Switcher)
    → is_newest r s ≡ true
    → after_list (resolves (n ∷ ns)) r s
      ≡ (call (loads s.view.section) (show (listed (n ∷ ns)) s), at loading r)
unfolding after_list succeed_list
after_list-newest n ns r s newest = rw newest refl

pub after_list-failed :
    (msg : String) (r : Run) (s : Switcher)
    → is_newest r s ≡ true
    → present r.previous_context ≡ true
    → after_list (rejects msg) r s
      ≡ (call (switches (name_of r.previous_context)) s, at (rolling_back msg) r)
unfolding after_list fail_list
after_list-failed msg r s newest p = rw newest (rw p refl)

pub after_load-newest :
    (r : Run) (s : Switcher)
    → is_newest r s ≡ true
    → after_load (resolves tt) r s ≡ (
      show (settled none) (call fetch_allowed_verbs (call fetch_providers (call preload s))),
      none,
    )
unfolding after_load
after_load-newest r s newest = rw newest refl

-- What a switch up to the answer of the sidecar has closed and reset.
abbrev pub connected : String → Switcher → Switcher
connected name s =
    let t = (after_cancel (new_run name s) (select_new name s)).0 in
    call (fetches_namespaces name)
      (show (with_status "Loading namespaces…") (record t { inflight_switch_target = none }))

connect :
    (name : String) (s : Switcher) (more : List Answer)
    → is_target s.inflight_switch_target name ≡ false
    → run_on (fine ∷ fine ∷ more) (select name s)
      ≡ run_on more (connected name s, at listing (new_run name s))
unfolding run_on resume resume_at after_cancel select_new new_run
connect name s more fresh =
    ap (run_on (fine ∷ fine ∷ more)) (select_fresh name s fresh)
    ∙ ap (run_on more) (
        after_switch-newest _ (after_cancel (new_run name s) (select_new name s)).0 refl
          (newest_refl (suc s.context_switch_seq)))

pub present-some : (o : Option String) → present o ≡ true → some (name_of o) ≡ o
present-some none h = absurd (ground arith)
present-some (some c) h = refl

-- No provider is found.
abbrev unknown_providers : ProviderSet
unknown_providers = record {
  istio = false;
  traefik = false;
  nginx_inc = false;
  nginx_community = false;
  keda = false;
  cilium = false;
  hubble_relay = false;
  ambassador = false;
}

-- Nothing of a cluster is loaded, and no scan of it runs.
abbrev nothing_loaded : ClusterData
nothing_loaded = record {
  selected_resource = [];
  security_scan_results = [];
  kubesec_batch_results = [];
  trivy_available = [];
  security_scan_progress_lines = [];
  security_scanning = false;
  scan_in_background = false;
  is_scanning = false;
  last_preloaded_at = 0;
  last_dashboard_loaded_at = 0;
  owner_chains = [];
  helm_releases = [];
  pod_metrics = [];
  node_metrics = [];
  debug_pods = [];
  prometheus_available = [];
  prometheus_probe_error = [];
  metrics_error = [];
  sections = [];
  section_loaded_at = [];
  apps = [];
  denied_sections = [];
  unified_logs_selected_pods = [];
  allowed_verbs = [];
}

-- Where the namespaces cannot be listed, the store ends as it was before the switch: the previous
-- context, its namespaces, the selected one and the providers, with an error and no spinner. There
-- was a previous context, and no other call is under way for the same one.
pub failed_switch-restores :
    (name msg : String) (s : Switcher)
    → is_target s.inflight_switch_target name ≡ false
    → present s.view.selected_context ≡ true
    → let out = run_on (fine ∷ fine ∷ fails_list msg ∷ fine ∷ []) (select name s) in
      (out.1 ≡ none)
      × (out.0.view.selected_context ≡ s.view.selected_context)
      × (out.0.view.is_production ≡ is_prod s.view.prod_contexts (name_of s.view.selected_context))
      × (out.0.view.namespaces ≡ s.view.namespaces)
      × (out.0.view.selected_namespace ≡ s.view.selected_namespace)
      × (out.0.view.providers ≡ s.view.providers)
      × (out.0.view.error ≡ some (friendly name msg))
      × (out.0.view.loading_namespaces ≡ false)
      × (out.0.view.context_switch_status ≡ none)
unfolding run_on resume resume_at after_cancel after_rollback select_new new_run reset settled
    restored
failed_switch-restores name msg s fresh p =
    let ends =
      connect name s (fails_list msg ∷ fine ∷ []) fresh
      ∙ ap (run_on (fine ∷ []))
          (after_list-failed msg _ (connected name s) (newest_refl (suc s.context_switch_seq)) p) in
    rw ends (refl, present-some s.view.selected_context p, refl, refl, refl, refl, refl, refl, refl)

-- Where the sidecar does not switch, or not in time, nothing is restored: the new context stays
-- selected, without namespaces and providers, next to the error. No other call is under way for
-- the same context.
pub rejected_switch_stays :
    (name msg : String) (s : Switcher)
    → is_target s.inflight_switch_target name ≡ false
    → let out = run_on (fine ∷ fails msg ∷ []) (select name s) in
      (out.1 ≡ none)
      × (out.0.view.selected_context ≡ some name)
      × (out.0.view.namespaces ≡ [])
      × (out.0.view.selected_namespace ≡ none)
      × (out.0.view.providers ≡ default_providers)
      × (out.0.view.error ≡ some msg)
      × (out.0.view.loading_namespaces ≡ false)
unfolding run_on resume resume_at after_cancel select_new new_run reset settled
rejected_switch_stays name msg s fresh =
    let ends =
      ap (run_on (fine ∷ fails msg ∷ [])) (select_fresh name s fresh)
      ∙ after_switch-rejected msg _ (after_cancel (new_run name s) (select_new name s)).0 refl
          (newest_refl (suc s.context_switch_seq)) in
    rw ends (refl, refl, refl, refl, refl, refl, refl)
