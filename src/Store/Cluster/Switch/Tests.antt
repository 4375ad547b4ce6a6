-- ===== src/Store/Cluster/Switch/Tests.antt =====
-- Switches at concrete inputs.
use podscape.Common.{true, false, none, some, [], ◌∷◌, ◌≡◌, refl, arith}
use podscape.Store.Exec.{ExecState}
use podscape.Store.Forwards.{Forwards}
use podscape.Store.Forwards.Invariant.{IsValid}
use podscape.Store.Cluster.{default_providers, cleared, View, Switcher, listing}
use podscape.Store.Cluster.{switches}
use podscape.Store.Cluster.Switch.{
  after_cancel, select, select_new, new_run, is_prod, System, selects, continues, step, resume,
  friendly, reset, is_provider_section,
}
use podscape.Store.Cluster.Switch.Runs.{IsLive, switch-IsLive}
use podscape.Store.Cluster.Switch.Stale.{old_switch_is_silent}
use podscape.Store.Cluster.Switch.Settles.{
  run_on, fine, lists, fails_list, fails, failed_switch-restores, rejected_switch_stays,
}
use podscape.Store.Cluster.Switch.Overwrites.{perform, overtaken, last_switch, rollback_overwrites}

abbrev no_forwards : Forwards
no_forwards = record {
  port_forwards = [];
  pf_unsubs = [];
  listeners = [];
  next_serial = 0;
  calls = [];
}

abbrev no_tabs : ExecState
no_tabs = record { exec_sessions = []; active_exec_id = none; killed = [] }

-- The context "dev" with two namespaces and Istio.
abbrev dev_view : View
dev_view = record {
  selected_context = some "dev";
  prod_contexts = "prod" ∷ [];
  is_production = false;
  namespaces = "default" ∷ "web" ∷ [];
  selected_namespace = some "web";
  providers = record default_providers { istio = true };
  providers_loading = false;
  section = "istio-gateways";
  loading_namespaces = false;
  loading_resources = false;
  error = none;
  context_switch_status = none;
  cluster_data = record cleared { pod_metrics = "web-0" ∷ [] };
}

abbrev on_dev : Switcher
on_dev = record {
  view = dev_view;
  context_switch_seq = 0;
  inflight_switch_target = none;
  forwards = no_forwards;
  exec = no_tabs;
  calls = [];
}

abbrev at_rest : System
at_rest = record { switcher = on_dev; runs = [] }

at_rest-IsLive : IsLive at_rest
at_rest-IsLive = record { spins = λ h. absurd (ground arith); waits = λ n h. absurd (ground arith) }

abbrev no_forwards-IsValid : IsValid no_forwards
no_forwards-IsValid = record { tracked = tt; shown = tt; keyed = tt }

leaves_istio : (select_new "prod" on_dev).view.section ≡ "dashboard"
unfolding select_new reset is_provider_section
leaves_istio = refl

production_flag : (select_new "prod" on_dev).view.is_production ≡ true
unfolding select_new reset is_prod
production_flag = refl

switch-IsLive_example : IsLive (step (continues 0 fine) (step (selects "prod") at_rest))
switch-IsLive_example =
    switch-IsLive (continues 0 fine) (step (selects "prod") at_rest)
      (switch-IsLive (selects "prod") at_rest at_rest-IsLive)

-- The run for "prod" after a second call, for "test".
old_switch_is_silent_example :
    let now = select_new "test" (select_new "prod" on_dev) in
    let out =
      resume (lists ("default" ∷ [])) (record (new_run "prod" on_dev) { phase = listing }) now in
    (out.0.view ≡ now.view)
    × (out.0.forwards ≡ now.forwards)
    × (out.0.exec ≡ now.exec)
    × (out.0.calls ≡ now.calls)
    × (out.1 ≡ none)
unfolding new_run select_new
old_switch_is_silent_example =
    old_switch_is_silent (lists ("default" ∷ []))
      (record (new_run "prod" on_dev) { phase = listing })
      (select_new "test" (select_new "prod" on_dev)) refl refl

-- A call whose streams are cancelled only after a newer call has begun still tells the sidecar to
-- switch to its own context.
late_cancel_switches :
    (after_cancel (new_run "prod" on_dev) (select_new "test" (select_new "prod" on_dev))).0.calls
    ≡ switches "prod" ∷ (select_new "test" (select_new "prod" on_dev)).calls
unfolding after_cancel new_run
late_cancel_switches = refl

failed_switch-restores_example :
    let out = run_on (fine ∷ fine ∷ fails_list "timed out" ∷ fine ∷ []) (select "prod" on_dev) in
    (out.1 ≡ none)
    × (out.0.view.selected_context ≡ some "dev")
    × (out.0.view.is_production ≡ is_prod ("prod" ∷ []) "dev")
    × (out.0.view.namespaces ≡ "default" ∷ "web" ∷ [])
    × (out.0.view.selected_namespace ≡ some "web")
    × (out.0.view.providers ≡ record default_providers { istio = true })
    × (out.0.view.error ≡ some (friendly "prod" "timed out"))
    × (out.0.view.loading_namespaces ≡ false)
    × (out.0.view.context_switch_status ≡ none)
failed_switch-restores_example = failed_switch-restores "prod" "timed out" on_dev refl refl

rejected_switch_stays_example :
    let out = run_on (fine ∷ fails "no such context" ∷ []) (select "prod" on_dev) in
    (out.1 ≡ none)
    × (out.0.view.selected_context ≡ some "prod")
    × (out.0.view.namespaces ≡ [])
    × (out.0.view.selected_namespace ≡ none)
    × (out.0.view.providers ≡ default_providers)
    × (out.0.view.error ≡ some "no such context")
    × (out.0.view.loading_namespaces ≡ false)
rejected_switch_stays_example = rejected_switch_stays "prod" "no such context" on_dev refl

rollback_overwrites_example :
    let y = perform (overtaken "prod" "test" "forbidden" ("default" ∷ [])) at_rest in
    (y.runs ≡ [])
    × (y.switcher.view.selected_context ≡ some "dev")
    × (y.switcher.view.namespaces ≡ "default" ∷ "web" ∷ [])
    × (y.switcher.view.error ≡ some (friendly "prod" "forbidden"))
    × (last_switch y.switcher.calls ≡ some "test")
rollback_overwrites_example =
    rollback_overwrites "prod" "test" "forbidden" "default" [] on_dev refl refl
