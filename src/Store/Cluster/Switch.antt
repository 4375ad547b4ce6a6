-- ===== src/Store/Cluster/Switch.antt =====
-- `selectContext` of renderer/store/slices/clusterSlice.ts, one function from each `await` to the
-- next, and the calls of it that are under way at the same time.
mod Segments
pub mod Runs
pub mod Stale
pub mod Settles
pub mod Overwrites
mod Tests
use Prim.Native.String
use podscape.Common.{
  ℕ, zero, suc, String, Bool, true, false, not, ◌&&◌, ◌||◌, Option, none, some, List, [], ◌∷◌, ◌++◌,
  map, ◌==◌, any, is_some, eqb, if◌then◌else◌, codes, includes, starts_with, join_text, get_elem?,
}
use podscape.Store.Exec.{ExecState, close_exec}
use podscape.Store.Forwards.{Forwards, stop_all_port_forwards}
use podscape.Store.Cluster.{
  ProviderSet, default_providers, cleared, View, Call, Switcher, Phase, Run,
  clear_in_flight_sections, flush_cache, cancel_all_streams, preload, fetch_providers,
  fetch_allowed_verbs, switches, fetches_namespaces, loads, cancelling, switching, listing, loading,
  rolling_back,
}

abbrev pub is_target : Option String → String → Bool
is_target none name = false
is_target (some t) name = t == name

pub is_provider_section : String → Bool
is_provider_section s =
    any (λ p. starts_with (codes s) (codes p))
      ("istio-" ∷ "traefik-" ∷ "nginx-" ∷ "keda-" ∷ "ambassador-" ∷ [])

pub is_prod : List String → String → Bool
is_prod prod name = any (λ c. c == name) prod

abbrev pub call : Call → Switcher → Switcher
call c s = record s { calls = c ∷ s.calls }

-- The reset of the store.
pub reset : String → View → View
reset name v = record v {
  selected_context = some name;
  is_production = is_prod v.prod_contexts name;
  loading_namespaces = true;
  loading_resources = true;
  namespaces = [];
  selected_namespace = none;
  error = none;
  providers = default_providers;
  providers_loading = false;
  section = if is_provider_section v.section then "dashboard" else v.section;
  cluster_data = cleared;
}

pub new_run : String → Switcher → Run
new_run name s = record {
  name = name;
  my_seq = suc s.context_switch_seq;
  previous_context = s.view.selected_context;
  previous_namespaces = s.view.namespaces;
  previous_selected_namespace = s.view.selected_namespace;
  previous_providers = s.view.providers;
  phase = cancelling;
}

abbrev pub with_status : String → View → View
with_status text v = record v { context_switch_status = some text }

pub select_new : String → Switcher → Switcher
select_new name s = call cancel_all_streams (
    call flush_cache (
      call clear_in_flight_sections (record s {
        view = with_status "Connecting…" (reset name s.view);
        context_switch_seq = suc s.context_switch_seq;
        inflight_switch_target = some name;
      })))

-- A call for the context that is being switched to only waits, and changes nothing.
pub select : String → Switcher → Switcher × Option Run
select name s =
    if is_target s.inflight_switch_target name
    then (s, none)
    else (select_new name s, some (new_run name s))

abbrev pub at : Phase → Run → Option Run
at p r = some (record r { phase = p })

-- The end of a switch: `settled none` without an error.
pub settled : Option String → View → View
settled e v =
    let w = record v {
      loading_namespaces = false;
      loading_resources = false;
      context_switch_status = none;
    } in
    elim e [ none ↦ w | some msg ↦ record w { error = some msg } ]

abbrev pub is_newest : Run → Switcher → Bool
is_newest r s = eqb r.my_seq s.context_switch_seq

-- After `cancelAllStreams`, whose rejection is ignored.
pub after_cancel : Run → Switcher → Switcher × Option Run
after_cancel r s = (
  call (switches r.name)
      (record s { forwards = stop_all_port_forwards s.forwards; exec = close_exec s.exec }),
  at switching r,
)

-- The `finally` of the switch.
pub release : Run → Switcher → Switcher
release r s =
    if is_target s.inflight_switch_target r.name
    then record s { inflight_switch_target = none }
    else s

-- The result of an awaited call: its value, or the message of the error.
pub data Outcome {ℓ} (A : Type ℓ) : Type ℓ where
  resolves : A → Outcome A
  rejects : (msg : String) → Outcome A

abbrev pub show : (View → View) → Switcher → Switcher
show f s = record s { view = f s.view }

-- The outer `catch`.
pub catch_error : Run → String → Switcher → Switcher × Option Run
catch_error r msg s = if is_newest r s then (show (settled (some msg)) s, none) else (s, none)

pub after_switch : Outcome {0} Unit → Run → Switcher → Switcher × Option Run
after_switch (rejects msg) r s = catch_error r msg (release r s)
after_switch (resolves tt) r s =
    let s' = release r s in
    if is_newest r s'
    then (
      call (fetches_namespaces r.name) (show (with_status "Loading namespaces…") s'),
      at listing r,
    )
    else (s', none)

pub friendly : String → String → String
friendly name msg = join_text (
    "Cannot reach \""
    ∷ name
    ∷ (if includes (codes msg) (codes "timed out")
        then "\" — cluster did not respond in time. Check VPN and credentials."
        else String.◌++◌ "\" — " msg)
    ∷ [])

pub restored : Run → String → View → View
restored r previous v = record v {
  selected_context = some previous;
  is_production = is_prod v.prod_contexts previous;
  namespaces = r.previous_namespaces;
  selected_namespace = r.previous_selected_namespace;
  providers = r.previous_providers;
  providers_loading = false;
}

-- `if (previousContext)`: neither missing nor empty.
abbrev pub present : Option String → Bool
present none = false
present (some c) = not (c == "")

abbrev pub name_of : Option String → String
name_of none = ""
name_of (some c) = c

-- The rollback, up to its `await` where the sidecar has to switch back.
pub fail_list : Run → String → Switcher → Switcher × Option Run
fail_list r msg s =
    if present r.previous_context
    then (call (switches (name_of r.previous_context)) s, at (rolling_back msg) r)
    else (show (settled (some (friendly r.name msg))) s, none)

pub listed : List String → View → View
listed ns v = record v {
  namespaces = ns;
  selected_namespace = elim ns [ [] ↦ none | _ ∷ _ ↦ some "_all" ];
  context_switch_status = some "Loading resources…";
}

pub succeed_list : List String → Run → Switcher → Switcher × Option Run
succeed_list [] r s = (show (λ v. settled none (listed [] v)) s, none)
succeed_list (n ∷ ns) r s = (call (loads s.view.section) (show (listed (n ∷ ns)) s), at loading r)

pub after_list : Outcome (List String) → Run → Switcher → Switcher × Option Run
after_list (rejects msg) r s = if is_newest r s then fail_list r msg s else (s, none)
after_list (resolves ns) r s = if is_newest r s then succeed_list ns r s else (s, none)

-- After the sidecar was told to switch back; its rejection is ignored.
pub after_rollback : String → Run → Switcher → Switcher × Option Run
after_rollback msg r s = (
  show (λ v. settled (some (friendly r.name msg)) (restored r (name_of r.previous_context) v)) s,
  none,
)

pub after_load : Outcome {0} Unit → Run → Switcher → Switcher × Option Run
after_load (rejects msg) r s = catch_error r msg s
after_load (resolves tt) r s =
    if is_newest r s
    then (
      show (settled none) (call fetch_allowed_verbs (call fetch_providers (call preload s))),
      none,
    )
    else (s, none)

-- How the promise that a run awaits ends: a call without a value, or the list of the namespaces.
pub record Answer : Type 0 where
  pub done : Outcome {0} Unit
  pub namespaces : Outcome (List String)

pub resume_at : Phase → Answer → Run → Switcher → Switcher × Option Run
resume_at cancelling a r s = after_cancel r s
resume_at switching a r s = after_switch a.done r s
resume_at listing a r s = after_list a.namespaces r s
resume_at (rolling_back msg) a r s = after_rollback msg r s
resume_at loading a r s = after_load a.done r s

pub resume : Answer → Run → Switcher → Switcher × Option Run
resume a r s = resume_at r.phase a r s

-- All calls that are under way, oldest first, with the store.
pub record System : Type 0 where
  pub switcher : Switcher
  pub runs : List Run

pub data Action : Type 0 where
  selects : (name : String) → Action
  continues : ℕ → Answer → Action

-- The list with the element at an index replaced or taken out.
pub replace : ℕ → Option Run → List Run → List Run
replace i o [] = []
replace zero none (r ∷ rs) = rs
replace zero (some r') (r ∷ rs) = r' ∷ rs
replace (suc i) o (r ∷ rs) = r ∷ replace i o rs

abbrev pub option_list : Option Run → List Run
option_list none = []
option_list (some r) = r ∷ []

pub started : List Run → Switcher × Option Run → System
started rs (s, o) = record { switcher = s; runs = rs ++ option_list o }

pub continued : ℕ → List Run → Switcher × Option Run → System
continued i rs (s, o) = record { switcher = s; runs = replace i o rs }

-- The promises of the calls end in any order.
pub step : Action → System → System
step (selects name) y = started y.runs (select name y.switcher)
step (continues i a) y = elim (get_elem? y.runs i) [
  | none ↦ y
  | some r ↦ continued i y.runs (resume a r y.switcher)
]
