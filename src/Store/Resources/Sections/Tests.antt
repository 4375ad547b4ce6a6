-- ===== src/Store/Resources/Sections/Tests.antt =====
-- Loads of sections at concrete inputs.
use podscape.Common.{
  length, String, true, false, Option, none, some, [], ◌∷◌, ◌≡◌, refl, arith, ◌==◌, if◌then◌else◌,
  ◌+◌,
}
use podscape.Common.Maps.{at_key}
use podscape.Store.Resources.{KubeResource}
use podscape.Store.Resources.Sections.{
  SectionConfig, Loader, Fetch, begin_load, refresh, delete, begin_in, end_load, is_cached,
  refreshed, fetched, failed, cache_key_of, ns_arg, request, show_start, add, settle,
}
use podscape.Store.Resources.Sections.Guard.{
  System, loads, refreshes, ends, begun, remove, step, IsGuarded, load-IsGuarded,
}
use podscape.Store.Resources.Sections.Cache.{fetched_is_cached}

abbrev table : String → Option SectionConfig
table s = if s == "pods" then some (record { state_key = "pods"; namespaced = true }) else none

abbrev empty : Loader
empty = record {
  selected_context = some "dev";
  selected_namespace = some "web";
  section_loaded_at = [];
  in_flight_sections = [];
  lists = [];
  denied_sections = [];
  loading_resources = false;
  error = none;
  last_refreshed_at = 0;
  selected_resource = none;
}

abbrev web_0 : KubeResource
web_0 = record { kind = some "Pod"; name = "web-0"; namespace = some "web"; uid = "u1" }

abbrev pods_fetch : Fetch
pods_fetch = record {
  section = "pods";
  cache_key = "pods:web";
  state_key = "pods";
  snapshot_ctx = "dev";
  fetch_ns = some "web";
}

first_load : (begin_load table 50000 "pods" empty).1 ≡ some pods_fetch
unfolding begin_load begin_in is_cached request show_start cache_key_of ns_arg at_key
first_load = refl

denied_on_rbac :
    (end_load 50100 pods_fetch (failed "RBAC_DENIED: pods") empty).denied_sections ≡ "pods" ∷ []
unfolding end_load settle add
denied_on_rbac = refl

abbrev at_rest : System
at_rest = record { loader = empty; fetches = [] }

at_rest-IsGuarded : IsGuarded at_rest
at_rest-IsGuarded = record { distinct = tt; listed = λ k. refl }

load-IsGuarded_example :
    IsGuarded (step table (loads 50050 "pods") (step table (refreshes 50000 "pods") at_rest))
unfolding step begun refresh begin_load begin_in is_cached request show_start cache_key_of ns_arg
    at_key
load-IsGuarded_example =
    load-IsGuarded table (loads 50050 "pods") (step table (refreshes 50000 "pods") at_rest) refl
      (load-IsGuarded table (refreshes 50000 "pods") at_rest refl at_rest-IsGuarded)

-- A refresh during a fetch starts a second one for the same key; the end of the first then frees the
-- key, and a load starts a third beside the second.
refreshed_twice :
    let y = step table (refreshes 50000 "pods") (step table (loads 49000 "pods") at_rest) in
    (length y.fetches ≡ 2)
    × (length
          (step table (loads 50200 "pods") (step table (ends 1 50100 (failed "slow")) y)).fetches
        ≡ 2)
unfolding step begun refresh begin_load begin_in is_cached request show_start cache_key_of ns_arg
    at_key end_load settle delete remove
refreshed_twice = (refl, refl)

fetched_is_cached_example :
    let t = end_load 50100 pods_fetch (fetched (web_0 ∷ [])) empty in
    (at_key "pods" t.lists ≡ some (web_0 ∷ []))
    × (t.selected_resource ≡ refreshed (web_0 ∷ []) none)
    × (begin_load table 60000 "pods" t ≡ (t, none))
    × (is_cached (50100 + 30000) "pods:web" t ≡ false)
unfolding cache_key_of ns_arg
fetched_is_cached_example =
    fetched_is_cached table 50100 60000 "pods" pods_fetch web_0 [] empty refl refl (omega arith)
