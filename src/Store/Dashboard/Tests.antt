-- ===== src/Store/Dashboard/Tests.antt =====
-- A dashboard at concrete inputs.
use podscape.Common.{
  String, true, false, none, some, List, [], ◌∷◌, map, filter, length, sum_of, ◌≡◌, refl,
}
use podscape.Common.Maps.{at_key}
use podscape.Store.Dashboard.{
  Labelled, Dashboard, Load, Fetched, fulfilled, rejected, fetches, first_error, app_name,
  first_label, group_apps, apps_of,
}
use podscape.Store.Dashboard.Apps.{members, is_in, has_app, app_size, members-of_apps}

abbrev web : String → Labelled
web name = record {
  name = name;
  namespace = some "shop";
  labels = ("run", "r") ∷ ("app", "web") ∷ [];
}

abbrev bare : Labelled
bare = record { name = "bare"; namespace = none; labels = [] }

abbrev found : List Labelled
found = web "web-1" ∷ bare ∷ web "web-2" ∷ []

app_before_run : app_name (web "web-1") ≡ some "web"
unfolding app_name first_label at_key
app_before_run = refl

abbrev dashboard : Dashboard
dashboard = record {
  selected_context = some "dev";
  selected_namespace = some "shop";
  last_dashboard_loaded_at = 0;
  dashboard_fetch_seq = 1;
  loading_resources = true;
  error = none;
  lists = [];
  apps = [];
}

abbrev load : Load
load = record { my_seq = 1; snapshot_ctx = "dev"; ns = some "shop" }

-- Every first fetch is forbidden, and every retry finds the same.
abbrev results : List Fetched
results =
    map (λ f. record { fetch = f; first = rejected "forbidden"; retried = fulfilled found }) fetches

nodes_error : first_error results ≡ some "forbidden"
unfolding first_error
nodes_error = refl

members-of_apps_example :
    (members "shop:web" (group_apps found []) ≡ filter (is_in "shop:web") found)
    × (sum_of app_size (apps_of (λ a b. false) found) ≡ length (filter has_app found))
members-of_apps_example = members-of_apps (λ a b. false) "shop:web" found
