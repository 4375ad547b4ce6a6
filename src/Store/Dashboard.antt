-- ===== src/Store/Dashboard.antt =====
-- `loadDashboard` of renderer/store/slices/resourceSlice.ts, cut at its `await`s: `begin_dashboard`
-- runs up to the fetches, `end_dashboard` from their results, the retries of the failed ones
-- included. The order of `localeCompare` is a parameter. The background fetch of the node metrics
-- and the clearing of the in-flight guard are not here.
pub mod Apps
mod Tests
use podscape.Common.{
  ℕ, suc, String, Bool, true, false, not, ◌&&◌, ◌||◌, Option, none, some, List, [], ◌∷◌, ◌++◌, ◌==◌,
  ◌-◌, map, ltb, eqb, or_else, or_option, truthy, same_option, join_text, if◌then◌else◌, is_some,
}
use podscape.Common.Maps.{put, at_key}
use podscape.Common.Sorting.{sort_by}

-- What the dashboard reads of a resource.
pub record Labelled : Type 0 where
  pub name : String
  pub namespace : Option String
  pub labels : List (String × String)

pub record AppGroup : Type 0 where
  pub name : String
  pub namespace : String
  pub resources : List Labelled

pub record Dashboard : Type 0 where
  pub selected_context : Option String
  pub selected_namespace : Option String
  pub last_dashboard_loaded_at : ℕ
  pub dashboard_fetch_seq : ℕ
  pub loading_resources : Bool
  pub error : Option String
  pub lists : List (String × List Labelled)
  pub apps : List AppGroup

-- A call that is under way.
pub record Load : Type 0 where
  pub my_seq : ℕ
  pub snapshot_ctx : String
  pub ns : Option String

-- One of the fetches: what it is for, and whether its failure is an error.
pub record DashboardFetch : Type 0 where
  pub key : String
  pub can_retry : Bool
  pub required : Bool

abbrev pub fetches : List DashboardFetch
fetches =
    record { key = "nodes"; can_retry = false; required = true }
    ∷ record { key = "namespaces"; can_retry = false; required = true }
    ∷ map (λ (k : String). record { key = k; can_retry = true; required = false })
        ("events" ∷ "pods" ∷ "deployments" ∷ "statefulsets" ∷ "daemonsets" ∷ "services"
          ∷ "configmaps" ∷ "hpas" ∷ [])

pub data Result : Type 0 where
  fulfilled : List Labelled → Result
  rejected : (msg : String) → Result

-- The result of a fetch, and of its retry where there is one.
pub record Fetched : Type 0 where
  pub fetch : DashboardFetch
  pub first : Result
  pub retried : Result

abbrev or_empty : Result → List Labelled
or_empty (fulfilled rs) = rs
or_empty (rejected msg) = []

-- The retry in one namespace, where one is selected.
pub final_value : Option String → Fetched → List Labelled
final_value ns f = elim f.first [
  | fulfilled rs ↦ rs
  | rejected msg ↦ if f.fetch.can_retry && is_some (truthy ns) then or_empty f.retried else []
]

-- The first message that is not empty, of a fetch that is required.
pub first_error : List Fetched → Option String
first_error [] = none
first_error (f ∷ fs) =
    let rest = first_error fs in
    elim f.first [
      | fulfilled rs ↦ rest
      | rejected msg ↦ if f.fetch.required then or_option (truthy (some msg)) rest else rest
    ]

pub updates :
    Option String → List Fetched → List (String × List Labelled) → List (String × List Labelled)
updates ns [] m = m
updates ns (f ∷ fs) m = updates ns fs (put f.fetch.key (final_value ns f) m)

abbrev pub app_labels : List String
app_labels = "app.kubernetes.io/name" ∷ "app" ∷ "run" ∷ []

abbrev label : String → Labelled → Option String
label key r = truthy (at_key key r.labels)

pub first_label : List String → Labelled → Option String
first_label [] r = none
first_label (key ∷ keys) r = or_option (label key r) (first_label keys r)

pub app_name : Labelled → Option String
app_name = first_label app_labels

abbrev pub namespace_of : Labelled → String
namespace_of r = or_else (truthy r.namespace) "default"

pub key_of : Labelled → String → String
key_of r app = join_text (namespace_of r ∷ ":" ∷ app ∷ [])

abbrev new_app : Labelled → String → AppGroup
new_app r app = record { name = app; namespace = namespace_of r; resources = [] }

abbrev pub joined : Labelled → AppGroup → AppGroup
joined r g = record g { resources = g.resources ++ r ∷ [] }

pub add_to : Option String → Labelled → List (String × AppGroup) → List (String × AppGroup)
add_to none r groups = groups
add_to (some app) r groups =
    let key = key_of r app in
    put key (joined r (or_else (at_key key groups) (new_app r app))) groups

pub group_apps : List Labelled → List (String × AppGroup) → List (String × AppGroup)
group_apps [] groups = groups
group_apps (r ∷ rs) groups = group_apps rs (add_to (app_name r) r groups)

abbrev shown : String → List (String × List Labelled) → List Labelled
shown key m = or_else (at_key key m) []

pub all_resources : List (String × List Labelled) → List Labelled
all_resources m =
    shown "deployments" m
    ++ shown "statefulsets" m
    ++ shown "daemonsets" m
    ++ shown "services" m
    ++ shown "configmaps" m
    ++ shown "hpas" m

abbrev pub groups_of : List (String × AppGroup) → List AppGroup
groups_of = map (λ p. p.1)

pub begin_dashboard : ℕ → Dashboard → Dashboard × Option Load
begin_dashboard now s = elim (truthy s.selected_context) [
  | none ↦ (s, none)
  | some ctx ↦ if ltb (now - s.last_dashboard_loaded_at) 30000 then (s, none) else (
    record s {
      dashboard_fetch_seq = suc s.dashboard_fetch_seq;
      loading_resources = true;
      error = none;
    },
    some (record {
      my_seq = suc s.dashboard_fetch_seq;
      snapshot_ctx = ctx;
      ns = if same_option s.selected_namespace (some "_all") then none else s.selected_namespace;
    }),
  )
]

module _ (before : String → String → Bool) where
  pub apps_of : List Labelled → List AppGroup
  apps_of rs = sort_by (λ a b. before a.name b.name) (groups_of (group_apps rs []))

  pub end_dashboard : ℕ → Load → List Fetched → Dashboard → Dashboard
  end_dashboard now l fs s =
      let m = updates l.ns fs s.lists in
      if eqb l.my_seq s.dashboard_fetch_seq && same_option s.selected_context (some l.snapshot_ctx)
      then record s {
        lists = m;
        error = or_option (first_error fs) s.error;
        apps = apps_of (all_resources m);
        loading_resources = false;
        last_dashboard_loaded_at = now;
      }
      else record s { loading_resources = false }
