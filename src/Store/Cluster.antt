-- ===== src/Store/Cluster.antt =====
-- The switch to another cluster, `selectContext` of renderer/store/slices/clusterSlice.ts, with the
-- parts of the store that it reads and writes. `selectContext` is cut at its `await`s: `select`
-- runs up to the first, and each `after_…` function from one to the next, with the result that the
-- awaited promise has. A call that is under way is a `Run`, the local variables that it has kept.
-- Calls of the sidecar and of other parts of the store are recorded in `calls`, newest first; the
-- two that close what belongs to the old cluster are run on the state of those parts. The rejection
-- by the 15 s timer of `Promise.race` is one of the rejections. Data of a cluster that only has to
-- be reset is a list of texts here, and a missing value the empty list.
pub mod Switch
pub mod Probes
use Prim.Native.String
use podscape.Common.{
  ℕ, zero, suc, String, Bool, true, false, not, ◌&&◌, ◌||◌, Option, none, some, List, [], ◌∷◌, map,
  ◌==◌, any, is_some, eqb, if◌then◌else◌, codes, includes, starts_with,
}
use podscape.Store.Exec.{ExecState, close_exec}
use podscape.Store.Forwards.{Forwards, stop_all_port_forwards}

pub record ProviderSet : Type 0 where
  pub istio : Bool
  pub traefik : Bool
  pub nginx_inc : Bool
  pub nginx_community : Bool
  pub keda : Bool
  pub cilium : Bool
  pub hubble_relay : Bool
  pub ambassador : Bool

abbrev pub default_providers : ProviderSet
default_providers = record {
  istio = false;
  traefik = false;
  nginx_inc = false;
  nginx_community = false;
  keda = false;
  cilium = false;
  hubble_relay = false;
  ambassador = false;
}

-- What the store keeps of the cluster that is selected, and has to forget with it.
pub record ClusterData : Type 0 where
  pub selected_resource : List String
  pub security_scan_results : List String
  pub kubesec_batch_results : List String
  pub trivy_available : List String
  pub security_scan_progress_lines : List String
  pub security_scanning : Bool
  pub scan_in_background : Bool
  pub is_scanning : Bool
  pub last_preloaded_at : ℕ
  pub last_dashboard_loaded_at : ℕ
  pub owner_chains : List String
  pub helm_releases : List String
  pub pod_metrics : List String
  pub node_metrics : List String
  pub debug_pods : List String
  pub prometheus_available : List String
  pub prometheus_probe_error : List String
  pub metrics_error : List String
  pub sections : List String
  pub section_loaded_at : List String
  pub apps : List String
  pub denied_sections : List String
  pub unified_logs_selected_pods : List String
  pub allowed_verbs : List String

-- The literal that `selectContext` sets, `sectionClearState` included.
abbrev pub cleared : ClusterData
cleared = record {
  selected_resource = [];
  security_scan_results = [];
  kubesec_batch_results = [];
  trivy_available = [];
  security_scan_progress_lines = [];
  security_scanning = false;
  scan_in_background = false;
  is_scanning = false;
  last_preloaded_at = 0;
  last_dashboard_loaded_at = 0;
  owner_chains = [];
  helm_releases = [];
  pod_metrics = [];
  node_metrics = [];
  debug_pods = [];
  prometheus_available = [];
  prometheus_probe_error = [];
  metrics_error = [];
  sections = [];
  section_loaded_at = [];
  apps = [];
  denied_sections = [];
  unified_logs_selected_pods = [];
  allowed_verbs = [];
}

-- What the window shows of the cluster.
pub record View : Type 0 where
  pub selected_context : Option String
  pub prod_contexts : List String
  pub is_production : Bool
  pub namespaces : List String
  pub selected_namespace : Option String
  pub providers : ProviderSet
  pub providers_loading : Bool
  pub section : String
  pub loading_namespaces : Bool
  pub loading_resources : Bool
  pub error : Option String
  pub context_switch_status : Option String
  pub cluster_data : ClusterData

pub data Call : Type 0 where
  clear_in_flight_sections flush_cache cancel_all_streams preload fetch_providers
        fetch_allowed_verbs :
      Call
  switches fetches_namespaces loads : String → Call

pub record Switcher : Type 0 where
  pub view : View
  pub context_switch_seq : ℕ
  pub inflight_switch_target : Option String
  pub forwards : Forwards
  pub exec : ExecState
  pub calls : List Call

pub data Phase : Type 0 where
  cancelling switching listing loading : Phase
  rolling_back : (msg : String) → Phase

pub record Run : Type 0 where
  pub name : String
  pub my_seq : ℕ
  pub previous_context : Option String
  pub previous_namespaces : List String
  pub previous_selected_namespace : Option String
  pub previous_providers : ProviderSet
  pub phase : Phase
