-- ===== src/Store/Resources/Sections.antt =====
-- `loadSection` of renderer/store/slices/resourceSlice.ts for the sections of the table
-- SECTION_CONFIG, the ones that show one list; the dashboard and the panels that load several lists
-- are not here; and `refresh`. The function is cut at its `await`: `begin_load` runs up to the fetch, `end_load`
-- from its result to the `finally`. The clock in milliseconds and the table are parameters.
pub mod Guard
pub mod Cache
mod Tests
use podscape.Common.{
  ℕ, zero, suc, String, Bool, true, false, not, ◌&&◌, Option, none, some, List, [], ◌∷◌, ◌++◌, ◌==◌,
  ◌-◌, any, filter, find, ltb, is_some, or_else, truthy, same_option, if◌then◌else◌, join_text,
  codes, starts_with, get_elem?,
}
use podscape.Common.Maps.{put, at_key}
use podscape.Store.Resources.{KubeResource, has_uid}

pub record SectionConfig : Type 0 where
  pub state_key : String
  pub namespaced : Bool

pub record Loader : Type 0 where
  pub selected_context : Option String
  pub selected_namespace : Option String
  pub section_loaded_at : List (String × ℕ)
  pub in_flight_sections : List String
  pub lists : List (String × List KubeResource)
  pub denied_sections : List String
  pub loading_resources : Bool
  pub error : Option String
  pub last_refreshed_at : ℕ
  pub selected_resource : Option KubeResource

-- A fetch that is under way, with what the call has kept.
pub record Fetch : Type 0 where
  pub section : String
  pub cache_key : String
  pub state_key : String
  pub snapshot_ctx : String
  pub fetch_ns : Option String

pub data Result : Type 0 where
  fetched : List KubeResource → Result
  failed : (msg : String) → Result

abbrev pub section_ttl : ℕ
section_ttl = 30000

-- Sets with the order of insertion.
abbrev pub has : String → List String → Bool
has k = any (λ x. x == k)

pub add : String → List String → List String
add k ks = if has k ks then ks else ks ++ k ∷ []

pub delete : String → List String → List String
delete k = filter (λ x. not (x == k))

pub ns_arg : Option String → Option String
ns_arg none = none
ns_arg (some ns) = if ns == "_all" then none else some ns

pub cache_key_of : String → Option String → String
cache_key_of section ns = join_text (section ∷ ":" ∷ or_else (ns_arg ns) "_all" ∷ [])

-- `Date.now() - (sectionLoadedAt[cacheKey] ?? 0) < SECTION_TTL`.
pub is_cached : ℕ → String → Loader → Bool
is_cached now key s = ltb (now - or_else (at_key key s.section_loaded_at) 0) section_ttl

abbrev pub is_empty : Option (List KubeResource) → Bool
is_empty none = true
is_empty (some []) = true
is_empty (some (_ ∷ _)) = false

-- The spinner turns on the first load only.
pub show_start : String → Loader → Loader
show_start state_key s =
    if is_empty (at_key state_key s.lists)
    then record s { loading_resources = true; error = none; selected_resource = none }
    else record s { error = none }

-- The part within `try`, and the `finally` where it returns at once.
pub request : String → String → String → SectionConfig → Loader → Loader × Option Fetch
request section key ctx config s =
    if config.namespaced && not (is_some (truthy s.selected_namespace))
    then (record s { lists = put config.state_key [] s.lists }, none)
    else (
      show_start config.state_key (record s {
        in_flight_sections = s.in_flight_sections ++ key ∷ [];
        denied_sections = delete section s.denied_sections;
      }),
      some (record {
        section = section;
        cache_key = key;
        state_key = config.state_key;
        snapshot_ctx = ctx;
        fetch_ns = if config.namespaced then ns_arg s.selected_namespace else none;
      }),
    )

pub begin_in : String → Option SectionConfig → ℕ → String → Loader → Loader × Option Fetch
begin_in ctx none now section s = (s, none)
begin_in ctx (some config) now section s =
    let key = cache_key_of section s.selected_namespace in
    if is_cached now key s
    then (s, none)
    else if has key s.in_flight_sections
    then (s, none)
    else request section key ctx config s

-- The refreshed version of the selected resource.
pub refreshed : List KubeResource → Option KubeResource → Option KubeResource
refreshed fresh none = none
refreshed fresh (some r) = find (has_uid r.uid) fresh

-- Only a list that is not empty is cached.
pub stamp : ℕ → String → List KubeResource → List (String × ℕ) → List (String × ℕ)
stamp now key [] m = m
stamp now key (_ ∷ _) m = put key now m

pub settle : ℕ → Fetch → Result → Loader → Loader
settle now f (fetched fresh) s = record s {
  lists = put f.state_key fresh s.lists;
  loading_resources = false;
  section_loaded_at = stamp now f.cache_key fresh s.section_loaded_at;
  selected_resource = refreshed fresh s.selected_resource;
}
settle now f (failed msg) s =
    if starts_with (codes msg) (codes "RBAC_DENIED:")
    then record s {
      lists = put f.state_key [] s.lists;
      denied_sections = add f.section s.denied_sections;
      loading_resources = false;
    }
    else record s { error = some msg; loading_resources = false }

-- A result of another context is dropped.
pub end_load : ℕ → Fetch → Result → Loader → Loader
end_load now f r s =
    let shown =
      if same_option s.selected_context (some f.snapshot_ctx)
      then settle now f r s
      else record s { loading_resources = false } in
    record shown { in_flight_sections = delete f.cache_key shown.in_flight_sections }

module _ (config : String → Option SectionConfig) where
  pub begin_load : ℕ → String → Loader → Loader × Option Fetch
  begin_load now section s = elim (truthy s.selected_context) [
    | none ↦ (s, none)
    | some ctx ↦ begin_in ctx (config section) now section s
  ]

  -- `refresh`, for the section that is shown: within 2 s of the last one it does nothing.
  pub refresh : ℕ → String → Loader → Loader × Option Fetch
  refresh now section s =
      let fresh = record s {
        in_flight_sections = [];
        section_loaded_at = [];
        last_refreshed_at = now;
      } in
      if ltb (now - s.last_refreshed_at) 2000 then (s, none) else begin_load now section fresh
