-- ===== src/Main/Settings.antt =====
-- main/settings/settings_storage.ts and the handlers of main/ipc/settings.ts: the settings file, its
-- writes one after the other, and the path of the kubeconfig. `JSON.stringify` and `JSON.parse` are
-- parameters, with the type of the texts that they write and read; of the object that `parse` gives
-- only the fields of the settings are read.
pub mod Atomic
pub mod Saved
mod Tests
use podscape.Common.{
  ℕ, String, Bool, true, false, Option, none, some, List, [], ◌∷◌, ◌++◌, is_some, or_else, truthy,
  if◌then◌else◌, ◌==◌, ◌&&◌, not, find,
}
use podscape.Common.Maps.{put, at_key}

pub record PodscapeSettings : Type 0 where
  pub shell_path : String
  pub theme : String
  pub kubeconfig_path : String
  pub prod_contexts : List String
  pub prometheus_urls : List (String × String)
  pub tour_completed : Bool
  pub plugins_enabled : Bool
  pub gitops_enabled : Bool
  pub network_enabled : Bool

abbrev pub default_settings : PodscapeSettings
default_settings = record {
  shell_path = "";
  theme = "dark";
  kubeconfig_path = "";
  prod_contexts = [];
  prometheus_urls = [];
  tour_completed = false;
  plugins_enabled = true;
  gitops_enabled = true;
  network_enabled = true;
}

-- The fields that a stored object has.
pub record Stored : Type 0 where
  pub shell_path : Option String
  pub theme : Option String
  pub kubeconfig_path : Option String
  pub prod_contexts : Option (List String)
  pub prometheus_urls : Option (List (String × String))
  pub tour_completed : Option Bool
  pub plugins_enabled : Option Bool
  pub gitops_enabled : Option Bool
  pub network_enabled : Option Bool

-- The object with all the fields.
abbrev pub stored_of : PodscapeSettings → Stored
stored_of s = record {
  shell_path = some s.shell_path;
  theme = some s.theme;
  kubeconfig_path = some s.kubeconfig_path;
  prod_contexts = some s.prod_contexts;
  prometheus_urls = some s.prometheus_urls;
  tour_completed = some s.tour_completed;
  plugins_enabled = some s.plugins_enabled;
  gitops_enabled = some s.gitops_enabled;
  network_enabled = some s.network_enabled;
}

-- `{ ...DEFAULTS, ...stored }`.
pub merged : PodscapeSettings → Stored → PodscapeSettings
merged d p = record {
  shell_path = or_else p.shell_path d.shell_path;
  theme = or_else p.theme d.theme;
  kubeconfig_path = or_else p.kubeconfig_path d.kubeconfig_path;
  prod_contexts = or_else p.prod_contexts d.prod_contexts;
  prometheus_urls = or_else p.prometheus_urls d.prometheus_urls;
  tour_completed = or_else p.tour_completed d.tour_completed;
  plugins_enabled = or_else p.plugins_enabled d.plugins_enabled;
  gitops_enabled = or_else p.gitops_enabled d.gitops_enabled;
  network_enabled = or_else p.network_enabled d.network_enabled;
}

-- The settings file, the temporary file beside it, and the other files by their paths. `DEFAULTS` is
-- an object that the handlers can change. `write_lock` has the data of the writes that wait.
pub record Storage (T : Type 0) : Type 0 where
  pub settings_file : Option T
  pub tmp_file : Option T
  pub files : List (String × String)
  pub defaults : PodscapeSettings
  pub write_lock : List T

-- How a write ends: it is done; it fails before anything is written; it stops, by an error or with
-- the whole program, after a part of the temporary file; or the rename fails.
pub data WriteEnd (T : Type 0) : Type 0 where
  done fails_early rename_fails : WriteEnd T
  stops_after : T → WriteEnd T

pub data Call (T : Type 0) : Type 0 where
  settings_set : PodscapeSettings → Call T
  kubeconfig_set : String → Call T
  -- `none` where the dialog was cancelled
  kubeconfig_select_path : Option String → Call T
  kubeconfig_clear_path : Call T
  next_write : WriteEnd T → Call T
  -- the program ends and starts again
  restarts : Call T

-- One function of the queue.
pub write : {T : Type 0} → WriteEnd T → T → Storage T → Storage T
write done text w = record w { settings_file = some text; tmp_file = none }
write fails_early text w = w
write rename_fails text w = record w { tmp_file = some text }
write (stops_after part) text w = record w { tmp_file = some part }

module _ {T : Type 0} (stringify : PodscapeSettings → T) (parse : T → Option Stored) where
  pub get_settings : Storage T → PodscapeSettings
  get_settings w = elim w.settings_file [
    | none ↦ w.defaults
    | some text ↦ elim (parse text) [ none ↦ w.defaults | some p ↦ merged w.defaults p ]
  ]

  -- Whether what `get_settings` returns is `DEFAULTS` itself.
  pub is_shared : Storage T → Bool
  is_shared w = elim w.settings_file [ none ↦ true | some text ↦ not (is_some (parse text)) ]

  pub save_settings : PodscapeSettings → Storage T → Storage T
  save_settings s w = record w { write_lock = w.write_lock ++ stringify s ∷ [] }

  -- `settings.kubeconfigPath = path; saveSettings(settings)`.
  pub save_path : String → Storage T → Storage T
  save_path path w =
      let s = record (get_settings w) { kubeconfig_path = path } in
      save_settings s (if is_shared w then record w { defaults = s } else w)

  -- `filePaths[0]` is a path, or missing.
  pub select_path : Option String → Storage T → Storage T
  select_path chosen w = elim (truthy chosen) [ none ↦ w | some path ↦ save_path path w ]

  pub clear_path : Storage T → Storage T
  clear_path w = save_path "" w

  -- `exists` says which paths exist, `env` is KUBECONFIG.
  pub find_kubeconfig_path : (String → Bool) → Option String → String → Storage T → String
  find_kubeconfig_path exists env default_path w =
      elim (truthy (some (get_settings w).kubeconfig_path)) [
        | none ↦ or_else (truthy env) default_path
        | some path ↦ if exists path then path else or_else (truthy env) default_path
      ]

  module _ (exists : String → Bool) (env : Option String) (default_path : String) where
    pub kubeconfig_get : Storage T → String × String
    kubeconfig_get w =
        let path = find_kubeconfig_path exists env default_path w in
        (path, or_else (at_key path w.files) "")

    pub write_kubeconfig : String → Storage T → Storage T
    write_kubeconfig content w = record w {
      files = put (find_kubeconfig_path exists env default_path w) content w.files;
    }

    pub take_write : WriteEnd T → Storage T → Storage T
    take_write e w = elim w.write_lock [
      | [] ↦ w
      | (text ∷ rest) ↦ write e text (record w { write_lock = rest })
    ]

    pub step : Call T → Storage T → Storage T
    step (settings_set s) w = save_settings s w
    step (kubeconfig_set content) w = write_kubeconfig content w
    step (kubeconfig_select_path chosen) w = select_path chosen w
    step kubeconfig_clear_path w = clear_path w
    step (next_write e) w = take_write e w
    step restarts w = record w { defaults = default_settings; write_lock = [] }

    pub run : List (Call T) → Storage T → Storage T
    run [] w = w
    run (c ∷ cs) w = run cs (step c w)

-- `mcp:getBinaryPath`: the candidates, and the first of them that exists.
pub candidates : Bool → String → Option String → List String → List String
candidates is_dev dev_path on_path common =
    (if is_dev then dev_path ∷ [] else [])
    ++ (elim on_path [ none ↦ [] | some p ↦ p ∷ [] ] ++ common)

abbrev pub first : List String → Option String
first [] = none
first (p ∷ ps) = some p

pub get_binary_path : (String → Bool) → List String → Option String × Bool
get_binary_path exists ps = elim (find exists ps) [
  | none ↦ (first ps, false)
  | some p ↦ (some p, true)
]
