-- ===== src/Main/Settings/Tests.antt =====
-- The settings at concrete inputs. The text of a file is what JSON.parse makes of it.
use podscape.Common.{String, Bool, true, Option, none, some, List, [], ◌∷◌, ◌≡◌, refl, ◌==◌}
use podscape.Common.Maps.{put, at_key}
use podscape.Main.Settings.{
  PodscapeSettings, default_settings, Stored, stored_of, merged, Storage, done, fails_early,
  rename_fails, stops_after, Call, settings_set, kubeconfig_set, kubeconfig_select_path,
  kubeconfig_clear_path, next_write, restarts, write, get_settings, is_shared, save_settings,
  save_path, select_path, clear_path, find_kubeconfig_path, kubeconfig_get, write_kubeconfig,
  take_write, step, run, candidates, get_binary_path,
}
use podscape.Main.Settings.Atomic.{IsWholeFile, run-IsWholeFile}
use podscape.Main.Settings.Saved.{take_writes, get_settings-save_settings}

abbrev Text : Type 0
Text = Option Stored

abbrev stringify : PodscapeSettings → Text
stringify s = some (stored_of s)

abbrev parse : Text → Option Stored
parse text = text

abbrev exists : String → Bool
exists path = path == "/work/config"

abbrev fresh : Storage Text
fresh = record {
  settings_file = none;
  tmp_file = none;
  files = [];
  defaults = default_settings;
  write_lock = [];
}

abbrev light : PodscapeSettings
light = record default_settings { theme = "light" }

abbrev after : List (Call Text) → Storage Text
after cs = run stringify parse exists none "/home/.kube/config" cs fresh

-- A second write stops half way: the first one stays.
half_written :
    get_settings stringify parse (
      after (
        settings_set light
        ∷ next_write done
        ∷ kubeconfig_clear_path
        ∷ next_write (stops_after none)
        ∷ restarts
        ∷ []))
    ≡ light
unfolding run step save_settings take_write write clear_path save_path is_shared get_settings merged
half_written = refl

-- Settings that were read before a path was chosen, and are stored after it, take the path back.
stale_settings_set :
    (get_settings stringify parse (
      after (
        kubeconfig_select_path (some "/work/config")
        ∷ next_write done
        ∷ settings_set light
        ∷ next_write done
        ∷ []))).kubeconfig_path
    ≡ ""
unfolding run step save_settings take_write write select_path save_path is_shared get_settings
    merged
stale_settings_set = refl

-- Without a file the handlers change `DEFAULTS` itself: the path stays although nothing was written.
shared_defaults :
    (get_settings stringify parse (
      after (
        kubeconfig_select_path (some "/work/config")
        ∷ next_write fails_early
        ∷ []))).kubeconfig_path
    ≡ "/work/config"
unfolding run step save_settings take_write write select_path save_path is_shared get_settings
    merged
shared_defaults = refl

kubeconfig_is_read :
    kubeconfig_get stringify parse exists none "/home/.kube/config"
      (after (kubeconfig_set "apiVersion: v1" ∷ []))
    ≡ ("/home/.kube/config", "apiVersion: v1")
unfolding run step write_kubeconfig kubeconfig_get find_kubeconfig_path get_settings put at_key
kubeconfig_is_read = refl

found_second :
    get_binary_path exists
      (candidates true "/go-core/mcp" (some "/work/config") ("/usr/local/bin/mcp" ∷ []))
    ≡ (some "/work/config", true)
unfolding get_binary_path candidates
found_second = refl

run-IsWholeFile_example :
    IsWholeFile stringify parse exists none "/home/.kube/config" none
      (after (settings_set light ∷ next_write done ∷ [])).settings_file
run-IsWholeFile_example =
    run-IsWholeFile stringify parse exists none "/home/.kube/config"
      (settings_set light ∷ next_write done ∷ []) fresh refl

abbrev waiting : Storage Text
waiting = record fresh { write_lock = none ∷ [] }

get_settings-save_settings_example :
    get_settings stringify parse (
      take_write stringify parse exists none "" done (
        take_writes stringify parse
          (λ s. refl)
          exists
          none
          ""
          (rename_fails ∷ [])
          (save_settings stringify parse light waiting)))
    ≡ light
get_settings-save_settings_example =
    get_settings-save_settings stringify parse (λ s. refl) exists none "" light (rename_fails ∷ [])
      waiting refl
