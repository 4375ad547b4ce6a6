-- ===== src/Main/Settings/Atomic.antt =====
-- The settings file of main/settings/settings_storage.ts is never half written.
use podscape.Common.{
  String, Bool, true, false, Option, none, some, List, [], ◌∷◌, ◌≡◌, ◌⊎◌, inl, inr, refl, ap, All,
  All-append, truthy, if◌then◌else◌,
}
use podscape.Main.Settings.{
  PodscapeSettings, Stored, Storage, WriteEnd, done, fails_early, rename_fails, stops_after, Call,
  settings_set, kubeconfig_set, kubeconfig_select_path, kubeconfig_clear_path, next_write, restarts,
  write, get_settings, is_shared, save_settings, save_path, select_path, clear_path,
  write_kubeconfig, take_write, step, run,
}

module _ {T : Type 0} (stringify : PodscapeSettings → T) (parse : T → Option Stored)
    (exists : String → Bool) (env : Option String) (default_path : String) where
  abbrev IsText : T → Type 0
  IsText text = (s : PodscapeSettings) × (text ≡ stringify s)

  -- The settings file is as it was at first, or a complete text of some settings.
  abbrev pub IsWholeFile : Option T → Option T → Type 0
  IsWholeFile first file = (file ≡ first) ⊎ ((s : PodscapeSettings) × (file ≡ some (stringify s)))

  record IsWhole (first : Option T) (w : Storage T) : Type 0 where
    file : IsWholeFile first w.settings_file
    queue : All IsText w.write_lock

  save-IsWhole :
      (s : PodscapeSettings) (first : Option T) (w : Storage T)
      → IsWhole first w
      → IsWhole first (save_settings stringify parse s w)
  unfolding save_settings
  save-IsWhole s first w h = record {
    file = h.file;
    queue = All-append IsText w.write_lock _ h.queue ((s, refl), tt);
  }

  defaults-IsWhole :
      (b : Bool) (s : PodscapeSettings) (first : Option T) (w : Storage T)
      → IsWhole first w
      → IsWhole first (if b then record w { defaults = s } else w)
  defaults-IsWhole true s first w h = record { file = h.file; queue = h.queue }
  defaults-IsWhole false s first w h = h

  save_path-IsWhole :
      (path : String) (first : Option T) (w : Storage T)
      → IsWhole first w
      → IsWhole first (save_path stringify parse path w)
  unfolding save_path
  save_path-IsWhole path first w h =
      let s = record (get_settings stringify parse w) { kubeconfig_path = path } in
      save-IsWhole s first _ (defaults-IsWhole (is_shared stringify parse w) s first w h)

  selected-IsWhole :
      (chosen : Option String) (first : Option T) (w : Storage T)
      → IsWhole first w
      → IsWhole first (elim chosen [ none ↦ w | some path ↦ save_path stringify parse path w ])
  selected-IsWhole none first w h = h
  selected-IsWhole (some path) first w h = save_path-IsWhole path first w h

  write-IsWhole :
      (e : WriteEnd T) (text : T) (first : Option T) (w : Storage T)
      → IsText text
      → IsWhole first w
      → IsWhole first (write e text w)
  unfolding write
  write-IsWhole done text first w (s, e) h = record { file = inr (s, ap some e); queue = h.queue }
  write-IsWhole fails_early text first w t h = h
  write-IsWhole rename_fails text first w t h = record { file = h.file; queue = h.queue }
  write-IsWhole (stops_after part) text first w t h = record { file = h.file; queue = h.queue }

  taken-IsWhole :
      (e : WriteEnd T) (lock : List T) (first : Option T) (w : Storage T)
      → All IsText lock
      → IsWhole first w
      → IsWhole first
          (elim lock [ [] ↦ w | (text ∷ rest) ↦ write e text (record w { write_lock = rest }) ])
  taken-IsWhole e [] first w t h = h
  taken-IsWhole e (text ∷ rest) first w t h =
      write-IsWhole e text first (record w { write_lock = rest }) t.0
        (record { file = h.file; queue = t.1 })

  step-IsWhole :
      (c : Call T) (first : Option T) (w : Storage T)
      → IsWhole first w
      → IsWhole first (step stringify parse exists env default_path c w)
  unfolding step select_path clear_path write_kubeconfig take_write
  step-IsWhole (settings_set s) first w h = save-IsWhole s first w h
  step-IsWhole (kubeconfig_set content) first w h = record { file = h.file; queue = h.queue }
  step-IsWhole (kubeconfig_select_path chosen) first w h =
      selected-IsWhole (truthy chosen) first w h
  step-IsWhole kubeconfig_clear_path first w h = save_path-IsWhole "" first w h
  step-IsWhole (next_write e) first w h = taken-IsWhole e w.write_lock first w h.queue h
  step-IsWhole restarts first w h = record { file = h.file; queue = tt }

  run-IsWhole :
      (cs : List (Call T)) (first : Option T) (w : Storage T)
      → IsWhole first w
      → IsWhole first (run stringify parse exists env default_path cs w)
  unfolding run
  run-IsWhole [] first w h = h
  run-IsWhole (c ∷ cs) first w h = run-IsWhole cs first _ (step-IsWhole c first w h)

  -- Whatever calls come, and wherever a write stops, by an error or with the program: the settings
  -- file is what it was when no write waited, or the complete text of some settings.
  pub run-IsWholeFile :
      (cs : List (Call T)) (w : Storage T)
      → w.write_lock ≡ []
      → IsWholeFile w.settings_file (run stringify parse exists env default_path cs w).settings_file
  run-IsWholeFile cs w e =
      (run-IsWhole cs w.settings_file w (record { file = inl refl; queue = rw e tt })).file
