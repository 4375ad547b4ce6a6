-- ===== src/Main/Settings/Saved.antt =====
-- What is read back after a write of main/settings/settings_storage.ts.
use podscape.Common.{
  String, Bool, true, false, Option, some, List, [], ◌∷◌, ◌++◌, ◌≡◌, refl, ◌∙◌, sym, ap, length,
  truthy, or_else, arith, if◌then◌else◌, ◌==◌,
}
use podscape.Main.Settings.{
  PodscapeSettings, Stored, stored_of, merged, Storage, WriteEnd, done, fails_early, rename_fails,
  stops_after, write, get_settings, is_shared, save_settings, save_path, take_write,
  find_kubeconfig_path,
}

module _ {T : Type 0} (stringify : PodscapeSettings → T) (parse : T → Option Stored)
    (parse-stringify : (s : PodscapeSettings) → parse (stringify s) ≡ some (stored_of s))
    (exists : String → Bool) (env : Option String) (default_path : String) where
  abbrev take_end : WriteEnd T → Storage T → Storage T
  take_end = take_write stringify parse exists env default_path

  -- The queue runs on, each write with its end.
  pub take_writes : List (WriteEnd T) → Storage T → Storage T
  take_writes [] w = w
  take_writes (e ∷ es) w = take_writes es (take_end e w)

  write-lock :
      (e : WriteEnd T) (text : T) (w : Storage T) → (write e text w).write_lock ≡ w.write_lock
  unfolding write
  write-lock done text w = refl
  write-lock fails_early text w = refl
  write-lock rename_fails text w = refl
  write-lock (stops_after part) text w = refl

  -- The writes that wait leave the last one alone, whatever their ends.
  take_writes-lock :
      (es : List (WriteEnd T)) (before : List T) (last : T) (w : Storage T)
      → length es ≡ length before
      → w.write_lock ≡ before ++ last ∷ []
      → (take_writes es w).write_lock ≡ last ∷ []
  unfolding take_writes take_write
  take_writes-lock [] [] last w n e = e
  take_writes-lock [] (t ∷ before) last w n e = absurd (omega (arith, n))
  take_writes-lock (x ∷ es) [] last w n e = absurd (omega (arith, n))
  take_writes-lock (x ∷ es) (t ∷ before) last w n e =
      take_writes-lock es before last _ (omega (arith, n)) (rw e (write-lock x t _))

  -- The last write puts its text into the file.
  take_write-file :
      (text : T) (w : Storage T)
      → w.write_lock ≡ text ∷ []
      → (take_end done w).settings_file ≡ some text
  unfolding take_write write
  take_write-file text w e = rw e refl

  get_settings-of :
      (s : PodscapeSettings) (w : Storage T)
      → w.settings_file ≡ some (stringify s)
      → get_settings stringify parse w ≡ s
  unfolding get_settings merged
  get_settings-of s w e = ground (arith, parse-stringify s)

  -- What is saved is read back once its own write is done, whatever became of the writes before it:
  -- where JSON.parse undoes JSON.stringify.
  pub get_settings-save_settings :
      (s : PodscapeSettings) (es : List (WriteEnd T)) (w : Storage T)
      → length es ≡ length w.write_lock
      → get_settings stringify parse
          (take_end done (take_writes es (save_settings stringify parse s w)))
        ≡ s
  unfolding save_settings
  get_settings-save_settings s es w n = get_settings-of s _ (
      take_write-file (stringify s) _
        (take_writes-lock es w.write_lock (stringify s) (save_settings stringify parse s w) n refl))

  -- `find_kubeconfig_path` on a chosen path.
  abbrev pub kubeconfig_for : String → String
  kubeconfig_for path =
      if path == ""
      then or_else (truthy env) default_path
      else if exists path
      then path
      else or_else (truthy env) default_path

  find-for :
      (w : Storage T)
      → find_kubeconfig_path stringify parse exists env default_path w
        ≡ kubeconfig_for (get_settings stringify parse w).kubeconfig_path
  unfolding find_kubeconfig_path
  find-for w = ground arith

  write_lock-shared :
      (b : Bool) (s : PodscapeSettings) (w : Storage T)
      → (if b then record w { defaults = s } else w).write_lock ≡ w.write_lock
  write_lock-shared true s w = refl
  write_lock-shared false s w = refl

  -- A path that is chosen or cleared is the one that the next search for a kubeconfig finds once it
  -- is written, if it is there, or else KUBECONFIG or the default; no other setting changes.
  save_path-find :
      (path : String) (es : List (WriteEnd T)) (w : Storage T)
      → length es ≡ length w.write_lock
      → let v = take_end done (take_writes es (save_path stringify parse path w)) in
        (find_kubeconfig_path stringify parse exists env default_path v ≡ kubeconfig_for path)
        × (get_settings stringify parse v
            ≡ record (get_settings stringify parse w) { kubeconfig_path = path })
  unfolding save_path
  save_path-find path es w n =
      let s = record (get_settings stringify parse w) { kubeconfig_path = path } in
      let b = is_shared stringify parse w in
      let u = if b then record w { defaults = s } else w in
      let read =
        get_settings-save_settings s es u (n ∙ ap length (sym (write_lock-shared b s w))) in
      (find-for _ ∙ ap (λ (t : PodscapeSettings). kubeconfig_for t.kubeconfig_path) read, read)
