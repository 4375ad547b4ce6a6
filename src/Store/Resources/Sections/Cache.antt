-- ===== src/Store/Resources/Sections/Cache.antt =====
-- What a fetch of `loadSection` leaves behind for later loads.
use podscape.Common.{
  ℕ, String, true, false, Option, none, some, List, ◌∷◌, ◌-◌, ◌+◌, ◌<◌, truthy, ◌≡◌, refl, ◌∙◌,
  arith, eq_refl, Option-cases, inl, inr, ltb,
}
use podscape.Common.Maps.{at_key, at_key-put}
use podscape.Store.Resources.{KubeResource}
use podscape.Store.Resources.Sections.{
  SectionConfig, Loader, Fetch, Result, delete, cache_key_of, is_cached, begin_in, begin_load,
  settle, end_load, stamp, refreshed, fetched,
}

-- The result of the context that is still selected.
end_load-current :
    (now : ℕ) (f : Fetch) (r : Result) (s : Loader)
    → s.selected_context ≡ some f.snapshot_ctx
    → end_load now f r s ≡ record (settle now f r s) {
      in_flight_sections = delete f.cache_key (settle now f r s).in_flight_sections;
    }
unfolding end_load
end_load-current now f r s h = rw h (rw (eq_refl f.snapshot_ctx) refl)

begin_in-cached :
    (ctx : String) (config : Option SectionConfig) (now : ℕ) (section : String) (s : Loader)
    → is_cached now (cache_key_of section s.selected_namespace) s ≡ true
    → begin_in ctx config now section s ≡ (s, none)
unfolding begin_in
begin_in-cached ctx none now section s h = refl
begin_in-cached ctx (some config) now section s h = rw h refl

begin_load-cached :
    (config : String → Option SectionConfig) (now : ℕ) (section : String) (s : Loader)
    → is_cached now (cache_key_of section s.selected_namespace) s ≡ true
    → begin_load config now section s ≡ (s, none)
unfolding begin_load
begin_load-cached config now section s h = elim (Option-cases (truthy s.selected_context)) [
  | inl nobody ↦ rw (nobody, begin_load) refl
  | inr (ctx, e) ↦ rw (e, begin_load) (begin_in-cached ctx (config section) now section s h)
]

is_cached-stamped :
    (now later : ℕ) (key : String) (s : Loader)
    → at_key key s.section_loaded_at ≡ some now
    → is_cached later key s ≡ ltb (later - now) 30000
unfolding is_cached
is_cached-stamped now later key s h = rw h refl

-- A list that is fetched for the context that is still selected and is not empty is shown, with the
-- selected resource as it is in the list or none. For less than 30 s after that every load of the
-- section in the same namespace changes nothing and fetches nothing; at 30 s the cache no longer
-- holds it back.
pub fetched_is_cached :
    (config : String → Option SectionConfig) (now later : ℕ) (section : String) (f : Fetch)
    (x : KubeResource) (xs : List KubeResource) (s : Loader)
    → s.selected_context ≡ some f.snapshot_ctx
    → f.cache_key ≡ cache_key_of section s.selected_namespace
    → later < now + 30000
    → let t = end_load now f (fetched (x ∷ xs)) s in
      (at_key f.state_key t.lists ≡ some (x ∷ xs))
      × (t.selected_resource ≡ refreshed (x ∷ xs) s.selected_resource)
      × (begin_load config later section t ≡ (t, none))
      × (is_cached (now + 30000) f.cache_key t ≡ false)
unfolding settle stamp
fetched_is_cached config now later section f x xs s ctx key soon =
    let eq = end_load-current now f (fetched (x ∷ xs)) s ctx in
    let stored = at_key-put f.cache_key now s.section_loaded_at in
    rw eq (
      at_key-put f.state_key (x ∷ xs) s.lists,
      refl,
      begin_load-cached config later section _
          (rw (← key) (is_cached-stamped now later f.cache_key _ stored ∙ ground arith)),
      is_cached-stamped now (now + 30000) f.cache_key _ stored ∙ ground arith,
    )
