-- ===== src/Store/Cluster/Switch/Overwrites.antt =====
-- A rollback of `selectContext` that ends after a newer switch has ended.
use podscape.Common.{
  suc, String, true, false, Option, none, some, List, [], ◌∷◌, ◌≡◌, refl, ap, ◌∙◌, drop,
}
use podscape.Store.Cluster.{
  Call, Switcher, Phase, Run, switching, listing, loading, rolling_back, switches, loads,
}
use podscape.Store.Cluster.Switch.{
  is_target, present, call, show, settled, restored, listed, friendly, after_switch, resolves,
  name_of, select_new, new_run, after_cancel, after_rollback, at, resume, resume_at, System, Action,
  selects, continues, replace, started, continued, step,
}
use podscape.Store.Cluster.Switch.Settles.{
  fine, lists, fails_list, connected, newest_refl, select_fresh, after_switch-newest,
  after_list-newest, after_list-failed, after_load-newest, present-some,
}

pub perform : List Action → System → System
perform [] y = y
perform (a ∷ more) y = perform more (step a y)

-- The context that the sidecar was last told to switch to.
pub last_switch : List Call → Option String
last_switch [] = none
last_switch (switches c ∷ cs) = some c
last_switch (_ ∷ cs) = last_switch cs

abbrev under_way : Switcher → List Run → System
under_way s rs = record { switcher = s; runs = rs }

abbrev in_phase : Phase → Run → Run
in_phase p r = record r { phase = p }

-- The user selects b, whose namespaces cannot be listed, and c while the rollback to the context
-- before b is under way. The promise of the rollback is the last to end.
abbrev pub overtaken : (b c : String) → String → List String → List Action
overtaken b c msg ns =
    selects b
    ∷ continues 0 fine
    ∷ continues 0 fine
    ∷ continues 0 (fails_list msg)
    ∷ selects c
    ∷ continues 1 fine
    ∷ continues 1 fine
    ∷ continues 1 (lists ns)
    ∷ continues 1 fine
    ∷ continues 0 fine
    ∷ []

-- Up to the answer of the sidecar: a new run behind those that are under way.
module _ (c : String) (s : Switcher) (fresh : is_target s.inflight_switch_target c ≡ false) where
  answered :
      after_switch
        (resolves tt)
        (in_phase switching (new_run c s))
        (after_cancel (new_run c s) (select_new c s)).0
      ≡ (connected c s, at listing (new_run c s))
  unfolding after_cancel select_new new_run
  answered =
      after_switch-newest _ (after_cancel (new_run c s) (select_new c s)).0 refl
        (newest_refl (suc s.context_switch_seq))

  connect_first :
      step (continues 0 fine) (step (continues 0 fine) (step (selects c) (under_way s [])))
      ≡ under_way (connected c s) (in_phase listing (new_run c s) ∷ [])
  unfolding step started continued replace resume resume_at after_cancel new_run
  connect_first =
      ap (λ o. step (continues 0 fine) (step (continues 0 fine) (started [] o)))
        (select_fresh c s fresh)
      ∙ ap (continued 0 (in_phase switching (new_run c s) ∷ [])) answered

  connect_second :
      (r : Run)
      → step (continues 1 fine) (step (continues 1 fine) (step (selects c) (under_way s (r ∷ []))))
        ≡ under_way (connected c s) (r ∷ in_phase listing (new_run c s) ∷ [])
  unfolding step started continued replace resume resume_at after_cancel new_run
  connect_second r =
      ap (λ o. step (continues 1 fine) (step (continues 1 fine) (started (r ∷ []) o)))
        (select_fresh c s fresh)
      ∙ ap (continued 1 (r ∷ in_phase switching (new_run c s) ∷ [])) answered

-- A rollback that ends after a newer switch overwrites it: the window shows the context before the
-- failed one, with its namespaces and the error, while the sidecar was last told to serve the newer
-- one, and no call is under way any more. There was a context before, and no call under way.
pub rollback_overwrites :
    (b c msg n : String) (ns : List String) (s : Switcher)
    → s.inflight_switch_target ≡ none
    → present s.view.selected_context ≡ true
    → let y = perform (overtaken b c msg (n ∷ ns)) (under_way s []) in
      (y.runs ≡ [])
      × (y.switcher.view.selected_context ≡ s.view.selected_context)
      × (y.switcher.view.namespaces ≡ s.view.namespaces)
      × (y.switcher.view.error ≡ some (friendly b msg))
      × (last_switch y.switcher.calls ≡ some c)
unfolding perform step started continued replace resume resume_at after_rollback settled restored
    new_run select_new after_cancel listed last_switch
rollback_overwrites b c msg n ns s none_there p =
    let s1 = connected b s in
    let r1 = in_phase (rolling_back msg) (new_run b s) in
    let s2 = call (switches (name_of s.view.selected_context)) s1 in
    let s3 = connected c s2 in
    let r3 = new_run c s2 in
    let s4 = call (loads s3.view.section) (show (listed (n ∷ ns)) s3) in
    let listed_too = continues 1 (lists (n ∷ ns)) ∷ continues 1 fine ∷ continues 0 fine ∷ [] in
    let ends =
      ap (perform (drop 3 (overtaken b c msg (n ∷ ns)))) (connect_first b s (rw none_there refl))
      ∙ ap
          (λ o.
            perform (drop 4 (overtaken b c msg (n ∷ ns)))
              (continued 0 (in_phase listing (new_run b s) ∷ []) o))
          (after_list-failed msg (in_phase listing (new_run b s)) s1
            (newest_refl (suc s.context_switch_seq)) p)
      ∙ ap (perform listed_too) (connect_second c s2 refl r1)
      ∙ ap (λ o. perform (drop 1 listed_too) (continued 1 (r1 ∷ in_phase listing r3 ∷ []) o))
          (after_list-newest n ns (in_phase listing r3) s3 (newest_refl _))
      ∙ ap (λ o. perform (drop 2 listed_too) (continued 1 (r1 ∷ in_phase loading r3 ∷ []) o))
          (after_load-newest (in_phase loading r3) s4 (newest_refl _)) in
    rw ends (refl, present-some s.view.selected_context p, refl, refl, refl)
