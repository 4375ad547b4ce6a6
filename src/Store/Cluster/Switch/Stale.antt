-- ===== src/Store/Cluster/Switch/Stale.antt =====
-- Calls of `selectContext` that are no longer the newest.
use podscape.Common.{String, Bool, true, false, List, Option, none, if_rule, ◌≡◌, refl, arith}
use podscape.Store.Cluster.{
  Switcher, Phase, Run, cancelling, switching, listing, loading, rolling_back,
}
use podscape.Store.Cluster.Switch.{
  is_newest, is_target, release, Outcome, resolves, rejects, catch_error, after_switch, after_list,
  after_load, Answer, resume_at, resume,
}
use podscape.Store.Cluster.Switch.Segments.{release-rest}

-- The segments that look whether their call is still the newest one.
abbrev pub is_checked : Phase → Bool
is_checked switching = true
is_checked listing = true
is_checked loading = true
is_checked _ = false

-- Nothing that the window or the main process sees has changed, and the call is over.
IsSilent : Switcher → Switcher × Option Run → Type 0
IsSilent s out =
    (out.0.view ≡ s.view)
    × (out.0.forwards ≡ s.forwards)
    × (out.0.exec ≡ s.exec)
    × (out.0.calls ≡ s.calls)
    × (out.1 ≡ none)

catch_error-old :
    (msg : String) (r : Run) (s : Switcher)
    → is_newest r s ≡ false
    → IsSilent s (catch_error r msg s)
unfolding catch_error IsSilent
catch_error-old msg r s old = rw old (refl, refl, refl, refl, refl)

released-old : (r : Run) (s : Switcher) → IsSilent s (release r s, none)
unfolding release IsSilent
released-old r s =
    if_rule (λ t. IsSilent s (t, none)) (is_target s.inflight_switch_target r.name)
      (λ _. (refl, refl, refl, refl, refl)) (λ _. (refl, refl, refl, refl, refl))

after_switch-old :
    (a : Outcome {0} Unit) (r : Run) (s : Switcher)
    → is_newest r s ≡ false
    → IsSilent s (after_switch a r s)
unfolding after_switch catch_error release
after_switch-old (rejects msg) r s old =
    let (view_kept, seq_kept) = release-rest r s in rw seq_kept (rw old (released-old r s))
after_switch-old (resolves tt) r s old =
    let (view_kept, seq_kept) = release-rest r s in rw seq_kept (rw old (released-old r s))

after_list-old :
    (a : Outcome (List String)) (r : Run) (s : Switcher)
    → is_newest r s ≡ false
    → IsSilent s (after_list a r s)
unfolding after_list IsSilent
after_list-old (rejects msg) r s old = rw old (refl, refl, refl, refl, refl)
after_list-old (resolves ns) r s old = rw old (refl, refl, refl, refl, refl)

after_load-old :
    (a : Outcome {0} Unit) (r : Run) (s : Switcher)
    → is_newest r s ≡ false
    → IsSilent s (after_load a r s)
unfolding after_load IsSilent
after_load-old (rejects msg) r s old = catch_error-old msg r s old
after_load-old (resolves tt) r s old = rw old (refl, refl, refl, refl, refl)

resume_at-old :
    (p : Phase) (a : Answer) (r : Run) (s : Switcher)
    → is_newest r s ≡ false
    → is_checked p ≡ true
    → IsSilent s (resume_at p a r s)
unfolding resume_at
resume_at-old cancelling a r s old p = absurd (ground arith)
resume_at-old switching a r s old p = after_switch-old a.done r s old
resume_at-old listing a r s old p = after_list-old a.namespaces r s old
resume_at-old (rolling_back msg) a r s old p = absurd (ground arith)
resume_at-old loading a r s old p = after_load-old a.done r s old

-- A call of selectContext that is no longer the newest, and that awaits the sidecar's switch, the
-- list of the namespaces or the load of the section, ends with whatever its promise gives, and
-- changes nothing: the view, the port forwards and the terminals are as they were, and nothing is
-- called.
pub old_switch_is_silent :
    (a : Answer) (r : Run) (s : Switcher)
    → is_newest r s ≡ false
    → is_checked r.phase ≡ true
    → let out = resume a r s in
      (out.0.view ≡ s.view)
      × (out.0.forwards ≡ s.forwards)
      × (out.0.exec ≡ s.exec)
      × (out.0.calls ≡ s.calls)
      × (out.1 ≡ none)
unfolding resume IsSilent
old_switch_is_silent a r s old p = resume_at-old r.phase a r s old p
