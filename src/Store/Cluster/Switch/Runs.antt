-- ===== src/Store/Cluster/Switch/Runs.antt =====
-- What holds of the calls of `selectContext` that are under way at the same time.
use mathlib.Core.List.{append-nil}
use podscape.Common.{
  ℕ, zero, suc, String, Bool, true, false, Option, none, some, List, [], ◌∷◌, ◌++◌, any, any-append,
  get_elem?, ◌≡◌, refl, ◌⊎◌, inl, inr, arith, eq_refl, Bool-cases, Option-cases,
}
use podscape.Store.Cluster.{Run}
use podscape.Store.Cluster.Switch.{
  is_target, select_new, new_run, select, Answer, resume, System, Action, selects, continues,
  replace, started, continued, step, reset,
}
use podscape.Store.Cluster.Switch.Segments.{holds, is_seq, is_early_for, resume_at-Continues}

-- Another run is the one that is looked for, or this one still is.
any-replace :
    (p : Run → Bool) (i : ℕ) (r : Run) (o : Option Run) (rs : List Run)
    → get_elem? rs i ≡ some r
    → (p r ≡ false) ⊎ (holds p o ≡ true)
    → any p rs ≡ true
    → any p (replace i o rs) ≡ true
unfolding replace
any-replace p i r o [] at h found = absurd (ground arith)
any-replace p zero r none (x ∷ rs) at h found = ground arith
any-replace p zero r (some r') (x ∷ rs) at h found = ground arith
any-replace p (suc i) r o (x ∷ rs) at h found = elim (Bool-cases (p x)) [
  | inl here ↦ ground arith
  | inr other ↦ rw other (any-replace p i r o rs at h (ground arith))
]

any-last : (p : Run → Bool) (rs : List Run) (r : Run) → p r ≡ true → any p (rs ++ r ∷ []) ≡ true
any-last p rs r h = ground (arith, any-append p rs (r ∷ []))

-- The spinner turns only while the newest call is under way, and a target that makes further calls
-- wait is that of a call that is still in front of the sidecar's answer.
pub record IsLive (y : System) : Type 0 where
  pub spins :
      y.switcher.view.loading_namespaces ≡ true
      → any (is_seq y.switcher.context_switch_seq) y.runs ≡ true
  pub waits :
      (n : String) → y.switcher.inflight_switch_target ≡ some n → any (is_early_for n) y.runs ≡ true

select-IsLive : (name : String) (y : System) → IsLive y → IsLive (step (selects name) y)
unfolding step started select select_new new_run reset
select-IsLive name y v = elim (Bool-cases (is_target y.switcher.inflight_switch_target name)) [
  | inl waits ↦ rw (waits, append-nil y.runs) v
  | inr fresh ↦ rw fresh (record {
    spins = λ h. any-last (is_seq (suc y.switcher.context_switch_seq)) y.runs _ (ground arith);
    waits = λ n h. any-last (is_early_for n) y.runs _ (ground (arith, eq_refl n));
  })
]

continue-IsLive : (i : ℕ) (a : Answer) (y : System) → IsLive y → IsLive (step (continues i a) y)
unfolding step continued resume
continue-IsLive i a y v = elim (Option-cases (get_elem? y.runs i)) [
  | inl nothing ↦ rw (nothing, step) v
  | inr (r, at) ↦
      let c = resume_at-Continues r.phase a r y.switcher refl in
      rw (at, step)
        (record {
          spins = λ h.
              let (before, found) = c.spins h in
              rw c.seq_kept (any-replace _ i r _ y.runs at found (v.spins before));
          waits = λ n h.
              let (before, found) = c.waits n h in
              any-replace _ i r _ y.runs at found (v.waits n before);
        })
]

-- With any number of calls of selectContext under way, whose promises end in any order and with any
-- result: after each step the namespace spinner turns only if the newest call is still under way,
-- and a context whose further calls are ignored is one that a call under way is switching to.
pub switch-IsLive : (a : Action) (y : System) → IsLive y → IsLive (step a y)
switch-IsLive (selects name) y v = select-IsLive name y v
switch-IsLive (continues i a) y v = continue-IsLive i a y v
