-- ===== src/Store/Cluster/Switch/Segments.antt =====
-- What each segment of a call of `selectContext` does to the newest call and to the target that
-- further calls wait for: renderer/store/slices/clusterSlice.ts.
use podscape.Common.{
  ℕ, String, Bool, true, false, ◌&&◌, Option, none, some, List, [], ◌∷◌, ◌==◌, eqb, ◌≡◌, refl, sym,
  ◌∙◌, ◌⊎◌, inl, inr, arith, eq_comm, Bool-cases,
}
use podscape.Store.Cluster.{
  Switcher, Phase, Run, cancelling, switching, listing, loading, rolling_back,
}
use podscape.Store.Cluster.Switch.{
  is_target, is_newest, present, settled, after_cancel, release, Outcome, resolves, rejects,
  catch_error, after_switch, restored, fail_list, listed, succeed_list, after_list, after_rollback,
  after_load, Answer, resume_at,
}

abbrev pub holds : (Run → Bool) → Option Run → Bool
holds p none = false
holds p (some r) = p r

abbrev pub is_seq : ℕ → Run → Bool
is_seq n r = eqb r.my_seq n

-- The runs that have not yet heard from the sidecar's switch.
abbrev pub is_early : Phase → Bool
is_early cancelling = true
is_early switching = true
is_early _ = false

abbrev pub is_early_for : String → Run → Bool
is_early_for n r = r.name == n && is_early r.phase

-- What one segment of a run has to do for that.
pub record Continues (r : Run) (s : Switcher) (out : Switcher × Option Run) : Type 0 where
  pub seq_kept : out.0.context_switch_seq ≡ s.context_switch_seq
  pub spins :
      out.0.view.loading_namespaces ≡ true
      → (s.view.loading_namespaces ≡ true)
        × ((is_seq s.context_switch_seq r ≡ false)
            ⊎ (holds (is_seq s.context_switch_seq) out.1 ≡ true))
  pub waits :
      (n : String)
      → out.0.inflight_switch_target ≡ some n
      → (s.inflight_switch_target ≡ some n)
        × ((is_early_for n r ≡ false) ⊎ (holds (is_early_for n) out.1 ≡ true))

either : (b : Bool) → (b ≡ false) ⊎ (b ≡ true)
either true = inr refl
either false = inl refl

after_cancel-Continues :
    (r : Run) (s : Switcher) → r.phase ≡ cancelling → Continues r s (after_cancel r s)
unfolding after_cancel
after_cancel-Continues r s p = record {
  seq_kept = refl;
  spins = λ h. (h, either (is_seq s.context_switch_seq r));
  waits = λ n h. (h, rw p (either (r.name == n && true)));
}

release-waits :
    (r : Run) (s : Switcher) (n : String)
    → (release r s).inflight_switch_target ≡ some n
    → (s.inflight_switch_target ≡ some n) × (is_early_for n r ≡ false)
unfolding release
release-waits r s n h = elim (Bool-cases (is_target s.inflight_switch_target r.name)) [
  | inl mine ↦ let none_left : none ≡ some n = rw mine at h in ground arith
  | inr other ↦
      let kept : s.inflight_switch_target ≡ some n = rw other at h in
      (kept, ground (arith, eq_comm n r.name))
]

pub release-rest :
    (r : Run) (s : Switcher)
    → ((release r s).view ≡ s.view) × ((release r s).context_switch_seq ≡ s.context_switch_seq)
unfolding release
release-rest r s = elim (Bool-cases (is_target s.inflight_switch_target r.name)) [
  | inl e ↦ rw e (refl, refl)
  | inr e ↦ rw e (refl, refl)
]

late_waits : (n : String) (r : Run) → is_early r.phase ≡ false → is_early_for n r ≡ false
late_waits n r late = ground arith

-- A segment that leaves the target as it is.
late-Continues :
    (r : Run) (s : Switcher) (out : Switcher × Option Run)
    → is_early r.phase ≡ false
    → out.0.context_switch_seq ≡ s.context_switch_seq
    → out.0.inflight_switch_target ≡ s.inflight_switch_target
    → (out.0.view.loading_namespaces ≡ true
        → (s.view.loading_namespaces ≡ true)
          × ((is_seq s.context_switch_seq r ≡ false)
              ⊎ (holds (is_seq s.context_switch_seq) out.1 ≡ true)))
    → Continues r s out
late-Continues r s out late seq target spin = record {
  seq_kept = seq;
  spins = spin;
  waits = λ n h. (sym target ∙ h, inl (late_waits n r late));
}

-- A segment that releases the target first.
released-Continues :
    (r : Run) (s : Switcher) (out : Switcher × Option Run)
    → out.0.context_switch_seq ≡ s.context_switch_seq
    → out.0.inflight_switch_target ≡ (release r s).inflight_switch_target
    → (out.0.view.loading_namespaces ≡ true
        → (s.view.loading_namespaces ≡ true)
          × ((is_seq s.context_switch_seq r ≡ false)
              ⊎ (holds (is_seq s.context_switch_seq) out.1 ≡ true)))
    → Continues r s out
released-Continues r s out seq target spin = record {
  seq_kept = seq;
  spins = spin;
  waits = λ n h. let w = release-waits r s n (sym target ∙ h) in (w.0, inl w.1);
}

-- What the outer `catch` does.
catch_error-eq :
    (msg : String) (r : Run) (s : Switcher)
    → let out = catch_error r msg s in
      (out.0.context_switch_seq ≡ s.context_switch_seq)
      × (out.0.inflight_switch_target ≡ s.inflight_switch_target)
      × (out.0.view.loading_namespaces ≡ true
          → (s.view.loading_namespaces ≡ true) × (is_seq s.context_switch_seq r ≡ false))
unfolding catch_error settled
catch_error-eq msg r s = elim (Bool-cases (is_newest r s)) [
  | inl newest ↦ rw newest (refl, refl, λ h. absurd (ground arith))
  | inr older ↦ rw older (refl, refl, λ h. (h, refl))
]

after_switch-Continues :
    (a : Outcome {0} Unit) (r : Run) (s : Switcher) → Continues r s (after_switch a r s)
unfolding after_switch
after_switch-Continues (rejects msg) r s =
    let (seq, target, spin) = catch_error-eq msg r (release r s) in
    let (view_kept, seq_kept) = release-rest r s in
    released-Continues r s _ (seq ∙ seq_kept) target
      (λ h. let w = spin h in (rw view_kept at w.0, inl (rw seq_kept at w.1)))
after_switch-Continues (resolves tt) r s =
    let (view_kept, seq_kept) = release-rest r s in
    elim (Bool-cases (is_newest r (release r s))) [
      | inl newest ↦ rw newest (
          released-Continues r s _ seq_kept refl
            (λ h. (rw view_kept at h, inr (rw seq_kept at newest))))
      | inr older ↦ rw older (
          released-Continues r s _ seq_kept refl
            (λ h. (rw view_kept at h, inl (rw seq_kept at older))))
    ]

fail_list-Continues :
    (msg : String) (r : Run) (s : Switcher)
    → is_early r.phase ≡ false
    → is_newest r s ≡ true
    → Continues r s (fail_list r msg s)
unfolding fail_list settled
fail_list-Continues msg r s late newest = elim (Bool-cases (present r.previous_context)) [
  | inl e ↦ rw e (late-Continues r s _ late refl refl (λ h. (h, inr newest)))
  | inr e ↦ rw e (late-Continues r s _ late refl refl (λ h. absurd (ground arith)))
]

after_list-Continues :
    (a : Outcome (List String)) (r : Run) (s : Switcher)
    → is_early r.phase ≡ false
    → Continues r s (after_list a r s)
unfolding after_list succeed_list settled listed
after_list-Continues (rejects msg) r s late = elim (Bool-cases (is_newest r s)) [
  | inl newest ↦ rw newest (fail_list-Continues msg r s late newest)
  | inr older ↦ rw older (late-Continues r s _ late refl refl (λ h. (h, inl older)))
]
after_list-Continues (resolves []) r s late = elim (Bool-cases (is_newest r s)) [
  | inl newest ↦ rw newest (late-Continues r s _ late refl refl (λ h. absurd (ground arith)))
  | inr older ↦ rw older (late-Continues r s _ late refl refl (λ h. (h, inl older)))
]
after_list-Continues (resolves (n ∷ ns)) r s late = elim (Bool-cases (is_newest r s)) [
  | inl newest ↦ rw newest (late-Continues r s _ late refl refl (λ h. (h, inr newest)))
  | inr older ↦ rw older (late-Continues r s _ late refl refl (λ h. (h, inl older)))
]

after_rollback-Continues :
    (msg : String) (r : Run) (s : Switcher)
    → is_early r.phase ≡ false
    → Continues r s (after_rollback msg r s)
unfolding after_rollback settled restored
after_rollback-Continues msg r s late =
    late-Continues r s _ late refl refl (λ h. absurd (ground arith))

after_load-Continues :
    (a : Outcome {0} Unit) (r : Run) (s : Switcher)
    → is_early r.phase ≡ false
    → Continues r s (after_load a r s)
unfolding after_load settled
after_load-Continues (rejects msg) r s late =
    let (seq, target, spin) = catch_error-eq msg r s in
    late-Continues r s _ late seq target (λ h. let w = spin h in (w.0, inl w.1))
after_load-Continues (resolves tt) r s late = elim (Bool-cases (is_newest r s)) [
  | inl newest ↦ rw newest (late-Continues r s _ late refl refl (λ h. absurd (ground arith)))
  | inr older ↦ rw older (late-Continues r s _ late refl refl (λ h. (h, inl older)))
]

pub resume_at-Continues :
    (p : Phase) (a : Answer) (r : Run) (s : Switcher)
    → r.phase ≡ p
    → Continues r s (resume_at p a r s)
unfolding resume_at
resume_at-Continues cancelling a r s e = after_cancel-Continues r s e
resume_at-Continues switching a r s e = after_switch-Continues a.done r s
resume_at-Continues listing a r s e = after_list-Continues a.namespaces r s (rw e refl)
resume_at-Continues (rolling_back msg) a r s e = after_rollback-Continues msg r s (rw e refl)
resume_at-Continues loading a r s e = after_load-Continues a.done r s (rw e refl)
