-- ===== src/Store/Cluster/Probes/Newest.antt =====
-- Two probes of one cluster under way at the same time, and the hotbar.
use podscape.Common.{
  ℕ, suc, String, true, false, not, ◌&&◌, Option, none, some, List, [], ◌∷◌, ◌==◌, any-append,
  filter, eqb, same_option, if◌then◌else◌, ◌≡◌, refl, ◌∙◌, arith, eq_iff, eq_refl, Bool-cases, inl,
  inr,
}
use podscape.Store.Cluster.Probes.{
  Probes, Answer, is_current, begin_prometheus, Status, is_available, probe_error, end_prometheus,
  has, toggle_hotbar_context,
}

eqb_refl : (n : ℕ) → eqb n n ≡ true
eqb_refl n = ground arith

older : (n : ℕ) → eqb (suc n) (suc (suc n)) ≡ false
older n = ground arith

same_option_refl : (o : Option String) → same_option o o ≡ true
same_option_refl none = refl
same_option_refl (some c) = eq_refl c

-- Of two probes for Prometheus under way in the same context the later call decides what is shown, in
-- whichever order they end.
last_prometheus_wins :
    (a b : Answer Status) (s : Probes)
    → let (s1, p1) = begin_prometheus s in
      let (s2, p2) = begin_prometheus s1 in
      (end_prometheus b p2 (end_prometheus a p1 s2) ≡ end_prometheus b p2 s2)
      × (end_prometheus a p1 (end_prometheus b p2 s2) ≡ end_prometheus b p2 s2)
      × ((end_prometheus b p2 s2).prometheus_available ≡ some (is_available b))
      × ((end_prometheus b p2 s2).prometheus_probe_error ≡ probe_error b)
unfolding begin_prometheus end_prometheus is_current
last_prometheus_wins a b s = rw (older s.prometheus_probe_seq) (
    rw (eqb_refl (suc (suc s.prometheus_probe_seq))) (
      rw (same_option_refl s.selected_context)
        (refl, rw (older s.prometheus_probe_seq) refl, refl, refl)))

has-without :
    (c name : String) (cs : List String)
    → has c (filter (λ x. not (x == name)) cs) ≡ (has c cs && not (name == c))
has-without c name [] = refl
has-without c name (x ∷ xs) =
    ground (arith, has-without c name xs, eq_iff x name, eq_iff name c, eq_iff x c)

-- Toggling a context in the hotbar changes whether it is there, and nothing else.
has-toggle_hotbar_context :
    (c name : String) (contexts : List String)
    → has c (toggle_hotbar_context name contexts)
      ≡ (if name == c then not (has c contexts) else has c contexts)
unfolding toggle_hotbar_context
has-toggle_hotbar_context c name contexts = elim (Bool-cases (has name contexts)) [
  | inl e ↦ rw e (ground (arith, has-without c name contexts, eq_iff name c, e))
  | inr e ↦ rw e (any-append (λ x. x == c) contexts (name ∷ []) ∙ ground (arith, eq_iff name c, e))
]
