-- ===== src/Store/Cluster/Probes/Tests.antt =====
-- Probes at concrete inputs.
use podscape.Common.{true, false, none, some, [], ◌∷◌, ◌≡◌, refl}
use podscape.Common.Maps.{at_key}
use podscape.Store.Cluster.{default_providers}
use podscape.Store.Cluster.Probes.{Probes, Answer, answers, Status, begin_providers, can_verb}

abbrev fresh : Probes
fresh = record {
  selected_context = some "dev";
  providers = default_providers;
  providers_loading = false;
  fetch_seq = 0;
  allowed_verbs = [];
  allowed_verbs_seq = 0;
  prometheus_available = none;
  prometheus_probe_error = none;
  prometheus_probe_seq = 0;
}

abbrev up : Answer Status
up = answers (record { available = some true; error = none })

loading_providers : (begin_providers fresh).0.providers_loading ≡ true
unfolding begin_providers
loading_providers = refl

denied_verb :
    can_verb (("pods", ("list", true) ∷ ("delete", false) ∷ []) ∷ []) "pods" "delete" ≡ false
unfolding can_verb at_key
denied_verb = refl
