-- ===== src/Store/Cluster/Probes.antt =====
-- What the renderer asks of a cluster in the background: `probePrometheus` and `fetchAllowedVerbs` of
-- renderer/store/slices/clusterSlice.ts, `fetchProviders` of providersSlice.ts, with `canVerb` and
-- `toggleHotbarContext`. Each is cut at its `await`; the reading of the Prometheus URL from the
-- settings is left out, since its failure is ignored.
pub mod Newest
mod Tests
use podscape.Common.{
  ℕ, suc, String, Bool, true, false, not, ◌&&◌, Option, none, some, List, [], ◌∷◌, ◌++◌, ◌==◌, any,
  filter, eqb, or_else, truthy, same_option, if◌then◌else◌,
}
use podscape.Common.Maps.{at_key}
use podscape.Store.Cluster.{ProviderSet, default_providers}

abbrev pub Verbs : Type 0
Verbs = List (String × List (String × Bool))

pub record Probes : Type 0 where
  pub selected_context : Option String
  pub providers : ProviderSet
  pub providers_loading : Bool
  pub fetch_seq : ℕ
  pub allowed_verbs : Verbs
  pub allowed_verbs_seq : ℕ
  pub prometheus_available : Option Bool
  pub prometheus_probe_error : Option String
  pub prometheus_probe_seq : ℕ

-- A call that is under way: its number and the context at its start.
pub record Probe : Type 0 where
  pub my_seq : ℕ
  pub ctx : Option String

pub data Answer {ℓ} (A : Type ℓ) : Type ℓ where
  answers : A → Answer A
  fails : Answer A

-- Neither a newer call nor another context.
pub is_current : ℕ → Probe → Probes → Bool
is_current seq p s = eqb p.my_seq seq && same_option s.selected_context p.ctx

pub begin_providers : Probes → Probes × Option Probe
begin_providers s = elim (truthy s.selected_context) [
  | none ↦ (s, none)
  | some ctx ↦ (
    record s { fetch_seq = suc s.fetch_seq; providers_loading = true },
    some (record { my_seq = suc s.fetch_seq; ctx = some ctx }),
  )
]

abbrev pub detected : Answer ProviderSet → ProviderSet
detected (answers ps) = ps
detected fails = default_providers

pub end_providers : Answer ProviderSet → Probe → Probes → Probes
end_providers a p s =
    if is_current s.fetch_seq p s
    then record s { providers = detected a; providers_loading = false }
    else record s { providers_loading = false }

pub begin_verbs : Probes → Probes × Option Probe
begin_verbs s = elim (truthy s.selected_context) [
  | none ↦ (s, none)
  | some ctx ↦ (
    record s { allowed_verbs_seq = suc s.allowed_verbs_seq },
    some (record { my_seq = suc s.allowed_verbs_seq; ctx = some ctx }),
  )
]

-- `verbs ?? {}`; after a failure the map stays.
pub end_verbs : Answer (Option Verbs) → Probe → Probes → Probes
end_verbs fails p s = s
end_verbs (answers verbs) p s =
    if is_current s.allowed_verbs_seq p s then record s { allowed_verbs = or_else verbs [] } else s

-- A probe starts without a context, too.
pub begin_prometheus : Probes → Probes × Probe
begin_prometheus s = (
  record s { prometheus_probe_seq = suc s.prometheus_probe_seq },
  record { my_seq = suc s.prometheus_probe_seq; ctx = s.selected_context },
)

pub record Status : Type 0 where
  pub available : Option Bool
  pub error : Option String

abbrev pub is_available : Answer Status → Bool
is_available (answers d) = or_else d.available false
is_available fails = false

abbrev pub probe_error : Answer Status → Option String
probe_error (answers d) = truthy d.error
probe_error fails = none

pub end_prometheus : Answer Status → Probe → Probes → Probes
end_prometheus a p s =
    if is_current s.prometheus_probe_seq p s
    then record s {
      prometheus_available = some (is_available a);
      prometheus_probe_error = probe_error a;
    }
    else s

-- `resourceVerbs[verb] === true`; everything is allowed where nothing is known.
pub can_verb : Verbs → String → String → Bool
can_verb [] resource verb = true
can_verb (v ∷ verbs) resource verb = elim (at_key resource (v ∷ verbs)) [
  | none ↦ true
  | some allowed ↦ or_else (at_key verb allowed) false
]

abbrev pub has : String → List String → Bool
has c = any (λ x. x == c)

pub toggle_hotbar_context : String → List String → List String
toggle_hotbar_context name contexts =
    if has name contexts then filter (λ c. not (c == name)) contexts else contexts ++ name ∷ []
