-- ===== src/Store/Resources/Sections/Guard.antt =====
-- The guard of `loadSection` against parallel fetches.
use podscape.Common.{
  if_rule, ltb, ◌-◌, ℕ, zero, suc, String, Bool, true, false, not, ◌&&◌, Option, none, some, List,
  [], ◌∷◌, ◌++◌, ◌==◌, any, any-append, get_elem?, is_some, truthy, starts_with, codes, same_option,
  ◌≡◌, refl, sym, ◌∙◌, ap, arith, eq_iff, Bool-cases, Option-cases, inl, inr,
}
use podscape.Common.Maps.{at_key}
use podscape.Store.Resources.Sections.{
  SectionConfig, Loader, Fetch, Result, has, delete, cache_key_of, is_cached, show_start, request,
  begin_in, begin_load, refresh, settle, end_load, is_empty, fetched, failed,
}

pub record System : Type 0 where
  pub loader : Loader
  pub fetches : List Fetch

pub data Action : Type 0 where
  loads refreshes : (now : ℕ) (section : String) → Action
  ends : ℕ → (now : ℕ) → Result → Action

unfoldable pub remove : ℕ → List Fetch → List Fetch
remove i [] = []
remove zero (f ∷ fs) = fs
remove (suc i) (f ∷ fs) = f ∷ remove i fs

unfoldable pub begun : List Fetch → Loader × Option Fetch → System
begun fs (s, none) = record { loader = s; fetches = fs }
begun fs (s, some f) = record { loader = s; fetches = f ∷ fs }

module _ (config : String → Option SectionConfig) where
  unfoldable pub step : Action → System → System
  step (loads now section) y = begun y.fetches (begin_load config now section y.loader)
  step (refreshes now section) y = begun y.fetches (refresh config now section y.loader)
  step (ends i now r) y = elim (get_elem? y.fetches i) [
    | none ↦ y
    | some f ↦ record { loader = end_load now f r y.loader; fetches = remove i y.fetches }
  ]

abbrev pub is_for : String → Fetch → Bool
is_for k f = f.cache_key == k

-- A refresh that comes while a fetch is under way; it empties the set of the sections in flight.
abbrev pub is_careless : Action → System → Bool
is_careless (loads now section) y = false
is_careless (refreshes now section) y = elim y.fetches [
  | [] ↦ false
  | (f ∷ fs) ↦ not (ltb (now - y.loader.last_refreshed_at) 2000)
]
is_careless (ends i now r) y = false

abbrev pub IsDistinct : List Fetch → Type 0
IsDistinct [] = Unit
IsDistinct (f ∷ fs) = (any (is_for f.cache_key) fs ≡ false) × IsDistinct fs

-- No two fetches for one key are under way, and the keys in flight are those of the fetches.
pub record IsGuarded (y : System) : Type 0 where
  pub distinct : IsDistinct y.fetches
  pub listed : (k : String) → has k y.loader.in_flight_sections ≡ any (is_for k) y.fetches

any_at :
    (p : Fetch → Bool) (i : ℕ) (f : Fetch) (fs : List Fetch)
    → get_elem? fs i ≡ some f
    → p f ≡ true
    → any p fs ≡ true
any_at p i f [] at h = absurd (ground arith)
any_at p zero f (x ∷ xs) at h = ground arith
any_at p (suc i) f (x ∷ xs) at h = ground (arith, any_at p i f xs at h)

any-remove :
    (k : String) (i : ℕ) (f : Fetch) (fs : List Fetch)
    → get_elem? fs i ≡ some f
    → IsDistinct fs
    → any (is_for k) (remove i fs) ≡ (any (is_for k) fs && not (is_for k f))
unfolding remove
any-remove k i f [] at d = absurd (ground arith)
any-remove k zero f (x ∷ xs) at d = ground (arith, eq_iff x.cache_key k, d.0)
any-remove k (suc i) f (x ∷ xs) at d = ground (
  arith,
  any-remove k i f xs at d.1,
  any_at (is_for x.cache_key) i f xs at,
  d.0,
  eq_iff x.cache_key k,
  eq_iff f.cache_key k,
  eq_iff f.cache_key x.cache_key,
)

any-remove-false :
    (p : Fetch → Bool) (i : ℕ) (fs : List Fetch) → any p fs ≡ false → any p (remove i fs) ≡ false
unfolding remove
any-remove-false p i [] h = refl
any-remove-false p zero (x ∷ xs) h = ground arith
any-remove-false p (suc i) (x ∷ xs) h = ground (arith, any-remove-false p i xs)

remove-IsDistinct : (i : ℕ) (fs : List Fetch) → IsDistinct fs → IsDistinct (remove i fs)
unfolding remove
remove-IsDistinct i [] d = tt
remove-IsDistinct zero (f ∷ fs) d = d.1
remove-IsDistinct (suc i) (f ∷ fs) d =
    (any-remove-false (is_for f.cache_key) i fs d.0, remove-IsDistinct i fs d.1)

has-delete :
    (k key : String) (ks : List String) → has k (delete key ks) ≡ (has k ks && not (key == k))
unfolding delete
has-delete k key [] = refl
has-delete k key (x ∷ xs) =
    ground (arith, has-delete k key xs, eq_iff x key, eq_iff key k, eq_iff x k)

in_flight-settle :
    (now : ℕ) (f : Fetch) (r : Result) (s : Loader)
    → (settle now f r s).in_flight_sections ≡ s.in_flight_sections
unfolding settle
in_flight-settle now f (fetched fresh) s = refl
in_flight-settle now f (failed msg) s =
    elim (Bool-cases (starts_with (codes msg) (codes "RBAC_DENIED:"))) [
      | inl e ↦ rw e refl
      | inr e ↦ rw e refl
    ]

in_flight-end_load :
    (now : ℕ) (f : Fetch) (r : Result) (s : Loader)
    → (end_load now f r s).in_flight_sections ≡ delete f.cache_key s.in_flight_sections
unfolding end_load
in_flight-end_load now f r s =
    elim (Bool-cases (same_option s.selected_context (some f.snapshot_ctx))) [
      | inl e ↦ rw e (ap (delete f.cache_key) (in_flight-settle now f r s))
      | inr e ↦ rw e refl
    ]

-- A load either leaves the keys in flight as they are, or takes a new one with its fetch.
record Begins (s : Loader) (out : Loader × Option Fetch) : Type 0 where
  nothing : out.1 ≡ none → out.0.in_flight_sections ≡ s.in_flight_sections
  fetching :
      (f : Fetch)
      → out.1 ≡ some f
      → (has f.cache_key s.in_flight_sections ≡ false)
        × (out.0.in_flight_sections ≡ s.in_flight_sections ++ f.cache_key ∷ [])

idle-Begins : (s : Loader) → Begins s (s, none)
idle-Begins s = record { nothing = λ h. refl; fetching = λ f h. absurd (ground arith) }

in_flight-show_start :
    (k : String) (s : Loader) → (show_start k s).in_flight_sections ≡ s.in_flight_sections
unfolding show_start
in_flight-show_start k s = elim (Bool-cases (is_empty (at_key k s.lists))) [
  | inl e ↦ rw e refl
  | inr e ↦ rw e refl
]

abbrev key_of_fetch : Option Fetch → String
key_of_fetch none = ""
key_of_fetch (some f) = f.cache_key

request-Begins :
    (section key ctx : String) (config : SectionConfig) (s : Loader)
    → has key s.in_flight_sections ≡ false
    → Begins s (request section key ctx config s)
unfolding request
request-Begins section key ctx config s free =
    elim (Bool-cases (config.namespaced && not (is_some (truthy s.selected_namespace)))) [
      | inl e ↦ rw e (record { nothing = λ h. refl; fetching = λ f h. absurd (ground arith) })
      | inr e ↦ rw e (record {
        nothing = λ h. absurd (ground arith);
        fetching = λ f h.
            let same : key ≡ f.cache_key = ap key_of_fetch h in
            rw (← same) (free, in_flight-show_start config.state_key _);
      })
    ]

begin_in-Begins :
    (ctx : String) (config : Option SectionConfig) (now : ℕ) (section : String) (s : Loader)
    → Begins s (begin_in ctx config now section s)
unfolding begin_in
begin_in-Begins ctx none now section s = idle-Begins s
begin_in-Begins ctx (some config) now section s =
    let key = cache_key_of section s.selected_namespace in
    elim (Bool-cases (is_cached now key s)) [
      | inl cached ↦ rw cached (idle-Begins s)
      | inr old ↦ elim (Bool-cases (has key s.in_flight_sections)) [
        | inl taken ↦ rw old (rw taken (idle-Begins s))
        | inr free ↦ rw old (rw free (request-Begins section key ctx config s free))
      ]
    ]

module _ (config : String → Option SectionConfig) where
  begin_load-Begins :
      (now : ℕ) (section : String) (s : Loader) → Begins s (begin_load config now section s)
  unfolding begin_load
  begin_load-Begins now section s = elim (Option-cases (truthy s.selected_context)) [
    | inl nobody ↦ rw (nobody, begin_load) (idle-Begins s)
    | inr (ctx, e) ↦ rw (e, begin_load) (begin_in-Begins ctx (config section) now section s)
  ]

  begun-IsGuarded :
      (y : System) (out : Loader × Option Fetch)
      → IsGuarded y
      → Begins y.loader out
      → IsGuarded (begun y.fetches out)
  unfolding begun
  begun-IsGuarded y (s, none) v b = record {
    distinct = v.distinct;
    listed = λ k. ap (has k) (b.nothing refl) ∙ v.listed k;
  }
  begun-IsGuarded y (s, some f) v b =
      let (free, taken) = b.fetching f refl in
      record {
        distinct = (sym (v.listed f.cache_key) ∙ free, v.distinct);
        listed = λ k.
            ap (has k) taken
            ∙ any-append (λ x. x == k) y.loader.in_flight_sections (f.cache_key ∷ [])
            ∙ ground (arith, v.listed k);
      }

  end-IsGuarded :
      (i now : ℕ) (r : Result) (f : Fetch) (y : System)
      → get_elem? y.fetches i ≡ some f
      → IsGuarded y
      → IsGuarded (record { loader = end_load now f r y.loader; fetches = remove i y.fetches })
  end-IsGuarded i now r f y at v = record {
    distinct = remove-IsDistinct i y.fetches v.distinct;
    listed = λ k.
        ap (has k) (in_flight-end_load now f r y.loader)
        ∙ has-delete k f.cache_key y.loader.in_flight_sections
        ∙ ap (λ b. b && not (is_for k f)) (v.listed k)
        ∙ sym (any-remove k i f y.fetches at v.distinct);
  }

  refreshed-IsGuarded :
      (now : ℕ) (section : String) (s : Loader) (fs : List Fetch)
      → is_careless (refreshes now section) (record { loader = s; fetches = fs }) ≡ false
      → IsGuarded (record { loader = s; fetches = fs })
      → IsGuarded (begun fs (refresh config now section s))
  unfolding refresh begun
  refreshed-IsGuarded now section s [] safe v =
      let idle : System = record {
        loader = record s {
          in_flight_sections = [];
          section_loaded_at = [];
          last_refreshed_at = now;
        };
        fetches = [];
      } in
      if_rule (λ out. IsGuarded (begun [] out)) (ltb (now - s.last_refreshed_at) 2000) (λ _. v)
        (λ _.
          begun-IsGuarded idle _ (record { distinct = tt; listed = λ k. refl })
            (begin_load-Begins now section idle.loader))
  refreshed-IsGuarded now section s (f ∷ fs) safe v =
      let soon : ltb (now - s.last_refreshed_at) 2000 ≡ true = ground arith in rw soon v

  -- At most one fetch is under way for a section and a namespace, whenever loads are asked for and in
  -- whatever order and way the fetches end, as long as nothing empties the set of the sections in
  -- flight meanwhile: no switch of the context comes, and no refresh that is 2 s or more after the
  -- last one while a fetch is under way.
  pub load-IsGuarded :
      (a : Action) (y : System)
      → is_careless a y ≡ false
      → IsGuarded y
      → IsGuarded (step config a y)
  unfolding step
  load-IsGuarded (loads now section) y safe v =
      begun-IsGuarded y _ v (begin_load-Begins now section y.loader)
  load-IsGuarded (refreshes now section) y safe v =
      refreshed-IsGuarded now section y.loader y.fetches safe v
  load-IsGuarded (ends i now r) y safe v = elim (Option-cases (get_elem? y.fetches i)) [
    | inl nobody ↦ rw (nobody, step) v
    | inr (f, at) ↦ rw (at, step) (end-IsGuarded i now r f y at v)
  ]
