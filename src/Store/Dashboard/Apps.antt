-- ===== src/Store/Dashboard/Apps.antt =====
-- The grouping of the dashboard's resources into apps.
use mathlib.Core.List.{append_assoc, append-nil}
use podscape.Common.{
  ℕ, or_option, join_text, String, Bool, true, false, Option, none, some, List, [], ◌∷◌, ◌++◌, ◌==◌,
  or_else, is_some, truthy, ltb, eqb, ◌<◌, ◌-◌, length, length-append, sum_of, filter,
  if◌then◌else◌, ◌+◌, ◌≡◌, refl, sym, ◌∙◌, ap, arith, eq_iff, eq_refl, Bool-cases, Option-cases,
  inl, inr,
}
use podscape.Common.Maps.{put, at_key, at_key-put, at_key-put-other}
use podscape.Common.Sorting.{sum-sort_by}
use podscape.Store.Dashboard.{
  Labelled, AppGroup, app_name, first_label, key_of, namespace_of, joined, add_to, group_apps,
  groups_of, apps_of, Dashboard, Load, Fetched, begin_dashboard, end_dashboard, updates,
  all_resources,
}

abbrev pub members_of : Option AppGroup → List Labelled
members_of none = []
members_of (some g) = g.resources

-- The resources of the group with a key.
abbrev pub members : String → List (String × AppGroup) → List Labelled
members k m = members_of (at_key k m)

-- The app that a resource is labelled with: the first of three labels that is there and not empty.
abbrev app_of : Labelled → Option String
app_of r =
    or_option (truthy (at_key "app.kubernetes.io/name" r.labels))
      (or_option (truthy (at_key "app" r.labels)) (truthy (at_key "run" r.labels)))

-- The key of an app in the namespace of a resource, `default` if it has none.
abbrev app_key : Labelled → String → String
app_key r app = join_text (or_else (truthy r.namespace) "default" ∷ ":" ∷ app ∷ [])

abbrev belongs_to : String → Option String → Labelled → Bool
belongs_to k none r = false
belongs_to k (some app) r = app_key r app == k

-- A resource with an app belongs to the key of its namespace and its app.
abbrev pub is_in : String → Labelled → Bool
is_in k r = belongs_to k (app_of r) r

abbrev pub has_app : Labelled → Bool
has_app r = is_some (app_of r)

or_option-none : (o : Option String) → or_option o none ≡ o
or_option-none none = refl
or_option-none (some a) = refl

app_name-eq : (r : Labelled) → app_name r ≡ app_of r
unfolding app_name first_label
app_name-eq r =
    ap
      (λ o.
        or_option (truthy (at_key "app.kubernetes.io/name" r.labels))
          (or_option (truthy (at_key "app" r.labels)) o))
      (or_option-none (truthy (at_key "run" r.labels)))

key_of-eq : (r : Labelled) (app : String) → key_of r app ≡ app_key r app
unfolding key_of
key_of-eq r app = refl

abbrev pub app_size : AppGroup → ℕ
app_size g = length g.resources

members-or_else :
    (o : Option AppGroup) (g : AppGroup) → g.resources ≡ [] → (or_else o g).resources ≡ members_of o
members-or_else none g h = h
members-or_else (some g') g h = refl

members-add_to :
    (k : String) (app : Option String) (r : Labelled) (m : List (String × AppGroup))
    → members k (add_to app r m)
      ≡ (if belongs_to k app r then members k m ++ r ∷ [] else members k m)
unfolding add_to key_of
members-add_to k none r m = refl
members-add_to k (some app) r m =
    let key = app_key r app in
    let old =
      or_else (at_key key m) (record { name = app; namespace = namespace_of r; resources = [] }) in
    elim (Bool-cases (key == k)) [
      | inl same ↦
          let e : app_key r app ≡ k = ground (arith, eq_iff (app_key r app) k) in
          rw same (
            rw (← e) (
              ap members_of (at_key-put key (joined r old) m)
              ∙ ap (λ rs. rs ++ r ∷ []) (members-or_else (at_key key m) _ refl)))
      | inr other ↦ rw other (ap members_of (at_key-put-other key k (joined r old) m other))
    ]

eqb_refl : (n : ℕ) → eqb n n ≡ true
eqb_refl n = ground arith

total : List (String × AppGroup) → ℕ
total m = sum_of app_size (groups_of m)

total-put :
    (k : String) (g : AppGroup) (m : List (String × AppGroup))
    → total (put k g m) + length (members k m) ≡ total m + app_size g
unfolding put at_key total
total-put k g [] = omega arith
total-put k g ((l, h) ∷ m) = ground (arith, total-put k g m)

total-add_to :
    (app : Option String) (r : Labelled) (m : List (String × AppGroup))
    → total (add_to app r m) ≡ total m + length (filter (λ x. is_some app) (r ∷ []))
unfolding add_to
total-add_to none r m = omega arith
total-add_to (some app) r m =
    let key = key_of r app in
    let old =
      or_else (at_key key m) (record { name = app; namespace = namespace_of r; resources = [] }) in
    omega (
      arith,
      total-put key (joined r old) m,
      length-append old.resources (r ∷ []),
      ap length (
          members-or_else (at_key key m)
            (record { name = app; namespace = namespace_of r; resources = [] }) refl),
    )

members-group_apps :
    (k : String) (rs : List Labelled) (m : List (String × AppGroup))
    → members k (group_apps rs m) ≡ members k m ++ filter (is_in k) rs
unfolding group_apps
members-group_apps k [] m = sym (append-nil _)
members-group_apps k (r ∷ rs) m =
    members-group_apps k rs (add_to (app_name r) r m)
    ∙ ap (λ xs. xs ++ filter (is_in k) rs)
        (members-add_to k (app_name r) r m
          ∙ ap (λ o. if belongs_to k o r then members k m ++ r ∷ [] else members k m)
              (app_name-eq r))
    ∙ ground (arith, append_assoc (members k m) (r ∷ []) (filter (is_in k) rs))

total-group_apps :
    (rs : List Labelled) (m : List (String × AppGroup))
    → total (group_apps rs m) ≡ total m + length (filter has_app rs)
unfolding group_apps
total-group_apps [] m = omega arith
total-group_apps (r ∷ rs) m = ground (
  arith,
  total-group_apps rs (add_to (app_name r) r m),
  total-add_to (app_name r) r m,
  app_name-eq r,
)

-- The group with a key `namespace:app` holds exactly the resources whose namespace, or `default`, and
-- whose app, the first of their three labels, make that key, in order, and all groups together hold each resource with a label once; they are
-- shown in any order of their names.
pub members-of_apps :
    (before : String → String → Bool) (k : String) (rs : List Labelled)
    → (members k (group_apps rs []) ≡ filter (is_in k) rs)
      × (sum_of app_size (apps_of before rs) ≡ length (filter has_app rs))
unfolding apps_of at_key total
members-of_apps before k rs = (
  members-group_apps k rs [],
  sum-sort_by (λ a b. before a.name b.name) app_size (groups_of (group_apps rs []))
      ∙ omega (arith, total-group_apps rs []),
)

begin_dashboard-cached :
    (later now : ℕ) (s : Dashboard)
    → s.last_dashboard_loaded_at ≡ now
    → later < now + 30000
    → begin_dashboard later s ≡ (s, none)
unfolding begin_dashboard
begin_dashboard-cached later now s at soon = elim (Option-cases (truthy s.selected_context)) [
  | inl nobody ↦ rw (nobody, begin_dashboard) refl
  | inr (ctx, e) ↦
      let cached : ltb (later - s.last_dashboard_loaded_at) 30000 ≡ true = rw at (ground arith) in
      rw (e, begin_dashboard) (rw cached refl)
]

-- The newest load for the context that is still selected shows its lists and the apps of them, and
-- for less than 30 s after that a further load changes nothing and fetches nothing.
dashboard_is_cached :
    (before : String → String → Bool) (now later : ℕ) (l : Load) (fs : List Fetched) (s : Dashboard)
    → s.selected_context ≡ some l.snapshot_ctx
    → l.my_seq ≡ s.dashboard_fetch_seq
    → later < now + 30000
    → let t = end_dashboard before now l fs s in
      (t.lists ≡ updates l.ns fs s.lists)
      × (t.apps ≡ apps_of before (all_resources t.lists))
      × (t.loading_resources ≡ false)
      × (begin_dashboard later t ≡ (t, none))
unfolding end_dashboard
dashboard_is_cached before now later l fs s ctx newest soon =
    rw (ctx, newest)
      (rw (eq_refl l.snapshot_ctx) (
        rw (eqb_refl s.dashboard_fetch_seq)
          (refl, refl, refl, begin_dashboard-cached later now _ refl soon)))
