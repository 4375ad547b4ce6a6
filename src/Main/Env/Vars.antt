-- ===== src/Main/Env/Vars.antt =====
-- The variables that main/system/env.ts hands to a subprocess.
use podscape.Common.{
  String, Option, none, some, List, [], ◌∷◌, ◌==◌, ◌≡◌, refl, if◌then◌else◌, or_option, arith,
  eq_iff,
}
use podscape.Common.Splits.{Text}
use podscape.Main.Env.{
  Platform, get_var, set_var, spread, defined, or_text, with_path, kubeconfig, with_gke,
  get_augmented_env, in_home,
}

get_var-set_var :
    (k j : String) (v : Text) (env : List (String × Text))
    → get_var j (set_var k v env) ≡ (if k == j then some v else get_var j env)
unfolding get_var set_var
get_var-set_var k j v [] = refl
get_var-set_var k j v ((i, w) ∷ env) =
    ground (arith, eq_iff k j, eq_iff i k, eq_iff i j, get_var-set_var k j v env)

-- The last binding of a variable, as a spread takes it.
pub last_var : String → List (String × Text) → Option Text
last_var j [] = none
last_var j ((k, v) ∷ extra) = or_option (last_var j extra) (if k == j then some v else none)

get_var-spread :
    (j : String) (extra env : List (String × Text))
    → get_var j (spread env extra) ≡ or_option (last_var j extra) (get_var j env)
unfolding spread last_var
get_var-spread j [] env = refl
get_var-spread j ((k, v) ∷ extra) env =
    ground (arith, get_var-spread j extra (set_var k v env), get_var-set_var k j v env)

module _ (join : List Text → Text) (home : Text) where
  -- A variable that the caller adds wins over what is computed. What is computed for HOME is the
  -- home directory, for KUBECONFIG the path of the settings, the one of the environment or the one
  -- in the home directory, the first of these that is not empty, and for PATH what the platform's
  -- branch assigns.
  augmented_vars :
      (platform : Platform) (env : List (String × Option Text)) (setting : Text)
      (extra : List (String × Text)) (k : String)
      → let result = get_augmented_env join home platform env setting extra in
        let computed = get_augmented_env join home platform env setting [] in
        let base = defined env in
        (get_var k result ≡ or_option (last_var k extra) (get_var k computed))
        × (get_var "HOME" computed ≡ some home)
        × (get_var "KUBECONFIG" computed
            ≡ some (
                or_text (some setting) (
                  or_text
                    (get_var "KUBECONFIG" base)
                    (in_home join home (".kube" ∷ "config" ∷ [])))))
        × (get_var "PATH" computed ≡ get_var "PATH" (with_path join home platform base))
  unfolding get_augmented_env kubeconfig with_gke spread
  augmented_vars platform env setting extra k =
      let base = defined env in
      let path = with_path join home platform base in
      let flag : String = "USE_GKE_GCLOUD_AUTH_PLUGIN" in
      let gke = with_gke path in
      let homed = set_var "HOME" home gke in
      (get_var-spread k extra _, simp get_var-set_var, simp get_var-set_var, simp get_var-set_var)
