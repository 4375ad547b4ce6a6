-- ===== src/Main/Env/Tests.antt =====
-- The environment of subprocesses at concrete inputs.
use podscape.Common.{String, Option, none, some, List, [], ◌∷◌, ◌≡◌, refl, codes}
use podscape.Common.Splits.{Text, split, join_with}
use podscape.Main.Env.{
  linux, search_path, push_missing, augment, get_var, set_var, spread, defined, with_path, with_gke,
  kubeconfig, get_augmented_env,
}

abbrev join_slash : List Text → Text
join_slash = join_with b'/'

abbrev user_home : Text
user_home = codes "/home/u"

abbrev two_paths : List Text
two_paths = codes "/usr/bin" ∷ codes "/snap/bin" ∷ []

abbrev old_path : Option Text
old_path = some (codes "/bin::/usr/bin")

appends : augment b':' two_paths old_path ≡ codes "/bin:/usr/bin:/snap/bin"
unfolding augment push_missing search_path split join_with
appends = refl

abbrev process_env : List (String × Option Text)
process_env = ("PATH", old_path) ∷ ("KUBECONFIG", none) ∷ []

abbrev token : List (String × Text)
token = ("PODSCAPE_TOKEN", codes "secret") ∷ []

home_config :
    get_var "KUBECONFIG" (get_augmented_env join_slash user_home linux process_env [] token)
    ≡ some (codes "/home/u/.kube/config")
unfolding get_augmented_env spread set_var get_var with_gke with_path kubeconfig defined join_with
    augment push_missing search_path split
home_config = refl
