-- ===== src/Main/Env.antt =====
-- main/system/env.ts: the environment of subprocesses. Texts are lists of code points. `join` of
-- node's `path`, the home directory and the settings' `kubeconfigPath` are arguments.
pub mod SearchPath
pub mod Vars
mod Tests
use podscape.Common.{
  ℕ, String, Bool, true, false, not, Option, none, some, List, [], ◌∷◌, ◌++◌, ◌==◌, any, filter,
  codes, codes_eq, eqb, if◌then◌else◌, or_else, map,
}
use podscape.Common.Splits.{Text, push_head, split, join_with}

pub data Platform : Type 0 where
  darwin linux win32 other : Platform

abbrev pub is_nonempty : Text → Bool
is_nonempty [] = false
is_nonempty (c ∷ cs) = true

-- `path.split(sep).filter(Boolean)`.
pub search_path : ℕ → Text → List Text
search_path sep path = filter is_nonempty (split sep path)

abbrev pub has : Text → List Text → Bool
has p = any (λ q. codes_eq q p)

-- `for (const p of paths) if (!existing.includes(p)) existing.push(p)`.
pub push_missing : List Text → List Text → List Text
push_missing [] existing = existing
push_missing (p ∷ ps) existing =
    push_missing ps (if not (has p existing) then existing ++ p ∷ [] else existing)

pub augment : ℕ → List Text → Option Text → Text
augment sep paths path = join_with sep (push_missing paths (search_path sep (or_else path [])))

-- The variables of an environment.
pub get_var : String → List (String × Text) → Option Text
get_var k [] = none
get_var k ((j, v) ∷ env) = let rest = get_var k env in if j == k then some v else rest

pub set_var : String → Text → List (String × Text) → List (String × Text)
set_var k v [] = (k, v) ∷ []
set_var k v ((j, w) ∷ env) =
    let rest = set_var k v env in if j == k then (j, v) ∷ env else (j, w) ∷ rest

-- `{ ...env, ...extra }`.
pub spread : List (String × Text) → List (String × Text) → List (String × Text)
spread env [] = env
spread env ((k, v) ∷ extra) = spread (set_var k v env) extra

pub defined : List (String × Option Text) → List (String × Text)
defined [] = []
defined ((k, none) ∷ env) = defined env
defined ((k, some v) ∷ env) = (k, v) ∷ defined env

-- `a || b` of a text that may be missing.
abbrev pub or_text : Option Text → Text → Text
or_text none b = b
or_text (some []) b = b
or_text (some (c ∷ cs)) b = c ∷ cs

-- `if (!base.USE_GKE_GCLOUD_AUTH_PLUGIN) …`.
pub with_gke : List (String × Text) → List (String × Text)
with_gke base =
    let flag : String = "USE_GKE_GCLOUD_AUTH_PLUGIN" in
    set_var flag (or_text (get_var flag base) (codes "True")) base

module _ (join : List Text → Text) (home : Text) where
  abbrev pub in_home : List String → Text
  in_home parts = join (home ∷ map codes parts)

  common_paths : List Text
  common_paths =
      codes "/usr/local/bin"
      ∷ codes "/usr/local/sbin"
      ∷ codes "/usr/bin"
      ∷ codes "/usr/sbin"
      ∷ codes "/bin"
      ∷ codes "/sbin"
      ∷ in_home (".local" ∷ "bin" ∷ [])
      ∷ in_home ("bin" ∷ [])
      ∷ in_home ("google-cloud-sdk" ∷ "bin" ∷ [])
      ∷ codes "/usr/local/google-cloud-sdk/bin"
      ∷ codes "/opt/google-cloud-sdk/bin"
      ∷ in_home (".oci" ∷ "bin" ∷ [])
      ∷ in_home ("lib" ∷ "oracle-cli" ∷ "bin" ∷ [])
      ∷ in_home (".ibmcloud" ∷ "bin" ∷ [])
      ∷ in_home (".crc" ∷ "bin" ∷ [])
      ∷ in_home (".local" ∷ "share" ∷ "tanzu-cli" ∷ [])
      ∷ in_home (".krew" ∷ "bin" ∷ [])
      ∷ []

  mac_paths : List Text
  mac_paths = codes "/opt/homebrew/bin" ∷ codes "/opt/homebrew/sbin" ∷ common_paths

  linux_paths : List Text
  linux_paths = common_paths ++ codes "/snap/bin" ∷ []

  win_paths : Text → Text → List Text
  win_paths prog_files prog_files_x86 =
      join (prog_files ∷ codes "Amazon" ∷ codes "AWSCLIV2" ∷ [])
      ∷ join
          (prog_files ∷ codes "Microsoft SDKs" ∷ codes "Azure" ∷ codes "CLI2" ∷ codes "wbin" ∷ [])
      ∷ in_home ("AppData" ∷ "Local" ∷ "Google" ∷ "Cloud SDK" ∷ "google-cloud-sdk" ∷ "bin" ∷ [])
      ∷ join (prog_files ∷ codes "Oracle" ∷ codes "oci" ∷ codes "bin" ∷ [])
      ∷ in_home ("Oracle" ∷ "oci" ∷ [])
      ∷ join (prog_files ∷ codes "IBM" ∷ codes "Cloud" ∷ codes "bin" ∷ [])
      ∷ join (prog_files_x86 ∷ codes "IBM" ∷ codes "Cloud" ∷ codes "bin" ∷ [])
      ∷ codes "C:\\OpenShift"
      ∷ in_home (".crc" ∷ "bin" ∷ [])
      ∷ join (prog_files ∷ codes "tanzu-cli" ∷ [])
      ∷ in_home ("AppData" ∷ "Local" ∷ "tanzu-cli" ∷ [])
      ∷ in_home ("AppData" ∷ "Local" ∷ "Microsoft" ∷ "WinGet" ∷ "Packages" ∷ [])
      ∷ in_home ("scoop" ∷ "shims" ∷ [])
      ∷ codes "C:\\ProgramData\\chocolatey\\bin"
      ∷ in_home ("bin" ∷ [])
      ∷ []

  -- The assignments to `base.PATH`.
  pub with_path : Platform → List (String × Text) → List (String × Text)
  unfolding common_paths mac_paths linux_paths win_paths
  with_path darwin base = set_var "PATH" (augment b':' mac_paths (get_var "PATH" base)) base
  with_path linux base = set_var "PATH" (augment b':' linux_paths (get_var "PATH" base)) base
  with_path win32 base =
      let files = or_else (get_var "ProgramFiles" base) (codes "C:\\Program Files") in
      let files_x86 =
        or_else (get_var "ProgramFiles(x86)" base) (codes "C:\\Program Files (x86)") in
      set_var "PATH" (augment b';' (win_paths files files_x86) (get_var "PATH" base)) base
  with_path other base = base

  pub kubeconfig : Text → List (String × Text) → Text
  kubeconfig setting base =
      or_text (some setting)
        (or_text (get_var "KUBECONFIG" base) (in_home (".kube" ∷ "config" ∷ [])))

  pub get_augmented_env :
      Platform → List (String × Option Text) → Text → List (String × Text) → List (String × Text)
  get_augmented_env platform env setting extra =
      let base = defined env in
      spread
        (set_var "KUBECONFIG" (kubeconfig setting base)
          (set_var "HOME" home (with_gke (with_path platform base))))
        extra
