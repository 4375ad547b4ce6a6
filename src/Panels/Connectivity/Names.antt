-- ===== src/Panels/Connectivity/Names.antt =====
-- The host names that renderer/components/advanced/ConnectivityTester.tsx builds and parses.
use podscape.Common.{
  Bool, true, false, ◌&&◌, Option, none, some, List, [], ◌∷◌, ◌++◌, codes, codes_eq, eqb, or_else,
  if◌then◌else◌,
}
use podscape.Common.Splits.{Text, split}

abbrev pub is_empty : Text → Bool
is_empty [] = true
is_empty (c ∷ cs) = false

-- `a || b` of texts.
abbrev pub or_text : Text → Text → Text
or_text a b = if is_empty a then b else a

-- `${host}${port ? ':' + port : ''}`.
unfoldable pub with_port : Text → Text → Text
with_port host port = host ++ (if is_empty port then [] else b':' ∷ port)

unfoldable pub build_service_dns_name : (name : Text) → (namespace : Option Text) → Text
build_service_dns_name name namespace =
    name ++ b'.' ∷ (or_text (or_else namespace []) (codes "default") ++ codes ".svc.cluster.local")

-- `ip.replace(/\./g, '-')`.
unfoldable pub dashed : Text → Text
dashed [] = []
dashed (c ∷ cs) = (if eqb c b'.' then b'-' else c) ∷ dashed cs

unfoldable pub build_pod_dns_name : (pod_ip : Option Text) → (namespace : Option Text) → Text
build_pod_dns_name pod_ip namespace =
    let ip = or_else pod_ip [] in
    if is_empty ip
    then []
    else dashed ip ++ b'.' ∷ (or_else namespace (codes "default") ++ codes ".pod.cluster.local")

-- The two labels before `kind.cluster.local`.
abbrev pub labels_before : Text → List Text → Option (Text × Text)
labels_before kind (a ∷ b ∷ k ∷ cluster ∷ top ∷ more) =
    if codes_eq k kind && (codes_eq cluster (codes "cluster") && codes_eq top (codes "local"))
    then some (a, b)
    else none
labels_before kind _ = none

-- The name and the namespace of a service.
unfoldable pub parse_svc_dns : Text → Option (Text × Text)
parse_svc_dns host = labels_before (codes "svc") (split b'.' host)

abbrev pub second : Option (Text × Text) → Option Text
second none = none
second (some p) = some p.1

-- The namespace of a pod.
unfoldable pub parse_pod_dns : Text → Option Text
parse_pod_dns host = second (labels_before (codes "pod") (split b'.' host))
