-- ===== src/Panels/Connectivity/Tests.antt =====
-- The connectivity tester at concrete inputs.
use podscape.Common.{ℕ, true, false, none, some, List, [], ◌∷◌, map, codes, ◌≡◌, refl, All, length}
use podscape.Common.Maps.{at_key}
use podscape.Common.Sorting.{sort_by, insert_by}
use podscape.Panels.Connectivity.{
  curl, failed, skipped, dns, DiagStep, thrown, Attempt, with_port, build_command,
  build_service_dns_name, build_pod_dns_name, add_ports, pod_container_ports, new_step,
  build_diag_steps, parse_svc_dns, parse_pod_dns, labels_match_selector, NetworkPolicy, restricts,
  is_ingress_restricted, is_egress_restricted, ingress_pols, egress_pols, is_deny_all, finished,
  run_step, run_loop, run_steps,
}
use podscape.Panels.Connectivity.Hosts.{parsed_hosts}
use podscape.Panels.Connectivity.Steps.{is_final, identity_of, commands, first, run_steps-final}

url_with_port :
    build_command curl (codes "web") (codes "8080") (codes "/x")
    ≡ codes "curl" ∷ codes "-v" ∷ codes "-m" ∷ codes "10" ∷ codes "web:8080/x" ∷ []
unfolding build_command with_port
url_with_port = refl

ports_once :
    pod_container_ports (some (8080 ∷ 80 ∷ []) ∷ none ∷ some (80 ∷ 443 ∷ []) ∷ [])
    ≡ 80 ∷ 443 ∷ 8080 ∷ []
unfolding pod_container_ports add_ports sort_by insert_by
ports_once = refl

-- A policy that restricts ingress by its rules, and denies everything.
abbrev deny : NetworkPolicy
deny = record {
  name = "deny";
  match_labels = some (("app", "db") ∷ []);
  policy_types = none;
  ingress = some [];
  egress = none;
}

-- The policies of the target are not matched against its labels.
unmatched_policy :
    (ingress_pols (deny ∷ []) ≡ deny ∷ [])
    × (egress_pols (("app", "web") ∷ []) (record deny { egress = some [] } ∷ []) ≡ [])
    × (is_deny_all deny.ingress ≡ true)
unfolding ingress_pols egress_pols is_ingress_restricted is_egress_restricted restricts
    labels_match_selector is_deny_all at_key
unmatched_policy = (refl, refl, refl)

abbrev steps : List DiagStep
steps = build_diag_steps (codes "web.shop.svc.cluster.local") (codes "80") [] false

abbrev unresolved : ℕ → Attempt
unresolved i = record {
  is_cancelled = false;
  outcome = thrown (codes "can't find web");
  duration_ms = 5;
}

-- When DNS fails, the other steps are skipped and run no command.
dns_failed :
    let p = run_steps true unresolved steps in
    (map (λ (s : DiagStep). s.status) p.result ≡ failed ∷ skipped ∷ skipped ∷ [])
    × (length p.executed ≡ 1)
    × (length p.updates ≡ 6)
unfolding run_steps run_loop run_step finished build_diag_steps new_step
dns_failed = (refl, refl, refl)

parsed_hosts_example :
    let svc = build_service_dns_name (codes "web") none in
    let pod = build_pod_dns_name (some (codes "10.0.0.7")) (some (codes "shop")) in
    (parse_svc_dns svc ≡ some (codes "web", codes "default"))
    × (parse_pod_dns svc ≡ none)
    × (parse_pod_dns pod ≡ some (codes "shop"))
    × (parse_svc_dns pod ≡ none)
parsed_hosts_example =
    parsed_hosts (codes "web") (codes "0.0.0.7") b'1' none (some (codes "shop"))
      (refl, (refl, (refl, tt))) tt (refl, (refl, (refl, (refl, tt))))

abbrev ping_step : DiagStep
ping_step = new_step dns "DNS Resolution" (codes "nslookup" ∷ [])

run_steps-final_example :
    let p = run_steps true unresolved (ping_step ∷ []) in
    (map identity_of p.result ≡ map identity_of (ping_step ∷ []))
    × All (λ (s : DiagStep). is_final s.status ≡ true) p.result
    × (p.executed ≡ commands p.result)
    × (first p.updates ≡ some p.result)
run_steps-final_example = run_steps-final true unresolved ping_step []
