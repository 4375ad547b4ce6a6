-- ===== src/Panels/Connectivity.antt =====
-- The connectivity tester: the helpers, runSteps and the failure analysis of
-- renderer/components/advanced/ConnectivityTester.tsx. Texts are lists of code points. What a step
-- meets, a cancellation, the result of its command and the time it takes, is an argument.
mod Names
mod Policies
pub mod Hosts
pub mod Steps
mod Tests
use podscape.Common.{
  ℕ, zero, suc, String, Bool, true, false, not, ◌&&◌, ◌||◌, ◌==◌, Option, none, some, List, [], ◌∷◌,
  ◌++◌, ◌+◌, map, all, any, filter, find, length, codes, codes_eq, eqb, ltb, or_else, sum_of,
  same_option, if◌then◌else◌,
}
use podscape.Common.Maps.{at_key}
use podscape.Common.Sorting.{sort_by}
use podscape.Common.Splits.{Text, split}
unfoldable pub use Names.*
unfoldable pub use Policies.*

pub data Protocol : Type 0 where
  curl nc ping : Protocol

pub data StepStatus : Type 0 where
  idle running success failed skipped : StepStatus

pub data Key : Type 0 where
  dns tcp http : Key

pub record DiagStep : Type 0 where
  pub key : Key
  pub label : String
  pub cmd : List Text
  pub status : StepStatus
  pub output : Text
  pub duration_ms : ℕ

pub build_command : Protocol → (host port path : Text) → List Text
build_command curl host port path =
    codes "curl" ∷ codes "-v" ∷ codes "-m" ∷ codes "10" ∷ (with_port host port ++ path) ∷ []
build_command nc host port path =
    codes "nc" ∷ codes "-zv" ∷ codes "-w" ∷ codes "5" ∷ host ∷ or_text port (codes "80") ∷ []
build_command ping host port path =
    codes "ping" ∷ codes "-c" ∷ codes "3" ∷ codes "-W" ∷ codes "5" ∷ host ∷ []

-- The ports of the containers of a pod, each once, in order.
pub add_ports : List ℕ → List ℕ → List ℕ
add_ports [] ports = ports
add_ports (p ∷ ps) ports =
    add_ports ps (if any (λ q. eqb q p) ports then ports else ports ++ p ∷ [])

abbrev pub add_containers : List (Option (List ℕ)) → List ℕ → List ℕ
add_containers [] ports = ports
add_containers (c ∷ cs) ports = add_containers cs (add_ports (or_else c []) ports)

pub pod_container_ports : List (Option (List ℕ)) → List ℕ
pod_container_ports containers = sort_by ltb (add_containers containers [])

pub new_step : Key → String → List Text → DiagStep
new_step key label cmd = record {
  key = key;
  label = label;
  cmd = cmd;
  status = idle;
  output = [];
  duration_ms = 0;
}

pub build_diag_steps : (host port path : Text) → Bool → List DiagStep
build_diag_steps host port path skip_dns =
    let url = codes "http://" ++ (with_port host port ++ or_text path (codes "/")) in
    let http_cmd =
      codes "curl"
      ∷ codes "-s"
      ∷ codes "-m"
      ∷ codes "10"
      ∷ codes "-o"
      ∷ codes "/dev/null"
      ∷ codes "-w"
      ∷ codes "HTTP %{http_code} (%{time_total}s)"
      ∷ url
      ∷ [] in
    let rest =
      new_step tcp "TCP Port Check" (build_command nc host port [])
      ∷ new_step http "HTTP Response" http_cmd
      ∷ [] in
    if not skip_dns
    then new_step dns "DNS Resolution" (codes "nslookup" ∷ codes "-timeout=5" ∷ host ∷ []) ∷ rest
    else rest

-- What a command comes to: its output with the exit code, or an exception.
pub data Outcome : Type 0 where
  exited : (stdout : Text) (exit_code : ℕ) → Outcome
  thrown : Text → Outcome

-- What a step meets.
pub record Attempt : Type 0 where
  pub is_cancelled : Bool
  pub outcome : Outcome
  pub duration_ms : ℕ

abbrev pub is_dns : Key → Bool
is_dns dns = true
is_dns _ = false

abbrev pub has_succeeded : Outcome → Bool
has_succeeded (exited stdout exit_code) = eqb exit_code 0
has_succeeded (thrown message) = false

abbrev pub output_of : Outcome → Text
output_of (exited stdout exit_code) = stdout
output_of (thrown message) = message

pub finished : Attempt → DiagStep → DiagStep
finished a step = record step {
  status = if has_succeeded a.outcome then success else failed;
  output = output_of a.outcome;
  duration_ms = a.duration_ms;
}

-- The steps so far, whether DNS works, what `onStepUpdate` was given, newest first, and the commands
-- that were run, oldest first.
pub record Progress : Type 0 where
  pub result : List DiagStep
  pub dns_ok : Bool
  pub updates : List (List DiagStep)
  pub executed : List (List Text)

-- `result[i] = step; onStepUpdate([...result])`: the steps after it are as they were.
abbrev pub show :
    List DiagStep → DiagStep → List DiagStep → List (List DiagStep) → List (List DiagStep)
show done step rest updates = (done ++ step ∷ rest) ∷ updates

-- The step that is put in place, with what else has changed before.
abbrev pub put_step : DiagStep → List DiagStep → Progress → Progress
put_step step rest p = record p {
  result = p.result ++ step ∷ [];
  updates = show p.result step rest p.updates;
}

-- One turn of the loop; `rest` are the steps after it.
pub run_step : Bool → Attempt → DiagStep → List DiagStep → Progress → Progress
run_step allow_skip a step rest p =
    let shown : Progress = record p {
      updates = show p.result (record step { status = running }) rest p.updates;
    } in
    if a.is_cancelled
    then put_step (record step { status = skipped }) rest p
    else if not (is_dns step.key) && (not p.dns_ok && allow_skip)
    then put_step (record step { status = skipped; output = []; duration_ms = 0 }) rest shown
    else put_step (finished a step) rest (record shown {
      dns_ok = p.dns_ok && (not (is_dns step.key) || has_succeeded a.outcome);
      executed = p.executed ++ step.cmd ∷ [];
    })

pub run_loop : Bool → (ℕ → Attempt) → ℕ → List DiagStep → Progress → Progress
run_loop allow_skip attempts i [] p = p
run_loop allow_skip attempts i (step ∷ rest) p =
    run_loop allow_skip attempts (suc i) rest (run_step allow_skip (attempts i) step rest p)

pub run_steps : Bool → (ℕ → Attempt) → List DiagStep → Progress
run_steps allow_skip attempts steps =
    run_loop allow_skip attempts 0 steps
      (record { result = []; dns_ok = true; updates = []; executed = [] })
