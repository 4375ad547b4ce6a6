-- ===== src/Store/Forwards/Tests.antt =====
-- The port forwards at concrete inputs.
use podscape.Common.{false, none, [], ◌∷◌, ◌≡◌, refl, any}
use podscape.Store.Forwards.{
  Status, PortForwardEntry, Forwards, has_id, get, set, delete, listen, assign, wire, begin, send,
  start_port_forward, handle_ready, stop_port_forward, stop_all_port_forwards, starts, ready,
  errors, exits, step, clean_up, unsubscribe,
}
use podscape.Store.Forwards.Invariant.{IsValid, step-IsValid, stopped_is_silent}

abbrev web : PortForwardEntry
web = record {
  id = "f1";
  namespace = "default";
  type = "pod";
  name = "web-0";
  local_port = 8080;
  remote_port = 80;
  status = Status.starting;
  message = none;
}

abbrev idle : Forwards
idle = record { port_forwards = []; pf_unsubs = []; listeners = []; next_serial = 0; calls = [] }

idle-IsValid : IsValid idle
idle-IsValid = record { tracked = tt; shown = tt; keyed = tt }

running : Unit {0}
unfolding get set delete listen assign wire begin send start_port_forward handle_ready step clean_up
    unsubscribe
running = tt

becomes_active :
    (step (ready "f1") (step (starts "prod" web) idle)).port_forwards
    ≡ record web { status = Status.active } ∷ []
unfolding running
becomes_active = refl

started-IsValid : IsValid (step (starts "prod" web) idle)
unfolding get
started-IsValid = step-IsValid (starts "prod" web) idle refl idle-IsValid

step-IsValid_example : IsValid (step (starts "prod" web) idle)
unfolding get
step-IsValid_example = step-IsValid (starts "prod" web) idle refl idle-IsValid

stopped_is_silent_example :
    let t = stop_port_forward "f1" (step (starts "prod" web) idle) in
    (any (has_id "f1") t.port_forwards ≡ false)
    × (step (ready "f1") t ≡ t)
    × (step (errors "f1" "late") t ≡ t)
    × (step (exits "f1") t ≡ t)
    × ((stop_all_port_forwards (step (starts "prod" web) idle)).listeners ≡ [])
stopped_is_silent_example =
    stopped_is_silent "f1" "late" (step (starts "prod" web) idle) started-IsValid
