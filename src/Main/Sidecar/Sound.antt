-- ===== src/Main/Sidecar/Sound.antt =====
-- What holds of each process of main/sidecar/sidecar.ts, and that each listener keeps it.
use podscape.Common.{
  ℕ, String, Bool, true, false, not, ◌&&◌, ◌||◌, Option, none, some, List, if◌then◌else◌, ◌≡◌,
  arith,
}
use podscape.Main.Sidecar.{
  Promise, pending, Check, in_flight, idle, Stop, not_asked, waiting, Child, changed, on_stderr,
  on_error, exit_handler_runs, on_exit, ready, not_yet,
}

abbrev pub is_pending : Promise → Bool
is_pending pending = true
is_pending _ = false

abbrev pub is_coming : Check → Bool
is_coming idle = false
is_coming _ = true

abbrev pub is_asked : Stop → Bool
is_asked not_asked = false
is_asked _ = true

-- A start that waits can still end: its process runs and tells of its exit, and its next health
-- check comes unless the process is not the current one any more.
abbrev pub is_live : Bool → Child → Bool
is_live current c =
    not (is_pending c.promise)
    || (c.exit_handler && (not c.exited && (is_coming c.check || not current)))

-- The current process runs and was not stopped.
abbrev pub is_current : Bool → Child → Bool
is_current current c = not current || (not c.exited && not (is_asked c.stop))

-- A crash is told only of a process that exited by itself.
abbrev pub is_crash : Bool → Child → Bool
is_crash noticed c = not noticed || (c.exited && not (is_asked c.stop))

abbrev pub is_sound : Bool → Bool → Option Child → Bool
is_sound current noticed none = not current && not noticed
is_sound current noticed (some c) =
    is_live current c && (is_current current c && is_crash noticed c)

pub on_stderr_sound :
    (current noticed : Bool) (text : List ℕ) (o : Option Child)
    → is_sound current noticed o ≡ true
    → is_sound current noticed (changed (on_stderr text) o) ≡ true
unfolding on_stderr
on_stderr_sound current noticed text none h = h
on_stderr_sound current noticed text (some c) h = h

pub on_error_sound :
    (current noticed : Bool) (message : String) (o : Option Child)
    → is_sound current noticed o ≡ true
    → is_sound current noticed (changed (on_error message) o) ≡ true
unfolding on_error
on_error_sound current noticed message none h = h
on_error_sound current noticed message (some c) h = ground arith

pub on_exit_sound :
    (current noticed shutting_down : Bool) (code : Option ℕ) (signal : Option String)
    (o : Option Child)
    → is_sound current noticed o ≡ true
    → is_sound false noticed (changed (on_exit shutting_down code signal) o) ≡ true
unfolding on_exit exit_handler_runs
on_exit_sound current noticed shutting_down code signal none h = ground arith
on_exit_sound current noticed shutting_down code signal (some c) h = ground arith

pub ready_sound :
    (current noticed : Bool) (o : Option Child)
    → is_sound current noticed o ≡ true
    → is_sound current noticed (changed ready o) ≡ true
unfolding ready
ready_sound current noticed none h = h
ready_sound current noticed (some c) h = ground arith

pub not_yet_sound :
    (current noticed has_process : Bool) (o : Option Child)
    → (current ≡ true → has_process ≡ true)
    → is_sound current noticed o ≡ true
    → is_sound current noticed (changed (not_yet has_process) o) ≡ true
unfolding not_yet
not_yet_sound current noticed has_process none p h = h
not_yet_sound current noticed has_process (some c) p h = ground arith

-- The process that is told of as crashed.
pub on_exit-crash :
    (noticed shutting_down : Bool) (code : Option ℕ) (signal : Option String) (o : Option Child)
    → is_sound true noticed o ≡ true
    → is_sound false true (changed (on_exit shutting_down code signal) o) ≡ true
unfolding on_exit exit_handler_runs
on_exit-crash noticed shutting_down code signal none h = h
on_exit-crash noticed shutting_down code signal (some c) h = ground arith

pub timer_sound :
    (current noticed : Bool) (o : Option Child)
    → is_sound current noticed o ≡ true
    → is_sound current noticed (changed (λ c. record c { check = in_flight }) o) ≡ true
timer_sound current noticed none h = h
timer_sound current noticed (some c) h = ground arith

pub force_kill_sound :
    (current noticed : Bool) (o : Option Child)
    → is_sound current noticed o ≡ true
    → is_sound current noticed (changed (λ c. record c { force_kill_timeout = false }) o) ≡ true
force_kill_sound current noticed none h = h
force_kill_sound current noticed (some c) h = h

pub stop_sound :
    (noticed : Bool) (o : Option Child)
    → is_sound true noticed o ≡ true
    → is_sound false noticed
        (changed (λ c. record c { stop = waiting; force_kill_timeout = true }) o)
      ≡ true
stop_sound noticed none h = ground arith
stop_sound noticed (some c) h = ground arith

-- A process that is replaced.
pub replaced_sound :
    (current noticed : Bool) (o : Option Child)
    → is_sound current noticed o ≡ true
    → is_sound false noticed o ≡ true
replaced_sound current noticed none h = ground arith
replaced_sound current noticed (some c) h = ground arith

pub stop_at :
    (b current noticed : Bool) (o : Option Child)
    → current ≡ b
    → is_sound current noticed o ≡ true
    → is_sound false noticed
        (if b then changed (λ c. record c { stop = waiting; force_kill_timeout = true }) o else o)
      ≡ true
stop_at true current noticed o e h = stop_sound noticed o (rw e at h)
stop_at false current noticed o e h = replaced_sound current noticed o h

pub exit_told :
    (b current told noticed shutting_down : Bool) (code : Option ℕ) (signal : Option String)
    (o : Option Child)
    → current ≡ b
    → is_sound current noticed o ≡ true
    → is_sound false
        (if told then b || noticed else noticed)
        (if b then changed (on_exit shutting_down code signal) o else o)
      ≡ true
exit_told true current true noticed shutting_down code signal o e h =
    on_exit-crash noticed shutting_down code signal o (rw e at h)
exit_told true current false noticed shutting_down code signal o e h =
    on_exit_sound current noticed shutting_down code signal o h
exit_told false current true noticed shutting_down code signal o e h =
    replaced_sound current noticed o h
exit_told false current false noticed shutting_down code signal o e h =
    replaced_sound current noticed o h

pub not_current :
    (current noticed : Bool) (o : Option Child)
    → current ≡ false
    → is_sound false noticed o ≡ true
    → is_sound current noticed o ≡ true
not_current current noticed o e h = rw e h
