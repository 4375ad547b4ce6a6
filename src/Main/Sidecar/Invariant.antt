-- ===== src/Main/Sidecar/Invariant.antt =====
-- The invariant of main/sidecar/sidecar.ts over all orders of its events.
use podscape.Common.{
  if_rule, ℕ, String, Bool, true, false, ◌||◌, Option, none, some, List, [], ◌∷◌, any, eqb, is_some,
  if◌then◌else◌, ◌≡◌, ◌≤◌, refl, ap, arith, Bool-cases, inl, inr,
}
use podscape.Main.Sidecar.{
  Child, Sidecar, is_process, changed, with_child, on_exit, ready, not_yet, is_in_flight,
  is_scheduled, answer, timer, has_exited, exit, stop_sidecar, has_timeout, force_kill, prepare,
  spawned, launch, quit, Event, stops, quits, prepares, launches, answers, timer_fires,
  timeout_fires, exits, errors, prints, step, run,
}
use podscape.Main.Sidecar.Sound.{
  is_sound, on_stderr_sound, on_error_sound, on_exit_sound, ready_sound, not_yet_sound, timer_sound,
  force_kill_sound, replaced_sound, stop_at, exit_told, not_current,
}

abbrev pub noticed : ℕ → List ℕ → Bool
noticed j = any (λ k. eqb k j)

abbrev IsSoundAt : ℕ → Sidecar → Type 0
IsSoundAt j w =
    is_sound (is_process j w.sidecar_process) (noticed j w.crashes) (w.children j) ≡ true

pub record IsValid (w : Sidecar) : Type 0 where
  pub sound :
      (j : ℕ)
      → is_sound (is_process j w.sidecar_process) (noticed j w.crashes) (w.children j) ≡ true
  pub fresh : (j : ℕ) → w.next ≤ j → w.children j ≡ none

fresh-with :
    (b : Bool) (f : Child → Child) (o : Option Child)
    → o ≡ none
    → (if b then changed f o else o) ≡ none
fresh-with b f o h = ground arith

-- A change of one process that is sound for it.
with_child-IsValid :
    (i : ℕ) (f : Child → Child) (w : Sidecar)
    → ((j : ℕ)
        → eqb i j ≡ true
        → IsSoundAt j w
        → is_sound (is_process j w.sidecar_process) (noticed j w.crashes) (changed f (w.children j))
          ≡ true)
    → IsValid w
    → IsValid (with_child i f w)
with_child-IsValid i f w rule v = record {
  sound = λ j.
      if_rule (λ o. is_sound (is_process j w.sidecar_process) (noticed j w.crashes) o ≡ true)
        (eqb i j) (λ same. rule j same (v.sound j)) (λ other. v.sound j);
  fresh = λ j h. fresh-with (eqb i j) f (w.children j) (v.fresh j h);
}

is_process-some : (i : ℕ) (p : Option ℕ) → is_process i p ≡ true → is_some p ≡ true
is_process-some i none h = h
is_process-some i (some p) h = refl

answer-IsValid : (i : ℕ) (ok : Bool) (w : Sidecar) → IsValid w → IsValid (answer i ok w)
unfolding answer
answer-IsValid i true w v =
    if_rule IsValid (is_in_flight (w.children i))
      (λ h.
        let u = with_child-IsValid i ready w (λ j same. ready_sound _ _ (w.children j)) v in
        record { sound = u.sound; fresh = u.fresh })
      (λ h. v)
answer-IsValid i false w v =
    if_rule IsValid (is_in_flight (w.children i))
      (λ h.
        with_child-IsValid i (not_yet (is_some w.sidecar_process)) w
          (λ j same. not_yet_sound _ _ _ (w.children j) (is_process-some j w.sidecar_process)) v)
      (λ h. v)

timer-IsValid : (i : ℕ) (w : Sidecar) → IsValid w → IsValid (timer i w)
unfolding timer
timer-IsValid i w v =
    if_rule IsValid (is_scheduled (w.children i))
      (λ h. with_child-IsValid i _ w (λ j same. timer_sound _ _ (w.children j)) v) (λ h. v)

force_kill-IsValid : (i : ℕ) (w : Sidecar) → IsValid w → IsValid (force_kill i w)
unfolding force_kill
force_kill-IsValid i w v =
    if_rule IsValid (has_timeout (w.children i))
      (λ h.
        let u = with_child-IsValid i _ w (λ j same. force_kill_sound _ _ (w.children j)) v in
        record { sound = u.sound; fresh = u.fresh })
      (λ h. v)

eqb-eq : (a b : ℕ) → eqb a b ≡ true → a ≡ b
eqb-eq a b h = ground arith

launch-IsValid : (port : ℕ) (path : String) (w : Sidecar) → IsValid w → IsValid (launch port path w)
unfolding launch
launch-IsValid port path w v = record {
  sound = λ j. launched j;
  fresh = λ j h.
      if_rule (λ o. o ≡ none) (eqb w.next j) (λ same. absurd (ground arith))
        (λ other. v.fresh j (omega arith));
}
  where
    unknown : (j : ℕ) → eqb w.next j ≡ true → noticed j w.crashes ≡ false
    unknown j same =
        let none_yet = v.fresh j (ground arith) in let h = v.sound j in ground (arith, none_yet)

    launched :
        (j : ℕ)
        → is_sound
            (eqb w.next j)
            (noticed j w.crashes)
            (if eqb w.next j then some (spawned port path) else w.children j)
          ≡ true
    launched j = elim (Bool-cases (eqb w.next j)) [
      | inl same ↦ rw (same, unknown j same) refl
      | inr other ↦ rw other (replaced_sound _ _ (w.children j) (v.sound j))
    ]

option_rule {ℓ κ μ} :
    {A : Type ℓ} {B : Type κ} (P : B → Type μ) (o : Option A) {x : B} {f : A → B}
    → (o ≡ none → P x)
    → ((a : A) → o ≡ some a → P (f a))
    → P (elim o [ none ↦ x | some a ↦ f a ])
option_rule P none g h = g refl
option_rule P (some a) g h = h a refl

stop_sidecar-IsValid : (w : Sidecar) → IsValid w → IsValid (stop_sidecar w)
unfolding stop_sidecar
stop_sidecar-IsValid w v =
    option_rule IsValid w.sidecar_process (λ e. v)
      (λ p e. record {
        sound = λ j.
            stop_at (eqb p j) (is_process j w.sidecar_process) _ (w.children j)
              (ap (is_process j) e) (v.sound j);
        fresh = λ j h. fresh-with (eqb p j) _ (w.children j) (v.fresh j h);
      })

noticed-cond :
    (j i : ℕ) (told : Bool) (crashes : List ℕ)
    → noticed j (if told then i ∷ crashes else crashes)
      ≡ (if told then eqb i j || noticed j crashes else noticed j crashes)
noticed-cond j i true crashes = refl
noticed-cond j i false crashes = refl

is_process-eq : (i j : ℕ) (p : Option ℕ) → is_process i p ≡ true → is_process j p ≡ eqb i j
is_process-eq i j none h = ground arith
is_process-eq i j (some p) h = ground arith

is_process-same :
    (i j : ℕ) (p : Option ℕ) → eqb i j ≡ true → is_process i p ≡ false → is_process j p ≡ false
is_process-same i j none e h = refl
is_process-same i j (some p) e h = ground arith

exit-IsValid :
    (i : ℕ) (code : Option ℕ) (signal : Option String) (w : Sidecar)
    → IsValid w
    → IsValid (exit i code signal w)
unfolding exit
exit-IsValid i code signal w v =
    if_rule IsValid (has_exited (w.children i)) (λ gone. v)
      (λ runs. if_rule IsValid (is_process i w.sidecar_process) current other)
  where
    leaves : Child → Child
    leaves = on_exit w.shutting_down code signal

    other : is_process i w.sidecar_process ≡ false → IsValid (with_child i leaves w)
    other h =
        with_child-IsValid i leaves w
          (λ j same sound.
            not_current _ _ (changed leaves (w.children j))
              (is_process-same i j w.sidecar_process same h)
              (on_exit_sound _ _ w.shutting_down code signal (w.children j) sound))
          v

    current :
        is_process i w.sidecar_process ≡ true
        → IsValid (record (with_child i leaves w) {
          sidecar_process = none;
          crashes = if w.startup_complete then i ∷ w.crashes else w.crashes;
        })
    current h = record {
      sound = λ j. rw (noticed-cond j i w.startup_complete w.crashes) (
          exit_told (eqb i j) (is_process j w.sidecar_process) w.startup_complete _ w.shutting_down
            code signal (w.children j) (is_process-eq i j w.sidecar_process h) (v.sound j));
      fresh = λ j h. fresh-with (eqb i j) _ (w.children j) (v.fresh j h);
    }

quit-IsValid : (w : Sidecar) → IsValid w → IsValid (quit w)
unfolding quit
quit-IsValid w v =
    option_rule IsValid w.sidecar_process (λ e. v)
      (λ p e. record { sound = v.sound; fresh = v.fresh })

step-IsValid : (e : Event) (w : Sidecar) → IsValid w → IsValid (step e w)
unfolding step prepare
step-IsValid stops w v = stop_sidecar-IsValid w v
step-IsValid quits w v = quit-IsValid w v
step-IsValid (prepares true) w v = record { sound = v.sound; fresh = v.fresh }
step-IsValid (prepares false) w v = v
step-IsValid (launches port path) w v = launch-IsValid port path w v
step-IsValid (answers i ok) w v = answer-IsValid i ok w v
step-IsValid (timer_fires i) w v = timer-IsValid i w v
step-IsValid (timeout_fires i) w v = force_kill-IsValid i w v
step-IsValid (exits i code signal) w v = exit-IsValid i code signal w v
step-IsValid (errors i message) w v =
    with_child-IsValid i _ w (λ j same. on_error_sound _ _ message (w.children j)) v
step-IsValid (prints i text) w v =
    with_child-IsValid i _ w (λ j same. on_stderr_sound _ _ text (w.children j)) v

pub run-IsValid : (es : List Event) (w : Sidecar) → IsValid w → IsValid (run es w)
unfolding run
run-IsValid [] w v = v
run-IsValid (e ∷ es) w v = run-IsValid es (step e w) (step-IsValid e w v)
