-- ===== src/Panels/Connectivity/Steps.antt =====
-- What runSteps of renderer/components/advanced/ConnectivityTester.tsx leaves of its steps.
use mathlib.Core.List.{append_assoc, append-nil}
use podscape.Common.{
  ℕ, suc, String, Bool, true, false, not, ◌&&◌, Option, none, some, List, [], ◌∷◌, ◌++◌, map,
  if◌then◌else◌, ◌≡◌, refl, ◌∙◌, sym, ap, arith, All, All-append, if_rule,
}
use podscape.Common.Splits.{Text}
use podscape.Panels.Connectivity.{
  StepStatus, idle, running, success, failed, Key, DiagStep, Attempt, is_dns, finished, Progress,
  run_step, run_loop, run_steps,
}

-- A step that has come to an end.
abbrev pub is_final : StepStatus → Bool
is_final idle = false
is_final running = false
is_final _ = true

abbrev pub has_run : StepStatus → Bool
has_run success = true
has_run failed = true
has_run _ = false

-- What a step is, without what it has met.
abbrev pub identity_of : DiagStep → Key × String × List Text
identity_of s = (s.key, s.label, s.cmd)

abbrev pub commands : List DiagStep → List (List Text)
commands [] = []
commands (s ∷ ss) = let rest = commands ss in if has_run s.status then s.cmd ∷ rest else rest

abbrev pub first : List (List DiagStep) → Option (List DiagStep)
first [] = none
first (u ∷ us) = some u

commands-append : (xs ys : List DiagStep) → commands (xs ++ ys) ≡ commands xs ++ commands ys
commands-append [] ys = refl
commands-append (x ∷ xs) ys = ground (arith, commands-append xs ys)

map-append :
    (xs ys : List DiagStep) → map identity_of (xs ++ ys) ≡ map identity_of xs ++ map identity_of ys
map-append [] ys = refl
map-append (x ∷ xs) ys = ap (◌∷◌ (identity_of x)) (map-append xs ys)

-- The progress after the steps `done`, with those of `rest` to come.
record Follows (done rest : List DiagStep) (p : Progress) : Type 0 where
  same : map identity_of p.result ≡ map identity_of done
  final : All (λ (s : DiagStep). is_final s.status ≡ true) p.result
  ran : p.executed ≡ commands p.result

put-Follows :
    (s step : DiagStep) (done rest : List DiagStep) (p : Progress) (dns_ok : Bool)
    (updates : List (List DiagStep)) (executed : List (List Text))
    → identity_of s ≡ identity_of step
    → is_final s.status ≡ true
    → executed ≡ p.executed ++ commands (s ∷ [])
    → Follows done (step ∷ rest) p
    → Follows (done ++ step ∷ []) rest (record {
      result = p.result ++ s ∷ [];
      dns_ok = dns_ok;
      updates = updates;
      executed = executed;
    })
put-Follows s step done rest p dns_ok updates executed i e x f = record {
  same =
      map-append p.result (s ∷ [])
      ∙ ap (λ is. is ++ identity_of s ∷ []) f.same
      ∙ ap (λ j. map identity_of done ++ j ∷ []) i
      ∙ sym (map-append done (step ∷ []));
  final = All-append _ p.result (s ∷ []) f.final (e, tt);
  ran = x ∙ ap (λ cs. cs ++ commands (s ∷ [])) f.ran ∙ sym (commands-append p.result (s ∷ []));
}

finished-identity :
    (a : Attempt) (step : DiagStep) → identity_of (finished a step) ≡ identity_of step
unfolding finished
finished-identity a step = refl

finished-final : (a : Attempt) (step : DiagStep) → is_final (finished a step).status ≡ true
unfolding finished
finished-final a step = ground arith

finished-commands :
    (a : Attempt) (step : DiagStep) → commands (finished a step ∷ []) ≡ step.cmd ∷ []
unfolding finished
finished-commands a step = ground arith

run_step-Follows :
    (allow_skip : Bool) (a : Attempt) (step : DiagStep) (done rest : List DiagStep) (p : Progress)
    → Follows done (step ∷ rest) p
    → Follows (done ++ step ∷ []) rest (run_step allow_skip a step rest p)
unfolding run_step
run_step-Follows allow_skip a step done rest p f =
    let unchanged : p.executed ≡ p.executed ++ [] = sym (append-nil p.executed) in
    if_rule (Follows (done ++ step ∷ []) rest) a.is_cancelled
      (λ h. put-Follows _ step done rest p _ _ _ refl refl unchanged f)
      (λ h.
        if_rule (Follows (done ++ step ∷ []) rest)
          (not (is_dns step.key) && (not p.dns_ok && allow_skip))
          (λ k. put-Follows _ step done rest p _ _ _ refl refl unchanged f)
          (λ k.
            put-Follows (finished a step) step done rest p _ _ _ (finished-identity a step)
              (finished-final a step) (ap (λ cs. p.executed ++ cs) (sym (finished-commands a step)))
              f))

run_loop-Follows :
    (allow_skip : Bool) (attempts : ℕ → Attempt) (i : ℕ) (steps done : List DiagStep) (p : Progress)
    → Follows done steps p
    → Follows (done ++ steps) [] (run_loop allow_skip attempts i steps p)
unfolding run_loop
run_loop-Follows allow_skip attempts i [] done p f = rw (append-nil done) f
run_loop-Follows allow_skip attempts i (step ∷ steps) done p f =
    rw (sym (append_assoc done (step ∷ []) steps)) (
      run_loop-Follows allow_skip attempts (suc i) steps (done ++ step ∷ []) _
        (run_step-Follows allow_skip (attempts i) step done steps p f))

run_step-updates :
    (allow_skip : Bool) (a : Attempt) (step : DiagStep) (rest : List DiagStep) (p : Progress)
    → let q = run_step allow_skip a step rest p in first q.updates ≡ some (q.result ++ rest)
unfolding run_step
run_step-updates allow_skip a step rest p =
    let Shows = λ (q : Progress). first q.updates ≡ some (q.result ++ rest) in
    let shown = λ (s : DiagStep). ap some (sym (append_assoc p.result (s ∷ []) rest)) in
    if_rule Shows a.is_cancelled (λ h. shown _)
      (λ h.
        if_rule Shows (not (is_dns step.key) && (not p.dns_ok && allow_skip)) (λ k. shown _)
          (λ k. shown (finished a step)))

run_loop-updates :
    (allow_skip : Bool) (attempts : ℕ → Attempt) (i : ℕ) (steps : List DiagStep) (p : Progress)
    → first p.updates ≡ some (p.result ++ steps)
    → let q = run_loop allow_skip attempts i steps p in first q.updates ≡ some q.result
unfolding run_loop
run_loop-updates allow_skip attempts i [] p h = h ∙ ap some (append-nil p.result)
run_loop-updates allow_skip attempts i (step ∷ steps) p h =
    run_loop-updates allow_skip attempts (suc i) steps _
      (run_step-updates allow_skip (attempts i) step steps p)

-- Whatever the steps meet, cancellations and exceptions included: the run gives back the same steps
-- in their order, each at its end, as success, failed or skipped; the commands that were run are
-- those of the steps that were not skipped; and the last update shows the result.
pub run_steps-final :
    (allow_skip : Bool) (attempts : ℕ → Attempt) (step : DiagStep) (steps : List DiagStep)
    → let p = run_steps allow_skip attempts (step ∷ steps) in
      (map identity_of p.result ≡ map identity_of (step ∷ steps))
      × All (λ (s : DiagStep). is_final s.status ≡ true) p.result
      × (p.executed ≡ commands p.result)
      × (first p.updates ≡ some p.result)
unfolding run_steps run_loop
run_steps-final allow_skip attempts step steps =
    let start : Progress = record { result = []; dns_ok = true; updates = []; executed = [] } in
    let f =
      run_loop-Follows allow_skip attempts 0 (step ∷ steps) [] start
        (record { same = refl; final = tt; ran = refl }) in
    (
      f.same,
      f.final,
      f.ran,
      run_loop-updates allow_skip attempts 1 steps _
          (run_step-updates allow_skip (attempts 0) step steps start),
    )
