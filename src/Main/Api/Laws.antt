-- ===== src/Main/Api/Laws.antt =====
-- What main/sidecar/api.ts promises of its retries.
use podscape.Common.{
  ℕ, zero, suc, String, true, false, not, ◌&&◌, Option, List, [], ◌∷◌, ◌≡◌, ◌≢◌, ◌⊎◌, inl, inr,
  refl, arith, Bool-cases, ◌+◌, ◌-◌, ◌*◌, ◌≤◌, ◌<◌, if◌then◌else◌, ltb, dec_le,
}
use podscape.Main.Api.{
  Response, FetchError, Attempt, response, failure, is_startup_error, is_non_idempotent,
  is_socket_reset, Outcome, returned, thrown, unreachable, Run, settled, wait_before, fetch_from,
  sidecar_fetch,
}

-- A failure after which the code tries again.
abbrev pub IsRetriable : Option String → Attempt → Type 0
IsRetriable method (response r) = ⊥
IsRetriable method (failure e) = (is_startup_error e ≡ true) ⊎ (is_socket_reset method e ≡ true)

-- How the last attempt decides the outcome: a response is returned, and an error is thrown that is
-- not retriable or that came in the last round.
abbrev pub Settles : Option String → ℕ → ℕ → Attempt → Outcome → Type 0
Settles method max k (response r) o = o ≡ returned r
Settles method max k (failure e) o =
    (o ≡ thrown e) × ((¬ IsRetriable method (failure e)) ⊎ (suc k ≡ max))

-- The attempts from `i` on: all but the last are retriable, and the last decides.
record IsRun (max : ℕ) (method : Option String) (net : ℕ → Attempt) (i : ℕ) (r : Run) : Type 0 where
  last : ℕ
  from : i ≤ last
  below : last < max
  calls : r.calls ≡ suc last
  retried : (j : ℕ) → i ≤ j → j < last → IsRetriable method (net j)
  settles : Settles method max last (net last) r.outcome

Attempt-cases :
    (a : Attempt) → ((r : Response) × (a ≡ response r)) ⊎ ((e : FetchError) × (a ≡ failure e))
Attempt-cases (response r) = inl (r, refl)
Attempt-cases (failure e) = inr (e, refl)

-- The run that ends with the attempt `i`.
stop_here :
    (max : ℕ) (method : Option String) (net : ℕ → Attempt) (i : ℕ) (o : Outcome)
    → i < max
    → Settles method max i (net i) o
    → IsRun max method net i (settled o i)
stop_here max method net i o h s = record {
  last = i;
  from = omega arith;
  below = h;
  calls = refl;
  retried = λ j lo hi. absurd (omega arith);
  settles = s;
}

-- A retriable failure, and a run from the next attempt on.
go_on :
    (max : ℕ) (method : Option String) (net : ℕ → Attempt) (i : ℕ) (e : FetchError) (r : Run)
    → net i ≡ failure e
    → IsRetriable method (failure e)
    → IsRun max method net (suc i) r
    → IsRun max method net i (wait_before e r)
unfolding wait_before
go_on max method net i e r at again run = record {
  last = run.last;
  from = omega (arith, run.from);
  below = run.below;
  calls = ground (arith, run.calls);
  retried = λ j lo hi. elim (dec_le (suc i) j) [
    | yes later ↦ run.retried j later hi
    | no here ↦ let same : j ≡ i = omega arith in rw (same, at) again
  ];
  settles = rw (wait_before_outcome e r) run.settles;
}
  where
    wait_before_outcome : (e : FetchError) (r : Run) → (wait_before e r).outcome ≡ r.outcome
    wait_before_outcome e r = ground arith

IsRetriable-of_not :
    (method : Option String) (e : FetchError)
    → (not (is_startup_error e) && not (is_socket_reset method e)) ≡ false
    → IsRetriable method (failure e)
IsRetriable-of_not method e h = elim (Bool-cases (is_startup_error e)) [
  | inl yes_ ↦ inl yes_
  | inr no_ ↦ inr (ground arith)
]

-- The failure of a round, with the run of the later rounds at hand.
module _ (max : ℕ) (method : Option String) (net : ℕ → Attempt) (i : ℕ) (e : FetchError) where
  fail_round : Run → Run
  fail_round rest =
      if not (is_startup_error e) && not (is_socket_reset method e)
      then settled (thrown e) i
      else if ltb i (max - 1)
      then wait_before e rest
      else settled (thrown e) i

  fail_round-IsRun :
      (rest : Run)
      → i < max
      → net i ≡ failure e
      → (suc i < max → IsRun max method net (suc i) rest)
      → IsRun max method net i (fail_round rest)
  unfolding fail_round
  fail_round-IsRun rest h at later =
      elim (Bool-cases (not (is_startup_error e) && not (is_socket_reset method e))) [
        | inl hard ↦
            rw hard
              (stop_here max method net i (thrown e) h (rw at (refl, inl (not_retriable hard))))
        | inr soft ↦ elim (Bool-cases (ltb i (max - 1))) [
          | inl more ↦
              rw (soft, more)
                (go_on max method net i e rest at (IsRetriable-of_not method e soft)
                  (later (ground arith)))
          | inr over ↦
              rw (soft, over)
                (stop_here max method net i (thrown e) h (rw at (refl, inr (ground arith))))
        ]
      ]
    where
      not_retriable :
          (not (is_startup_error e) && not (is_socket_reset method e)) ≡ true
          → ¬ IsRetriable method (failure e)
      not_retriable hard (inl a) = ground arith
      not_retriable hard (inr a) = ground arith

fetch_from-IsRun :
    (max : ℕ) (method : Option String) (net : ℕ → Attempt) (n i : ℕ)
    → i + suc n ≡ max
    → IsRun max method net i (fetch_from max method net (suc n) i)
unfolding fetch_from fail_round
fetch_from-IsRun max method net zero i h = elim (Attempt-cases (net i)) [
  | inl (r, at) ↦
      rw (at, fetch_from) (stop_here max method net i (returned r) (omega arith) (rw at refl))
  | inr (e, at) ↦
      rw (at, fetch_from)
        (fail_round-IsRun max method net i e _ (omega arith) at (λ more. absurd (omega arith)))
]
fetch_from-IsRun max method net (suc n) i h = elim (Attempt-cases (net i)) [
  | inl (r, at) ↦
      rw (at, fetch_from) (stop_here max method net i (returned r) (omega arith) (rw at refl))
  | inr (e, at) ↦
      rw (at, fetch_from)
        (fail_round-IsRun max method net i e _ (omega arith) at
          (λ more. fetch_from-IsRun max method net n (suc i) (omega arith)))
]

-- Every request ends after at most 20 attempts, and all of these but the last were failures that
-- the code retries; the last attempt decides: its response is returned, or its error is thrown,
-- which then is not one to retry or came in the 20th attempt. The `throw` behind the loop is never
-- reached.
pub sidecar_fetch-Settles :
    (method : Option String) (net : ℕ → Attempt)
    → let r = sidecar_fetch method net in
      (last : ℕ) × (last < 20)
      × (r.calls ≡ suc last)
      × ((j : ℕ) → j < last → IsRetriable method (net j))
      × Settles method 20 last (net last) r.outcome
      × (r.outcome ≢ unreachable)
unfolding sidecar_fetch
sidecar_fetch-Settles method net =
    let run = fetch_from-IsRun 20 method net 19 0 refl in
    (
      run.last,
      run.below,
      run.calls,
      λ j hi. run.retried j (omega arith) hi,
      run.settles,
      reached (net run.last) run.last _ run.settles,
    )
  where
    reached : (a : Attempt) (k : ℕ) (o : Outcome) → Settles method 20 k a o → o ≢ unreachable
    reached (response r) k o s = cc
    reached (failure e) k o (s, why) = cc

-- A request that is not idempotent is sent again only after an error that shows that the sidecar
-- was not up yet: every failure but the last one of such a request is one of these.
pub non_idempotent_once :
    (method : Option String) (net : ℕ → Attempt) (j : ℕ)
    → is_non_idempotent method ≡ true
    → suc j < (sidecar_fetch method net).calls
    → (e : FetchError) × (net j ≡ failure e) × (is_startup_error e ≡ true)
non_idempotent_once method net j unsafe again =
    let r = sidecar_fetch-Settles method net in startup (net j) refl (r.3 j (omega (arith, r.2)))
  where
    startup :
        (a : Attempt)
        → net j ≡ a
        → IsRetriable method a
        → (e : FetchError) × (net j ≡ failure e) × (is_startup_error e ≡ true)
    startup (response r) at h = absurd h
    startup (failure e) at (inl up) = (e, at, up)
    startup (failure e) at (inr reset) = (e, at, unfold is_socket_reset in ground arith)

-- The waits of a run, added up.
abbrev pub total : List ℕ → ℕ
total [] = 0
total (d ∷ ds) = d + total ds

fetch_from-total :
    (max : ℕ) (method : Option String) (net : ℕ → Attempt) (n i : ℕ)
    → i + suc n ≡ max
    → total (fetch_from max method net (suc n) i).delays ≤ 500 * n
unfolding fetch_from wait_before
fetch_from-total max method net zero i h = ground arith
fetch_from-total max method net (suc n) i h =
    ground (arith, fetch_from-total max method net n (suc i) (omega arith))

-- However often it retries, a request waits at most 9.5 s in all.
pub total-sidecar_fetch-le :
    (method : Option String) (net : ℕ → Attempt) → total (sidecar_fetch method net).delays ≤ 9500
unfolding sidecar_fetch
total-sidecar_fetch-le method net = fetch_from-total 20 method net 19 0 refl
