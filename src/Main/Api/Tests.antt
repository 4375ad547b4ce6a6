-- ===== src/Main/Api/Tests.antt =====
-- Requests to the sidecar at concrete inputs.
use podscape.Common.{ℕ, zero, suc, true, none, some, ◌≡◌, ◌≢◌, ◌≤◌, ◌<◌, refl, arith, [], ◌∷◌}
use podscape.Main.Api.{
  Response, FetchError, Attempt, response, failure, is_startup_error, is_non_idempotent,
  is_socket_reset, returned, unreachable, wait_before, fetch_from, sidecar_fetch, passed, check,
  checked_sidecar_fetch,
}
use podscape.Main.Api.Laws.{
  IsRetriable, Settles, total, sidecar_fetch-Settles, non_idempotent_once, total-sidecar_fetch-le,
}

abbrev fine : Response
fine = record { status = 200; ok = true; text = some "ok" }

abbrev booting : FetchError
booting = record { code = none; cause_code = some "ECONNREFUSED"; message = some "fetch failed" }

abbrev reset : FetchError
reset = record { code = none; cause_code = none; message = some "socket hang up" }

-- Refused once, then served.
abbrev late : ℕ → Attempt
late zero = failure booting
late (suc n) = response fine

running : Unit {0}
unfolding sidecar_fetch fetch_from is_startup_error is_socket_reset is_non_idempotent wait_before
    check checked_sidecar_fetch
running = tt

served_late :
    sidecar_fetch none late ≡ record { outcome = returned fine; calls = 2; delays = 500 ∷ [] }
unfolding running
served_late = refl

checked_late : checked_sidecar_fetch "/health" none late ≡ passed fine
unfolding running
checked_late = refl

get_again : (sidecar_fetch (some "get") (λ n. failure reset)).calls ≡ 20
unfolding running
get_again = refl

post_once : (sidecar_fetch (some "post") (λ n. failure reset)).calls ≡ 1
unfolding running
post_once = refl

sidecar_fetch-Settles_example :
    let r = sidecar_fetch none late in
    (last : ℕ) × (last < 20)
    × (r.calls ≡ suc last)
    × ((j : ℕ) → j < last → IsRetriable none (late j))
    × Settles none 20 last (late last) r.outcome
    × (r.outcome ≢ unreachable)
sidecar_fetch-Settles_example = sidecar_fetch-Settles none late

non_idempotent_once_example : (e : FetchError) × (late 0 ≡ failure e) × (is_startup_error e ≡ true)
unfolding running
non_idempotent_once_example = non_idempotent_once (some "POST") late 0 refl (omega arith)

total-sidecar_fetch-le_example : total (sidecar_fetch none late).delays ≤ 9500
total-sidecar_fetch-le_example = total-sidecar_fetch-le none late
