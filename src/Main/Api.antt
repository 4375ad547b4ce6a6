-- ===== src/Main/Api.antt =====
-- main/sidecar/api.ts: requests to the Go sidecar, with retries. What `fetch` answers to the n-th
-- attempt is a parameter; the waits between attempts are recorded in milliseconds.
pub mod Laws
mod Tests
use podscape.Common.{
  ℕ, zero, suc, String, Bool, true, false, not, ◌&&◌, ◌||◌, Option, none, some, List, [], ◌∷◌, map,
  ◌==◌, any, if◌then◌else◌, ltb, or_else, or_option, codes, to_upper, codes_eq, includes, ◌-◌,
}

pub record Response : Type 0 where
  pub status : ℕ
  pub ok : Bool
  -- What `res.text()` gives, and none where it is rejected.
  pub text : Option String

pub record FetchError : Type 0 where
  pub code : Option String
  pub cause_code : Option String
  pub message : Option String

pub data Attempt : Type 0 where
  response : Response → Attempt
  failure : FetchError → Attempt

abbrev pub err_code : FetchError → String
err_code e = or_else (or_option e.code e.cause_code) ""

abbrev pub message_has : String → FetchError → Bool
message_has s e = includes (codes (or_else e.message "")) (codes s)

pub is_startup_error : FetchError → Bool
is_startup_error e = err_code e == "ECONNREFUSED" || message_has "ECONNREFUSED" e

pub is_non_idempotent : Option String → Bool
is_non_idempotent method =
    let m = to_upper (codes (or_else method "GET")) in
    any (λ n. codes_eq (codes n) m) ("POST" ∷ "PUT" ∷ "PATCH" ∷ [])

pub is_socket_reset : Option String → FetchError → Bool
is_socket_reset method e =
    not (is_non_idempotent method)
    && (err_code e == "UND_ERR_SOCKET"
        || message_has "other side closed" e
        || message_has "socket hang up" e)

pub data Outcome : Type 0 where
  returned : Response → Outcome
  thrown : FetchError → Outcome
  -- The `throw` behind the loop.
  unreachable : Outcome

pub record Run : Type 0 where
  pub outcome : Outcome
  pub calls : ℕ
  pub delays : List ℕ

abbrev pub startup_delay : ℕ
startup_delay = 500

abbrev pub settled : Outcome → ℕ → Run
settled o i = record { outcome = o; calls = suc i; delays = [] }

-- `setTimeout` is awaited for a delay above 0 only.
pub wait_before : FetchError → Run → Run
wait_before e r = if is_startup_error e then record r { delays = startup_delay ∷ r.delays } else r

-- The loop from `i`, with `n` rounds left.
pub fetch_from : ℕ → Option String → (ℕ → Attempt) → ℕ → ℕ → Run
fetch_from max_retries method net zero i = record { outcome = unreachable; calls = i; delays = [] }
fetch_from max_retries method net (suc n) i =
    let rest = fetch_from max_retries method net n (suc i) in
    elim (net i) [
      | response r ↦ settled (returned r) i
      | failure e ↦
          if not (is_startup_error e) && not (is_socket_reset method e)
          then settled (thrown e) i
          else if ltb i (max_retries - 1)
          then wait_before e rest
          else settled (thrown e) i
    ]

abbrev pub max_retries : ℕ
max_retries = 20

pub sidecar_fetch : Option String → (ℕ → Attempt) → Run
sidecar_fetch method net = fetch_from max_retries method net max_retries 0

pub data Checked : Type 0 where
  passed : Response → Checked
  -- "Go sidecar returned <status> for <path>: <text>"
  refused : (status : ℕ) → (path text : String) → Checked
  failed : FetchError → Checked
  no_answer : Checked

pub check : String → Outcome → Checked
check path (returned r) = if r.ok then passed r else refused r.status path (or_else r.text "")
check path (thrown e) = failed e
check path unreachable = no_answer

pub checked_sidecar_fetch : String → Option String → (ℕ → Attempt) → Checked
checked_sidecar_fetch path method net = check path (sidecar_fetch method net).outcome
