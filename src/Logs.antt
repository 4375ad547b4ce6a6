-- ===== src/Logs.antt =====
-- The buffer of log lines of renderer/hooks/useLogBuffer.ts: the state of the hook, and a function
-- for each of its callbacks. The delay of the timer is not modelled: the flush is an operation of its
-- own, which the timer calls at most while it is set.
pub mod Stream
mod Tests
use podscape.Common.Slices.{slice_last}
use podscape.Common.{
  ℕ, zero, suc, Bool, true, false, List, [], ◌∷◌, ◌++◌, ◌-◌, length, drop, if◌then◌else◌,
}

pub record LogBuffer {ℓ} (A : Type ℓ) : Type ℓ where
  pub items : List A
  pub pending_buffer : List A
  pub flush_timer : Bool

-- The initial values of the hook.
abbrev pub empty {ℓ} : {A : Type ℓ} → LogBuffer A
empty = record { items = []; pending_buffer = []; flush_timer = false }

pub data Operation {ℓ} (A : Type ℓ) : Type ℓ where
  appends : List A → Operation A
  timer_fires resets cancels : Operation A

module _ {ℓ} {A : Type ℓ} (max_items : ℕ) where
  pub flush : List A → LogBuffer A → LogBuffer A
  flush [] s = record s { flush_timer = false }
  flush (x ∷ xs) s = record {
    items = slice_last max_items (s.items ++ x ∷ xs);
    pending_buffer = [];
    flush_timer = false;
  }

  pub flush_pending : LogBuffer A → LogBuffer A
  flush_pending s = flush s.pending_buffer s

  pub append : List A → LogBuffer A → LogBuffer A
  append [] s = s
  append (x ∷ xs) s = record s { pending_buffer = s.pending_buffer ++ x ∷ xs; flush_timer = true }

  pub reset : LogBuffer A → LogBuffer A
  reset s = record { items = []; pending_buffer = []; flush_timer = false }

  -- What is buffered stays.
  pub cancel_flush : LogBuffer A → LogBuffer A
  cancel_flush s = record s { flush_timer = false }

  pub step : Operation A → LogBuffer A → LogBuffer A
  step (appends xs) s = append xs s
  step timer_fires s = if s.flush_timer then flush_pending s else s
  step resets s = reset s
  step cancels s = cancel_flush s

  pub run : List (Operation A) → LogBuffer A → LogBuffer A
  run [] s = s
  run (o ∷ os) s = run os (step o s)
