-- ===== src/Logs/Stream.antt =====
-- What renderer/hooks/useLogBuffer.ts shows of the stream of lines.
use mathlib.Core.List.{append_assoc, append-nil}
use podscape.Common.{
  ℕ, Bool, true, false, List, [], ◌∷◌, ◌++◌, ◌≤◌, length, if◌then◌else◌, ◌≡◌, refl, sym, ◌∙◌, ap,
}
use podscape.Common.Slices.{slice_last, slice_last-nil, slice_last-append, length-slice_last-le}
use podscape.Logs.{
  empty, LogBuffer, Operation, appends, timer_fires, resets, cancels, flush, flush_pending, append,
  reset, cancel_flush, step, run,
}

module _ {ℓ} {A : Type ℓ} where
  -- The lines since the last reset.
  unfoldable pub lines : List (Operation A) → List A → List A
  lines [] before = before
  lines (appends xs ∷ os) before = lines os (before ++ xs)
  lines (timer_fires ∷ os) before = lines os before
  lines (resets ∷ os) before = lines os []
  lines (cancels ∷ os) before = lines os before

-- The items are the last of the lines that are flushed; the others are pending.
module _ {ℓ} {A : Type ℓ} (m : ℕ) (some_room : 1 ≤ m) where
  pub record Shows (before : List A) (s : LogBuffer A) : Type ℓ where
    pub flushed : List A
    pub split : before ≡ flushed ++ s.pending_buffer
    pub shown : s.items ≡ slice_last m flushed

  append-Shows :
      (xs before : List A) (s : LogBuffer A) → Shows before s → Shows (before ++ xs) (append m xs s)
  unfolding append
  append-Shows [] before s v = rw (append-nil before) v
  append-Shows (x ∷ xs) before s v = record {
    flushed = v.flushed;
    split = ap (λ zs. zs ++ x ∷ xs) v.split ∙ append_assoc v.flushed s.pending_buffer (x ∷ xs);
    shown = v.shown;
  }

  flush-Shows :
      (ps before : List A) (s : LogBuffer A)
      → ps ≡ s.pending_buffer
      → Shows before s
      → Shows before (flush m ps s)
  unfolding flush
  flush-Shows [] before s e v = record { flushed = v.flushed; split = v.split; shown = v.shown }
  flush-Shows (x ∷ xs) before s e v = record {
    flushed = v.flushed ++ x ∷ xs;
    split = v.split ∙ ap (λ zs. v.flushed ++ zs) (sym e) ∙ sym (append-nil (v.flushed ++ x ∷ xs));
    shown =
        ap (λ zs. slice_last m (zs ++ x ∷ xs)) v.shown
        ∙ slice_last-append m v.flushed (x ∷ xs) some_room;
  }

  fire-Shows :
      (set : Bool) (before : List A) (s : LogBuffer A)
      → Shows before s
      → Shows before (if set then flush_pending m s else s)
  unfolding flush_pending
  fire-Shows true before s v = flush-Shows s.pending_buffer before s refl v
  fire-Shows false before s v = v

  run-Shows :
      (os : List (Operation A)) (before : List A) (s : LogBuffer A)
      → Shows before s
      → Shows (lines os before) (run m os s)
  unfolding run lines step reset cancel_flush slice_last
  run-Shows [] before s v = v
  run-Shows (appends xs ∷ os) before s v =
      run-Shows os (before ++ xs) _ (append-Shows xs before s v)
  run-Shows (timer_fires ∷ os) before s v =
      run-Shows os before _ (fire-Shows s.flush_timer before s v)
  run-Shows (resets ∷ os) before s v =
      run-Shows os [] _ (record { flushed = []; split = refl; shown = sym (slice_last-nil m) })
  run-Shows (cancels ∷ os) before s v =
      run-Shows os before _ (record { flushed = v.flushed; split = v.split; shown = v.shown })

  empty-Shows : Shows [] empty
  empty-Shows = record { flushed = []; split = refl; shown = sym (slice_last-nil m) }

  -- After any operations on an empty buffer that holds m lines, at least one: what is shown are the
  -- last m, or fewer, of the lines that have come since the last reset and are flushed, and the
  -- lines behind those are all in the pending buffer.
  pub run-LogBuffer :
      (os : List (Operation A))
      → let s = run m os empty in Shows (lines os []) s × (length s.items ≤ m)
  run-LogBuffer os =
      let v = run-Shows os [] empty empty-Shows in
      (v, rw v.shown (length-slice_last-le m v.flushed some_room))
