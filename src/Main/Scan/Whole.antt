-- ===== src/Main/Scan/Whole.antt =====
-- The events of a scan against its whole text, and the chunks that main/ipc/kubectl.ts gets.
use mathlib.Core.List.{append_assoc, append-nil}
use podscape.Common.{
  ℕ, map, Bool, true, false, Option, List, [], ◌∷◌, ◌++◌, if◌then◌else◌, ◌≡◌, refl, ◌∙◌, sym, ap,
  arith, Bool-cases, inl, inr,
}
use podscape.Common.Splits.{Text}
use podscape.Main.Scan.{
  Output, Stream, opened, joined, cut_blocks, read_block, on_event, on_blocks, on_data, on_chunks,
}
use podscape.Main.Scan.Chunks.{cut_blocks-append}

module _ {A : Type 0} (parse : Text → Option A) (is_alive : Bool) where
  on_blocks_settled :
      (bs : List Text) (o : Output A) → o.settled ≡ true → on_blocks parse is_alive bs o ≡ o
  unfolding on_blocks
  on_blocks_settled [] o h = refl
  on_blocks_settled (b ∷ bs) o h =
      let same : (if o.settled then o else on_event parse is_alive (read_block b) o) ≡ o =
        ground arith in
      ap (on_blocks parse is_alive bs) same ∙ on_blocks_settled bs o h

  on_blocks-append :
      (bs cs : List Text) (o : Output A)
      → on_blocks parse is_alive (bs ++ cs) o
        ≡ on_blocks parse is_alive cs (on_blocks parse is_alive bs o)
  unfolding on_blocks
  on_blocks-append [] cs o = refl
  on_blocks-append (b ∷ bs) cs o = on_blocks-append bs cs _

  -- What a stream shows of the text that has come.
  record Reads (text : Text) (s : Stream A) : Type 0 where
    output : s.output ≡ on_blocks parse is_alive (cut_blocks text).0 (opened {A = A}).output
    rest : s.output.settled ≡ false → s.buffer ≡ (cut_blocks text).1

  on_data_settled :
      (decode : List ℕ → Text) (chunk : List ℕ) (s : Stream A)
      → s.output.settled ≡ true
      → on_data parse is_alive decode chunk s ≡ s
  unfolding on_data
  on_data_settled decode chunk s h = ground arith

  on_data_unsettled :
      (decode : List ℕ → Text) (chunk : List ℕ) (s : Stream A)
      → s.output.settled ≡ false
      → let text = s.buffer ++ decode chunk in
        on_data parse is_alive decode chunk s ≡ record {
          buffer = (cut_blocks text).1;
          output = on_blocks parse is_alive (cut_blocks text).0 s.output;
        }
  unfolding on_data
  on_data_unsettled decode chunk s h = ground arith

  settled-Reads :
      (text chunk : Text) (s : Stream A)
      → s.output.settled ≡ true
      → Reads text s
      → Reads (text ++ chunk) s
  settled-Reads text chunk s h r = record {
    output =
        sym (on_blocks_settled (cut_blocks ((cut_blocks text).1 ++ chunk)).0 s.output h)
        ∙ ap (on_blocks parse is_alive (cut_blocks ((cut_blocks text).1 ++ chunk)).0) r.output
        ∙ sym (on_blocks-append (cut_blocks text).0 _ (opened {A = A}).output)
        ∙ ap (λ p. on_blocks parse is_alive p.0 (opened {A = A}).output)
            (sym (cut_blocks-append text chunk));
    rest = λ e. absurd (ground arith);
  }

  unsettled-Reads :
      (text chunk : Text) (s : Stream A)
      → s.output.settled ≡ false
      → Reads text s
      → Reads (text ++ chunk) (record {
        buffer = (cut_blocks (s.buffer ++ chunk)).1;
        output = on_blocks parse is_alive (cut_blocks (s.buffer ++ chunk)).0 s.output;
      })
  unsettled-Reads text chunk s h r =
      let left : s.buffer ≡ (cut_blocks text).1 = r.rest h in
      record {
        output =
            ap (λ b. on_blocks parse is_alive (cut_blocks (b ++ chunk)).0 s.output) left
            ∙ ap (on_blocks parse is_alive (cut_blocks ((cut_blocks text).1 ++ chunk)).0) r.output
            ∙ sym (on_blocks-append (cut_blocks text).0 _ (opened {A = A}).output)
            ∙ ap (λ p. on_blocks parse is_alive p.0 (opened {A = A}).output)
                (sym (cut_blocks-append text chunk));
        rest = λ e.
            ap (λ b. (cut_blocks (b ++ chunk)).1) left
            ∙ ap (λ p. p.1) (sym (cut_blocks-append text chunk));
      }

  on_data-Reads :
      (decode : List ℕ → Text) (text : Text) (chunk : List ℕ) (s : Stream A)
      → Reads text s
      → Reads (text ++ decode chunk) (on_data parse is_alive decode chunk s)
  on_data-Reads decode text chunk s r = elim (Bool-cases s.output.settled) [
    | inl settled ↦
        rw (on_data_settled decode chunk s settled) (settled-Reads text (decode chunk) s settled r)
    | inr waiting ↦
        rw (on_data_unsettled decode chunk s waiting)
          (unsettled-Reads text (decode chunk) s waiting r)
  ]

  on_chunks-Reads :
      (decode : List ℕ → Text) (chunks : List (List ℕ)) (text : Text) (s : Stream A)
      → Reads text s
      → Reads (text ++ joined (map decode chunks)) (on_chunks parse is_alive decode chunks s)
  unfolding on_chunks
  on_chunks-Reads decode [] text s r = rw (append-nil text) r
  on_chunks-Reads decode (c ∷ cs) text s r =
      rw (sym (append_assoc text (decode c) (joined (map decode cs))))
        (on_chunks-Reads decode cs (text ++ decode c) _ (on_data-Reads decode text c s r))

  opened-Reads : Reads [] opened
  unfolding cut_blocks on_blocks
  opened-Reads = record { output = refl; rest = λ e. refl }

  -- Wherever the bytes of a scan are cut into chunks, even inside an event or its last line feed, but
  -- such that the chunks are decoded to parts of the whole text, which a cut inside a character
  -- prevents: the progress lines that are sent and the promise are those of the events of the whole
  -- text, in order, up to the first result or error.
  pub on_chunks-blocks :
      (decode : List ℕ → Text) (chunks : List (List ℕ))
      → decode (joined chunks) ≡ joined (map decode chunks)
      → (on_chunks parse is_alive decode chunks opened).output
        ≡ on_blocks parse is_alive (cut_blocks (decode (joined chunks))).0 (opened {A = A}).output
  on_chunks-blocks decode chunks parts =
      (on_chunks-Reads decode chunks [] opened opened-Reads).output
      ∙ ap (λ text. on_blocks parse is_alive (cut_blocks text).0 (opened {A = A}).output)
          (sym parts)
