-- ===== src/Main/Scan.antt =====
-- handleScanResponse of main/ipc/kubectl.ts: the answer to a security scan, as a stream of
-- server-sent events or as one JSON body. A chunk is a list of bytes, texts are lists of code points, `parse` stands for
-- JSON.parse, and `none` is an exception. After `res.destroy()` no data and no end come any more.
pub mod Chunks
pub mod Whole
mod Tests
use podscape.Common.{
  map, ℕ, Bool, true, false, not, ◌&&◌, Option, none, some, List, [], ◌∷◌, ◌++◌, codes, codes_eq,
  eqb, if◌then◌else◌,
}
use podscape.Common.Splits.{Text, split, trim, after_prefix}

pub data Reason : Type 0 where
  scan_failed : Text → Reason
  not_json : Text → Reason
  returned : (status : ℕ) (body : Text) → Reason
  closed : Reason

pub data Promise (A : Type 0) : Type 0 where
  pending : Promise A
  resolved : A → Promise A
  rejected : Reason → Promise A

-- What has come of the response: the progress lines sent to the renderer, oldest first, and the
-- promise.
pub record Output (A : Type 0) : Type 0 where
  pub progress : List Text
  pub settled : Bool
  pub promise : Promise A

pub record Stream (A : Type 0) : Type 0 where
  pub buffer : Text
  pub output : Output A

abbrev pub opened : {A : Type 0} → Stream A
opened = record {
  buffer = [];
  output = record { progress = []; settled = false; promise = pending };
}

abbrev pub joined : List (List ℕ) → List ℕ
joined [] = []
joined (c ∷ cs) = c ++ joined cs

-- One character more in front: of the first block, or of what is left where there is none.
abbrev pub push_front : ℕ → List Text × Text → List Text × Text
push_front c ([], rest) = ([], c ∷ rest)
push_front c (b ∷ bs, rest) = ((c ∷ b) ∷ bs, rest)

pub is_break : ℕ → ℕ → Bool
is_break c d = eqb c b'\n' && eqb d b'\n'

-- `split('\n\n')` with its last part taken off by `pop`.
pub cut_blocks : Text → List Text × Text
cut_blocks [] = ([], [])
cut_blocks (c ∷ []) = ([], c ∷ [])
cut_blocks (c ∷ d ∷ cs) = elim (is_break c d) [
  | true ↦ ([] ∷ (cut_blocks cs).0, (cut_blocks cs).1)
  | false ↦ push_front c (cut_blocks (d ∷ cs))
]

-- The event type and the data of a block.
pub read_line : Text → Text × Text → Text × Text
read_line line (event_type, data_text) = elim (after_prefix (codes "event: ") line) [
  | some t ↦ (trim t, data_text)
  | none ↦ elim (after_prefix (codes "data: ") line) [
    | some d ↦ (event_type, d)
    | none ↦ (event_type, data_text)
  ]
]

abbrev pub read_lines : List Text → Text × Text → Text × Text
read_lines [] e = e
read_lines (l ∷ ls) e = read_lines ls (read_line l e)

pub read_block : Text → Text × Text
read_block block = read_lines (split b'\n' block) (codes "message", [])

abbrev pub is_nonempty : Text → Bool
is_nonempty [] = false
is_nonempty (c ∷ cs) = true

module _ {A : Type 0} (parse : Text → Option A) (is_alive : Bool) where
  -- `resolve(JSON.parse(data))`, or `reject`.
  pub parsed : Text → Promise A
  parsed text = elim (parse text) [ none ↦ rejected (not_json text) | some a ↦ resolved a ]

  pub on_event : Text × Text → Output A → Output A
  on_event (event_type, text) o =
      if codes_eq event_type (codes "progress") && is_nonempty text
      then (if is_alive then record o { progress = o.progress ++ text ∷ [] } else o)
      else if codes_eq event_type (codes "result")
      then record o { settled = true; promise = parsed text }
      else if codes_eq event_type (codes "error")
      then record o { settled = true; promise = rejected (scan_failed text) }
      else o

  -- The loop over the blocks, which returns once the promise is settled.
  pub on_blocks : List Text → Output A → Output A
  on_blocks [] o = o
  on_blocks (b ∷ bs) o = on_blocks bs (if o.settled then o else on_event (read_block b) o)

  -- `decode` is `chunk.toString()`, of each chunk by itself.
  pub on_data : (List ℕ → Text) → List ℕ → Stream A → Stream A
  on_data decode chunk s =
      let (blocks, rest) = cut_blocks (s.buffer ++ decode chunk) in
      if s.output.settled then s else record { buffer = rest; output = on_blocks blocks s.output }

  pub on_chunks : (List ℕ → Text) → List (List ℕ) → Stream A → Stream A
  on_chunks decode [] s = s
  on_chunks decode (c ∷ cs) s = on_chunks decode cs (on_data decode c s)

  pub on_end : Stream A → Stream A
  on_end s =
      if not s.output.settled
      then record s { output = record s.output { promise = rejected closed } }
      else s

  -- A response that is not a stream of events.
  pub plain_response : (List ℕ → Text) → ℕ → List (List ℕ) → Promise A
  plain_response decode status chunks =
      let body = joined (map decode chunks) in
      if not (eqb status 200) then rejected (returned status body) else parsed body
