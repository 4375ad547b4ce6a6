-- ===== src/Main/Scan/Tests.antt =====
-- The answers to a scan at concrete inputs. JSON.parse gives back the text here.
use podscape.Common.{
  ℕ, ltb, ◌&&◌, if◌then◌else◌, ◌+◌, ◌-◌, ◌*◌, ◌++◌, true, Option, some, List, [], ◌∷◌, codes, ◌≡◌,
  refl,
}
use podscape.Common.Splits.{Text, split}
use podscape.Main.Scan.{
  resolved, rejected, scan_failed, closed, returned, opened, joined, cut_blocks, is_break,
  read_line, read_block, parsed, on_event, on_blocks, on_data, on_chunks, on_end, plain_response,
}
use podscape.Main.Scan.Whole.{on_chunks-blocks}

abbrev parse : Text → Option Text
parse text = some text

-- UTF-8 of one and two bytes; a byte that is left alone is the replacement character.
abbrev utf8 : List ℕ → Text
utf8 [] = []
utf8 (c ∷ []) = (if ltb c 128 then c else 65533) ∷ []
utf8 (c ∷ d ∷ cs) =
    let one = utf8 (d ∷ cs) in
    let two = utf8 cs in
    if ltb c 128
    then c ∷ one
    else if ltb 191 c && (ltb 127 d && ltb d 192)
    then ((c - 192) * 64 + (d - 128)) ∷ two
    else 65533 ∷ one

-- Three chunks, cut inside a line and between two line feeds.
abbrev chunks : List (List ℕ)
chunks =
    codes "event: progress\nda"
    ∷ codes "ta: 10%\n"
    ∷ codes "\nevent: result\ndata: {}\n\nevent: error\ndata: late\n\n"
    ∷ []

first_result :
    let o = (on_end parse true (on_chunks parse true utf8 chunks opened)).output in
    (o.progress ≡ codes "10%" ∷ []) × (o.promise ≡ resolved (codes "{}"))
unfolding on_end on_chunks on_data on_blocks on_event parsed read_block read_line cut_blocks
    is_break split
first_result = (refl, refl)

failed_scan :
    (on_chunks parse true utf8
      (codes "event: error\ndata: no trivy\n\n" ∷ [])
      opened).output.promise
    ≡ rejected (scan_failed (codes "no trivy"))
unfolding on_chunks on_data on_blocks on_event parsed read_block read_line cut_blocks is_break split
failed_scan = refl

closed_early :
    (on_end parse true
      (on_chunks parse true utf8 (codes "event: result\ndata: {" ∷ []) opened)).output.promise
    ≡ rejected closed
unfolding on_end on_chunks on_data on_blocks cut_blocks is_break
closed_early = refl

plain_error :
    plain_response parse true utf8 503 (codes "bu" ∷ codes "sy" ∷ [])
    ≡ rejected (returned 503 (codes "busy"))
unfolding plain_response
plain_error = refl

-- A character of two bytes, cut between them, does not reach the renderer.
cut_character :
    let o =
      (on_chunks parse true utf8
        ((codes "event: progress\ndata: " ++ 195 ∷ []) ∷ (169 ∷ codes "\n\n") ∷ [])
        opened).output in
    o.progress ≡ (65533 ∷ 65533 ∷ []) ∷ []
unfolding on_chunks on_data on_blocks on_event read_block read_line cut_blocks is_break split
cut_character = refl

-- The same bytes in whole characters.
abbrev whole : List (List ℕ)
whole = codes "event: progress\nda" ∷ (codes "ta: " ++ 195 ∷ 169 ∷ codes "\n") ∷ codes "\n" ∷ []

on_chunks-blocks_example :
    (on_chunks parse true utf8 whole opened).output
    ≡ on_blocks parse true (cut_blocks (utf8 (joined whole))).0 (opened {A = Text}).output
on_chunks-blocks_example = on_chunks-blocks parse true utf8 whole refl
