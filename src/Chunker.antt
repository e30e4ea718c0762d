-- ===== src/Chunker.antt =====
-- The cut of a section's text into parts for embedding (split, paragraphs, hardSplit and the helpers of
-- apis/knowledge-base-api/src/services/MarkdownChunkerService.ts, with markdown/FenceTracker.ts). A text
-- is the list of its UTF-16 code units; whether StringUtils calls a line empty is a parameter.
pub mod Fence
pub mod Table
pub mod Pieces
pub mod Bounds
pub mod Joined
pub mod Kept
pub mod Blocks
pub mod Cover
use homelab_apps.Prelude.{
  ℕ, zero, suc, ◌+◌, ◌-◌, ◌*◌, Bool, true, false, not, ◌&&◌, List, [], ◌∷◌, ◌++◌, if◌then◌else◌,
  ltb, leb, length, take, drop,
}
use homelab_apps.Prelude.Text.{Units}
use homelab_apps.Chunker.Fence.{FenceTracker, no_fence, is_inside, consume}
use homelab_apps.Chunker.Table.{lines, is_table}

-- joinedLength: the lengths, and two line feeds between each two
unfoldable pub sum_lengths : List Units → ℕ
sum_lengths [] = 0
sum_lengths (p ∷ ps) = length p + sum_lengths ps

unfoldable pub joined_length : List Units → ℕ
joined_length ps = sum_lengths ps + (length ps - 1) * 2

-- `paragraphs.join('\n\n')`
unfoldable pub join : List Units → Units
join [] = []
join (p ∷ []) = p
join (p ∷ q ∷ ps) = p ++ (10 ∷ 10 ∷ join (q ∷ ps))

-- The loop of tail, down from `i`: what is kept are the paragraphs behind `i`.
unfoldable pub tail_from : ℕ → List Units → ℕ → List Units
tail_from zero ps budget = ps
tail_from (suc i) ps budget =
    let more = tail_from i ps budget in
    if ltb budget (joined_length (drop i ps)) then drop (suc i) ps else more

-- tail
unfoldable pub tail : List Units → ℕ → List Units
tail ps budget = tail_from (length ps) ps budget

abbrev pub is_empty {ℓ} : {A : Type ℓ} → List A → Bool
is_empty [] = true
is_empty (x ∷ xs) = false

-- `buffer.join('\n')`
unfoldable pub join_lines : List Units → Units
join_lines [] = []
join_lines (p ∷ []) = p
join_lines (p ∷ q ∷ ps) = p ++ (10 ∷ join_lines (q ∷ ps))

unfoldable pub flush : List Units → List Units
flush [] = []
flush (line ∷ buffer) = join_lines (line ∷ buffer) ∷ []

-- The loop of paragraphs over the lines of a body.
unfoldable pub paragraphs_from :
    (Units → Bool) → List Units → FenceTracker → List Units → List Units
paragraphs_from is_not_empty [] fences buffer = flush buffer
paragraphs_from is_not_empty (line ∷ rest) fences buffer =
    let blank = not (is_inside fences) && not (is_not_empty line) in
    let later =
      paragraphs_from is_not_empty rest (if blank then fences else consume line fences)
        (if blank then [] else buffer ++ line ∷ []) in
    if blank then flush buffer ++ later else later

-- paragraphs
unfoldable pub paragraphs : (Units → Bool) → Units → List Units
paragraphs is_not_empty body = paragraphs_from is_not_empty (lines body) no_fence []

-- The inner loop of hardSplit: the pieces of one line; more rounds than it has units are never needed.
unfoldable pub slices : ℕ → ℕ → Units → List Units
slices zero max_chars line = []
slices (suc fuel) max_chars line =
    let rest = slices fuel max_chars (drop max_chars line) in
    take max_chars line ∷ (if ltb max_chars (length line) then rest else [])

unfoldable pub all_slices : ℕ → List Units → List Units
all_slices max_chars [] = []
all_slices max_chars (line ∷ rest) =
    slices (length line + 1) max_chars line ++ all_slices max_chars rest

-- `CommonUtils.isEmpty(buffer) ? piece : `${buffer}\n${piece}``
unfoldable pub append_piece : Units → Units → Units
append_piece buffer piece = if is_empty buffer then piece else buffer ++ (10 ∷ piece)

-- The loop of hardSplit over all pieces.
unfoldable pub pack : ℕ → Units → List Units → Units → Bool → List Units
pack max_chars header [] buffer has_rows = if has_rows then buffer ∷ [] else []
pack max_chars header (piece ∷ pieces) buffer has_rows =
    let full = has_rows && ltb max_chars (length buffer + 1 + length piece) in
    let rest =
      pack max_chars header pieces (append_piece (if full then header else buffer) piece) true in
    if full then buffer ∷ rest else rest

-- `isTable(lines) && lines[0].length + lines[1].length + 2 < maxChars / 2 ? lines.slice(0, 2) : []`
unfoldable pub header_of : ℕ → List Units → List Units
header_of max_chars (first ∷ second ∷ rest) =
    if is_table (first ∷ second ∷ rest) && ltb (2 * (length first + length second + 2)) max_chars
    then first ∷ second ∷ []
    else []
header_of max_chars _ = []

-- hardSplit
unfoldable pub hard_split : ℕ → Units → List Units
hard_split max_chars paragraph =
    let header = header_of max_chars (lines paragraph) in
    let header_text = join_lines header in
    pack max_chars header_text (all_slices max_chars (drop (length header) (lines paragraph)))
      header_text false

-- `paragraph.length > maxChars ? this.hardSplit(paragraph, maxChars) : [paragraph]`, of all
unfoldable pub fit_all : ℕ → List Units → List Units
fit_all max_chars [] = []
fit_all max_chars (p ∷ ps) =
    (if ltb max_chars (length p) then hard_split max_chars p else p ∷ []) ++ fit_all max_chars ps

-- What a new part begins with: the tail of the last one, if the next paragraph fits behind it.
unfoldable pub carry : ℕ → ℕ → List Units → Units → List Units
carry max_chars overlap_chars current p =
    let overlap = tail current overlap_chars in
    if ltb max_chars (joined_length (overlap ++ p ∷ [])) then [] else overlap

-- The loop of split.
unfoldable pub fill : ℕ → ℕ → List Units → List Units → List Units
fill max_chars overlap_chars [] current = if is_empty current then [] else join current ∷ []
fill max_chars overlap_chars (p ∷ ps) current =
    let full = not (is_empty current) && ltb max_chars (joined_length (current ++ p ∷ [])) in
    let kept = if full then carry max_chars overlap_chars current p else current in
    let rest = fill max_chars overlap_chars ps (kept ++ p ∷ []) in
    if full then join current ∷ rest else rest

-- split
unfoldable pub split : (Units → Bool) → Units → ℕ → ℕ → List Units
split is_not_empty body max_chars overlap_chars =
    if leb (length body) max_chars
    then body ∷ []
    else fill max_chars overlap_chars (fit_all max_chars (paragraphs is_not_empty body)) []
