-- ===== src/Chunker/Pieces.antt =====
-- How long the pieces of an oversized paragraph are (hardSplit of
-- apis/knowledge-base-api/src/services/MarkdownChunkerService.ts).
use homelab_apps.Prelude.{
  length-take, ℕ, zero, suc, ◌+◌, ◌≤◌, ◌≡◌, Bool, true, false, ◌&&◌, List, [], ◌∷◌, ltb, length,
  drop, arith, inl, inr, Bool-cases, All, All-append, length-append, ◌/◌, ◌⊎◌, refl, ◌*◌, ◌<◌,
}
use homelab_apps.Prelude.Text.{Units}
use homelab_apps.Chunker.{
  slices, all_slices, append_piece, pack, join_lines, is_table, header_of, hard_split, lines,
}

abbrev pub Within : ℕ → Units → Type 0
Within n text = length text ≤ n

slices-Within :
    (fuel max_chars : ℕ) (line : Units) → All (Within max_chars) (slices fuel max_chars line)
unfolding slices
slices-Within zero max_chars line = tt
slices-Within (suc fuel) max_chars line = elim (Bool-cases (ltb max_chars (length line))) [
  | inl longer ↦
      rw longer (length-take max_chars line, slices-Within fuel max_chars (drop max_chars line))
  | inr whole ↦ rw whole (length-take max_chars line, tt)
]

all_slices-Within :
    (max_chars : ℕ) (rest : List Units) → All (Within max_chars) (all_slices max_chars rest)
unfolding all_slices
all_slices-Within max_chars [] = tt
all_slices-Within max_chars (line ∷ rest) =
    All-append (Within max_chars) (slices (length line + 1) max_chars line)
      (all_slices max_chars rest) (slices-Within (length line + 1) max_chars line)
      (all_slices-Within max_chars rest)

length-append_piece :
    (buffer piece : Units) → length (append_piece buffer piece) ≤ length buffer + 1 + length piece
unfolding append_piece
length-append_piece [] piece = omega arith
length-append_piece (c ∷ buffer) piece = omega (arith, length-append (c ∷ buffer) (10 ∷ piece))

module _ (max_chars bound : ℕ) (header : Units)
    (headed : (piece : Units)
      → length piece ≤ max_chars
      → length (append_piece header piece) ≤ bound)
    (wide : max_chars ≤ bound) where
  -- Before its first row the buffer is the header, and afterwards it is within the bound.
  abbrev Holds : Units → Bool → Type 0
  Holds buffer true = length buffer ≤ bound
  Holds buffer false = buffer ≡ header

  le_of_room : (n : ℕ) → (true && ltb max_chars n) ≡ false → n ≤ max_chars
  le_of_room n room = ground (arith, room)

  emitted-Within :
      (buffer : Units) (has_rows room : Bool)
      → (has_rows && room) ≡ true
      → Holds buffer has_rows
      → length buffer ≤ bound
  emitted-Within buffer true room full h = h
  emitted-Within buffer false room full h = absurd (ground (arith, full))

  next-Within :
      (buffer piece : Units) (has_rows : Bool)
      → length piece ≤ max_chars
      → Holds buffer has_rows
      → (has_rows && ltb max_chars (length buffer + 1 + length piece)) ≡ false
      → length (append_piece buffer piece) ≤ bound
  next-Within buffer piece false short h room = rw h (headed piece short)
  next-Within buffer piece true short h room =
      omega (
        arith,
        length-append_piece buffer piece,
        le_of_room (length buffer + 1 + length piece) room,
      )

  pack-Within :
      (pieces : List Units) (buffer : Units) (has_rows : Bool)
      → All (Within max_chars) pieces
      → Holds buffer has_rows
      → All (Within bound) (pack max_chars header pieces buffer has_rows)
  unfolding pack
  pack-Within [] buffer true short h = (h, tt)
  pack-Within [] buffer false short h = tt
  pack-Within (piece ∷ pieces) buffer has_rows (short, rest) h =
      elim (Bool-cases (has_rows && ltb max_chars (length buffer + 1 + length piece))) [
        | inl full ↦ rw full (
          emitted-Within buffer has_rows (ltb max_chars (length buffer + 1 + length piece)) full h,
          pack-Within pieces (append_piece header piece) true rest (headed piece short),
        )
        | inr room ↦ rw room (
            pack-Within pieces (append_piece buffer piece) true rest
              (next-Within buffer piece has_rows short h room))
      ]

short_of_both : (t : Bool) (n m : ℕ) → (t && ltb (2 * n) m) ≡ true → 2 * n < m
short_of_both t n m h = ground (arith, h)

-- A header is short enough for half of a piece.
length-header_of :
    (max_chars : ℕ) (ls : List Units)
    → length (join_lines (header_of max_chars ls)) + 1 ≤ max_chars / 2 ⊎ header_of max_chars ls ≡ []
unfolding header_of join_lines
length-header_of max_chars [] = inr refl
length-header_of max_chars (first ∷ []) = inr refl
length-header_of max_chars (first ∷ second ∷ rest) =
    elim (Bool-cases (
      is_table (first ∷ second ∷ rest) && ltb (2 * (length first + length second + 2)) max_chars)) [
        | inl both ↦ rw both (
            inl (
              omega (
                arith,
                length-append first (10 ∷ second),
                short_of_both (is_table (first ∷ second ∷ rest)) (length first + length second + 2)
                    max_chars both,
              )))
        | inr other ↦ rw other (inr refl)
      ]

-- What a piece is to be within: half as much again as the limit, for the header before it.
append_piece-Within :
    (max_chars : ℕ) (header piece : Units)
    → length header + 1 ≤ max_chars / 2
    → length piece ≤ max_chars
    → length (append_piece header piece) ≤ max_chars + max_chars / 2
append_piece-Within max_chars header piece h short = omega (arith, length-append_piece header piece)

append_piece-Within_empty :
    (bound : ℕ) (piece : Units) → length piece ≤ bound → length (append_piece [] piece) ≤ bound
unfolding append_piece
append_piece-Within_empty bound piece short = short

pub hard_split-Within :
    (max_chars : ℕ) (paragraph : Units)
    → All (Within (max_chars + max_chars / 2)) (hard_split max_chars paragraph)
unfolding hard_split
hard_split-Within max_chars paragraph =
    let header = header_of max_chars (lines paragraph) in
    let pieces = all_slices max_chars (drop (length header) (lines paragraph)) in
    pack-Within max_chars (max_chars + max_chars / 2) (join_lines header)
      (λ piece short. elim (length-header_of max_chars (lines paragraph)) [
        | inl small ↦ append_piece-Within max_chars (join_lines header) piece small short
        | inr no_header ↦ rw no_header (
            unfold join_lines in
            append_piece-Within_empty (max_chars + max_chars / 2) piece (omega arith))
      ])
      (omega arith) pieces (join_lines header) false
      (all_slices-Within max_chars (drop (length header) (lines paragraph))) refl

header_of-plain :
    (max_chars : ℕ) (ls : List Units) → is_table ls ≡ false → header_of max_chars ls ≡ []
unfolding header_of
header_of-plain max_chars [] h = refl
header_of-plain max_chars (first ∷ []) h = refl
header_of-plain max_chars (first ∷ second ∷ rest) h = rw h refl

pub hard_split-Within_plain :
    (max_chars : ℕ) (paragraph : Units)
    → is_table (lines paragraph) ≡ false
    → All (Within max_chars) (hard_split max_chars paragraph)
unfolding hard_split join_lines
hard_split-Within_plain max_chars paragraph h = rw (header_of-plain max_chars (lines paragraph) h) (
    pack-Within max_chars max_chars [] (append_piece-Within_empty max_chars) (omega arith)
      (all_slices max_chars (lines paragraph)) [] false
      (all_slices-Within max_chars (lines paragraph)) refl)
