-- ===== src/Chunker/Blocks.antt =====
-- The blocks that an oversized paragraph is cut into (hardSplit of
-- apis/knowledge-base-api/src/services/MarkdownChunkerService.ts).
-- The text with the pieces behind it, each on a line of its own; an empty text makes no line.
use mathlib.Core.List.{append_assoc}
use mathlib.Core.Path.{subst}
use homelab_apps.Prelude.{
  ℕ, ◌+◌, ◌*◌, ◌≤◌, ◌<◌, ◌≡◌, refl, sym, ap, ◌∙◌, ◌⊎◌, inl, inr, Bool, true, false, ◌&&◌, List, [],
  ◌∷◌, ◌++◌, map, arith, ltb, if◌then◌else◌, Bool-cases, length, drop,
}
use homelab_apps.Chunker.{
  is_empty, join_lines, slices, all_slices, append_piece, pack, header_of, hard_split, fit_all,
  Units,
}
use homelab_apps.Chunker.Table.{lines, is_table}
use homelab_apps.Chunker.Kept.{concat, concat-slices, flat}
use homelab_apps.Prelude.Text.{Units}
use homelab_apps.Chunker.Joined.{joined_by, feed, join_lines-eq-joined_by, joined-lines, map-same}

abbrev pub stacked : Units → List Units → Units
stacked text [] = text
stacked text (piece ∷ pieces) =
    stacked (if is_empty text then piece else text ++ (10 ∷ piece)) pieces

-- The pieces of all lines, in order; those of a line make it up.
abbrev pub Sliced : List Units → List Units → Type 0
Sliced [] pieces = pieces ≡ []
Sliced (line ∷ rest) pieces =
    (cut : List Units) × (later : List Units) × (pieces ≡ cut ++ later)
    × (concat cut ≡ line)
    × Sliced rest later

-- The blocks of a paragraph: a header of two of its lines or of none, and below it the pieces of its
-- other lines, some of them in each block.
abbrev pub CutUp : Units → List Units → Type 0
CutUp p blocks =
    (header : List Units) × (rest : List Units) × (groups : List (List Units)) × (joined_by feed
        (header ++ rest)
      ≡ p)
    × ((length header ≡ 0) ⊎ (length header ≡ 2))
    × Sliced rest (flat groups)
    × (blocks ≡ map (stacked (joined_by feed header)) groups)

-- A paragraph within the limit is kept as it is, and a longer one is cut.
abbrev pub Fitted : ℕ → Units → List Units → Type 0
Fitted max_chars p blocks =
    ((length p ≤ max_chars) × (blocks ≡ p ∷ [])) ⊎ ((max_chars < length p) × CutUp p blocks)

abbrev pub Blocks : ℕ → List Units → List Units → Type 0
Blocks max_chars [] blocks = blocks ≡ []
Blocks max_chars (p ∷ ps) blocks =
    (first : List Units) × (later : List Units) × (blocks ≡ first ++ later)
    × Fitted max_chars p first
    × Blocks max_chars ps later

all_slices-Sliced :
    (max_chars : ℕ) (rest : List Units) → 1 ≤ max_chars → Sliced rest (all_slices max_chars rest)
unfolding all_slices
all_slices-Sliced max_chars [] wide = refl
all_slices-Sliced max_chars (line ∷ rest) wide = (
  slices (length line + 1) max_chars line,
  all_slices max_chars rest,
  refl,
  concat-slices max_chars line wide,
  all_slices-Sliced max_chars rest wide,
)

stacked-append_piece :
    (text : Units) (g : List Units) (piece : Units)
    → stacked text (g ++ piece ∷ []) ≡ append_piece (stacked text g) piece
unfolding append_piece
stacked-append_piece text [] piece = refl
stacked-append_piece text (x ∷ g) piece =
    stacked-append_piece (if is_empty text then x else text ++ (10 ∷ x)) g piece

module _ (max_chars : ℕ) (header : Units) where
  -- The blocks hold the pieces, in order.
  abbrev Packed : List Units → List Units → Type 0
  Packed pieces blocks =
      (groups : List (List Units)) × (blocks ≡ map (stacked header) groups) × (flat groups ≡ pieces)

  -- The buffer holds the pieces `g`.
  pack-Packed :
      (pieces g : List Units) (buffer : Units) (has_rows : Bool)
      → buffer ≡ stacked header g
      → (has_rows ≡ false → g ≡ [])
      → Packed (g ++ pieces) (pack max_chars header pieces buffer has_rows)
  unfolding pack
  pack-Packed [] g buffer true same fresh = (g ∷ [], ap (λ t. t ∷ []) same, refl)
  pack-Packed [] g buffer false same fresh = ([], refl, sym (ap (λ t. t ++ []) (fresh refl)))
  pack-Packed (piece ∷ pieces) g buffer has_rows same fresh =
      elim (Bool-cases (has_rows && ltb max_chars (length buffer + 1 + length piece))) [
        | inl full ↦
            let (groups, blocks, whole) =
              pack-Packed pieces (piece ∷ []) (append_piece header piece) true
                (sym (stacked-append_piece header [] piece)) (λ e. absurd (cc)) in
            rw full (
              g ∷ groups,
              ap (λ t. t ∷ pack max_chars header pieces (append_piece header piece) true) same
                  ∙ ap (λ t. stacked header g ∷ t) blocks,
              ap (λ t. g ++ t) whole,
            )
        | inr room ↦
            let (groups, blocks, whole) =
              pack-Packed pieces (g ++ piece ∷ []) (append_piece buffer piece) true
                (ap (λ t. append_piece t piece) same ∙ sym (stacked-append_piece header g piece))
                (λ e. absurd (cc)) in
            rw room (groups, blocks, whole ∙ append_assoc g (piece ∷ []) pieces)
      ]

header_of-lines :
    (max_chars : ℕ) (ls : List Units)
    → (header_of max_chars ls ++ drop (length (header_of max_chars ls)) ls ≡ ls)
      × ((length (header_of max_chars ls) ≡ 0) ⊎ (length (header_of max_chars ls) ≡ 2))
unfolding header_of
header_of-lines max_chars [] = (refl, inl refl)
header_of-lines max_chars (first ∷ []) = (refl, inl refl)
header_of-lines max_chars (first ∷ second ∷ rest) =
    elim (Bool-cases (
      is_table (first ∷ second ∷ rest) && ltb (2 * (length first + length second + 2)) max_chars)) [
        | inl both ↦ rw both (refl, inr refl)
        | inr other ↦ rw other (refl, inl refl)
      ]

hard_split-CutUp : (max_chars : ℕ) (p : Units) → 1 ≤ max_chars → CutUp p (hard_split max_chars p)
unfolding hard_split
hard_split-CutUp max_chars p wide =
    let header = header_of max_chars (lines p) in
    let rest = drop (length header) (lines p) in
    let (whole, size) = header_of-lines max_chars (lines p) in
    let (groups, blocks, same) =
      pack-Packed max_chars (join_lines header) (all_slices max_chars rest) [] (join_lines header)
        false refl (λ e. refl) in
    (
      header,
      rest,
      groups,
      ap (λ ls. joined_by feed ls) whole ∙ joined-lines p,
      size,
      subst (Sliced rest) (sym same) (all_slices-Sliced max_chars rest wide),
      blocks
          ∙ map-same (stacked (join_lines header)) (stacked (joined_by feed header))
              (λ g. ap (λ text. stacked text g) (join_lines-eq-joined_by header)) groups,
    )

fitted :
    (max_chars : ℕ) (p : Units)
    → 1 ≤ max_chars
    → Fitted max_chars p (if ltb max_chars (length p) then hard_split max_chars p else p ∷ [])
fitted max_chars p wide = elim (Bool-cases (ltb max_chars (length p))) [
  | inl long ↦ rw long (inr (ground arith, hard_split-CutUp max_chars p wide))
  | inr fits ↦ rw fits (inl (ground arith, refl))
]

pub fit_all-Blocks :
    (max_chars : ℕ) → 1 ≤ max_chars → (ps : List Units) → Blocks max_chars ps (fit_all max_chars ps)
unfolding fit_all
fit_all-Blocks max_chars wide [] = refl
fit_all-Blocks max_chars wide (p ∷ ps) = (
  (if ltb max_chars (length p) then hard_split max_chars p else p ∷ []),
  fit_all max_chars ps,
  refl,
  fitted max_chars p wide,
  fit_all-Blocks max_chars wide ps,
)
