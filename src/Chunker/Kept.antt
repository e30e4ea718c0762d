-- ===== src/Chunker/Kept.antt =====
-- That no line is lost in the paragraphs, and no piece of a line in the blocks that an oversized one is cut
-- into (paragraphs and hardSplit of apis/knowledge-base-api/src/services/MarkdownChunkerService.ts).
use mathlib.Core.List.{append-nil, append_assoc, map-append}
use homelab_apps.Prelude.{
  ℕ, zero, suc, ◌+◌, ◌≤◌, ◌<◌, ◌≡◌, refl, sym, ap, ◌∙◌, inl, inr, Bool, true, false, not, ◌&&◌,
  List, [], ◌∷◌, ◌++◌, map, arith, ltb, Bool-cases, length, take, drop, length-drop,
}
use homelab_apps.Chunker.{slices, flush, paragraphs_from, Units}
use homelab_apps.Chunker.Fence.{FenceTracker, is_inside, consume}
use homelab_apps.Prelude.Text.{Units}
use homelab_apps.Chunker.Joined.{joined_by, feed, join_lines-eq-joined_by}

module _ {ℓ} {A : Type ℓ} where
  pub take-drop : (n : ℕ) (xs : List A) → take n xs ++ drop n xs ≡ xs
  take-drop zero xs = refl
  take-drop (suc n) [] = refl
  take-drop (suc n) (x ∷ xs) = ap (λ t. x ∷ t) (take-drop n xs)

abbrev pub concat : List Units → Units
concat [] = []
concat (x ∷ xs) = x ++ concat xs

take-all : (n : ℕ) (text : Units) → length text ≤ n → take n text ≡ text
take-all zero [] h = refl
take-all zero (c ∷ text) h = absurd (omega arith)
take-all (suc n) [] h = refl
take-all (suc n) (c ∷ text) h = ap (λ t. c ∷ t) (take-all n text (omega arith))

slices-lossless :
    (fuel max_chars : ℕ) (line : Units)
    → 1 ≤ max_chars
    → length line < fuel
    → concat (slices fuel max_chars line) ≡ line
unfolding slices
slices-lossless zero max_chars line wide enough = absurd (omega arith)
slices-lossless (suc fuel) max_chars line wide enough =
    elim (Bool-cases (ltb max_chars (length line))) [
      | inl longer ↦
          let over : max_chars < length line = ground (arith, longer) in
          rw
            (
              longer,
              slices-lossless fuel max_chars (drop max_chars line) wide
                  (omega (arith, length-drop max_chars line)),
            )
            (take-drop max_chars line)
      | inr whole ↦
          let fits : length line ≤ max_chars = ground (arith, whole) in
          rw whole (append-nil (take max_chars line) ∙ take-all max_chars line fits)
    ]

-- The pieces of a line hold all of it, in order: the rounds that the loop is given are enough for every
-- limit but 0.
pub concat-slices :
    (max_chars : ℕ) (line : Units)
    → 1 ≤ max_chars
    → concat (slices (length line + 1) max_chars line) ≡ line
concat-slices max_chars line wide =
    slices-lossless (length line + 1) max_chars line wide (omega arith)

abbrev pub flat : List (List Units) → List Units
flat [] = []
flat (g ∷ groups) = g ++ flat groups

-- Only blank lines are left out.
pub data LeavesOutBlank (is_not_empty : Units → Bool) : List Units → List Units → Type 0 where
  nothing : LeavesOutBlank is_not_empty [] []
  keeps :
      (line : Units) {all kept : List Units}
      → LeavesOutBlank is_not_empty all kept
      → LeavesOutBlank is_not_empty (line ∷ all) (line ∷ kept)
  leaves :
      (line : Units) {all kept : List Units}
      → is_not_empty line ≡ false
      → LeavesOutBlank is_not_empty all kept
      → LeavesOutBlank is_not_empty (line ∷ all) kept

-- The paragraphs are groups of lines, and their lines are those of the text but for blank ones.
abbrev Grouped : (Units → Bool) → List Units → List Units → List Units → Type 0
Grouped is_not_empty before all ps =
    (groups : List (List Units)) × (kept : List Units) × (ps ≡ map (joined_by feed) groups)
    × (flat groups ≡ before ++ kept)
    × LeavesOutBlank is_not_empty all kept

abbrev pub Paragraphs : (Units → Bool) → List Units → List Units → Type 0
Paragraphs is_not_empty all ps = Grouped is_not_empty [] all ps

flush-grouped :
    (buffer : List Units)
    → (groups : List (List Units)) × (flush buffer ≡ map (joined_by feed) groups)
      × (flat groups ≡ buffer)
unfolding flush
flush-grouped [] = ([], refl, refl)
flush-grouped (line ∷ buffer) = (
  (line ∷ buffer) ∷ [],
  ap (λ t. t ∷ []) (join_lines-eq-joined_by (line ∷ buffer)),
  append-nil (line ∷ buffer),
)

flat-append : (a b : List (List Units)) → flat (a ++ b) ≡ flat a ++ flat b
flat-append [] b = refl
flat-append (g ∷ a) b = ap (λ t. g ++ t) (flat-append a b) ∙ sym (append_assoc g (flat a) (flat b))

-- What is behind a blank line begins a paragraph of its own.
Grouped-flush :
    (is_not_empty : Units → Bool) (line : Units) (rest buffer later : List Units)
    → is_not_empty line ≡ false
    → Grouped is_not_empty [] rest later
    → Grouped is_not_empty buffer (line ∷ rest) (flush buffer ++ later)
Grouped-flush is_not_empty line rest buffer later blank (groups, kept, same, all, leaves_out) =
    let (first, parts, whole) = flush-grouped buffer in
    (
      first ++ groups,
      kept,
      ap (λ t. t ++ later) parts
          ∙ ap (λ t. map (joined_by feed) first ++ t) same
          ∙ sym (map-append (joined_by feed) first groups),
      flat-append first groups ∙ ap (λ t. t ++ flat groups) whole ∙ ap (λ t. buffer ++ t) all,
      leaves line blank leaves_out,
    )

blank_of : (inside full : Bool) → (not inside && not full) ≡ true → full ≡ false
blank_of inside full h = ground (arith, h)

pub paragraphs_from-Grouped :
    (is_not_empty : Units → Bool) (all : List Units) (fences : FenceTracker) (buffer : List Units)
    → Grouped is_not_empty buffer all (paragraphs_from is_not_empty all fences buffer)
unfolding paragraphs_from
paragraphs_from-Grouped is_not_empty [] fences buffer =
    let (groups, same, whole) = flush-grouped buffer in
    (groups, [], same, whole ∙ sym (append-nil buffer), nothing)
paragraphs_from-Grouped is_not_empty (line ∷ rest) fences buffer =
    elim (Bool-cases (not (is_inside fences) && not (is_not_empty line))) [
      | inl blank ↦ rw blank (
          Grouped-flush is_not_empty line rest buffer (paragraphs_from is_not_empty rest fences [])
            (blank_of (is_inside fences) (is_not_empty line) blank)
            (paragraphs_from-Grouped is_not_empty rest fences []))
      | inr text ↦ rw text (
          let (groups, kept, same, whole, leaves_out) =
            paragraphs_from-Grouped is_not_empty rest (consume line fences) (buffer ++ line ∷ []) in
          (
            groups,
            line ∷ kept,
            same,
            whole ∙ append_assoc buffer (line ∷ []) kept,
            keeps line leaves_out,
          ))
    ]
