-- ===== src/Chunker/Bounds.antt =====
-- How long the parts of a text are (split of
-- apis/knowledge-base-api/src/services/MarkdownChunkerService.ts).
use homelab_apps.Prelude.{
  ℕ, ◌+◌, ◌/◌, ◌≤◌, ◌≡◌, refl, Bool, true, false, not, ◌&&◌, List, [], ◌∷◌, ◌++◌, ltb, leb, length,
  arith, inl, inr, Bool-cases, All, All-append, length-append,
}
use homelab_apps.Prelude.Text.{Units}
use homelab_apps.Chunker.Table.{lines, is_table}
use homelab_apps.Chunker.Pieces.{Within, hard_split-Within, hard_split-Within_plain}
use homelab_apps.Chunker.{
  sum_lengths, joined_length, join, is_empty, hard_split, fit_all, carry, fill, paragraphs, split,
  tail,
}

length-join : (ps : List Units) → length (join ps) ≡ joined_length ps
unfolding join joined_length sum_lengths
length-join [] = refl
length-join (p ∷ []) = omega arith
length-join (p ∷ q ∷ ps) =
    omega (arith, length-append p (10 ∷ 10 ∷ join (q ∷ ps)), length-join (q ∷ ps))

module _ (max_chars overlap_chars bound : ℕ) (wide : max_chars ≤ bound) where
  joined_single : (p : Units) → length p ≤ bound → joined_length (p ∷ []) ≤ bound
  unfolding joined_length sum_lengths
  joined_single p short = omega arith

  within_of_fits : (n : ℕ) → ltb max_chars n ≡ false → n ≤ bound
  within_of_fits n fits = ground (arith, fits, wide)

  -- A paragraph that fits, with what the part before it hands on.
  joined-carry :
      (current : List Units) (p : Units)
      → length p ≤ bound
      → joined_length (carry max_chars overlap_chars current p ++ p ∷ []) ≤ bound
  unfolding carry
  joined-carry current p short =
      elim (Bool-cases (ltb max_chars (joined_length (tail current overlap_chars ++ p ∷ [])))) [
        | inl long ↦ rw long (joined_single p short)
        | inr fits ↦
            rw fits (within_of_fits (joined_length (tail current overlap_chars ++ p ∷ [])) fits)
      ]

  joined-next :
      (current : List Units) (p : Units)
      → length p ≤ bound
      → (not (is_empty current) && ltb max_chars (joined_length (current ++ p ∷ []))) ≡ false
      → joined_length (current ++ p ∷ []) ≤ bound
  joined-next [] p short room = joined_single p short
  joined-next (q ∷ current) p short room =
      within_of_fits (joined_length (q ∷ current ++ p ∷ [])) room

  fill-Within :
      (ps current : List Units)
      → All (Within bound) ps
      → joined_length current ≤ bound
      → All (Within bound) (fill max_chars overlap_chars ps current)
  unfolding fill
  fill-Within [] [] short h = tt
  fill-Within [] (q ∷ current) short h = (rw (length-join (q ∷ current)) h, tt)
  fill-Within (p ∷ ps) current (short, rest) h =
      elim (Bool-cases
        (not (is_empty current) && ltb max_chars (joined_length (current ++ p ∷ [])))) [
          | inl full ↦ rw full (
            rw (length-join current) h,
            fill-Within ps (carry max_chars overlap_chars current p ++ p ∷ []) rest
                (joined-carry current p short),
          )
          | inr room ↦
              rw room (fill-Within ps (current ++ p ∷ []) rest (joined-next current p short room))
        ]

fit_all-Within :
    (max_chars : ℕ) (ps : List Units)
    → All (Within (max_chars + max_chars / 2)) (fit_all max_chars ps)
unfolding fit_all
fit_all-Within max_chars [] = tt
fit_all-Within max_chars (p ∷ ps) = elim (Bool-cases (ltb max_chars (length p))) [
  | inl long ↦ rw long (
      All-append (Within (max_chars + max_chars / 2)) (hard_split max_chars p)
        (fit_all max_chars ps) (hard_split-Within max_chars p) (fit_all-Within max_chars ps))
  | inr fits ↦ rw fits (ground (arith, fits), fit_all-Within max_chars ps)
]

-- No paragraph that is too long is a table.
abbrev pub IsPlain : ℕ → Units → Type 0
IsPlain max_chars p = (ltb max_chars (length p) && is_table (lines p)) ≡ false

not_table_of_plain : (b t : Bool) → b ≡ true → (b && t) ≡ false → t ≡ false
not_table_of_plain b t long plain = ground (arith, long, plain)

fit_all-Within_plain :
    (max_chars : ℕ) (ps : List Units)
    → All (IsPlain max_chars) ps
    → All (Within max_chars) (fit_all max_chars ps)
unfolding fit_all
fit_all-Within_plain max_chars [] plain = tt
fit_all-Within_plain max_chars (p ∷ ps) (plain, rest) =
    elim (Bool-cases (ltb max_chars (length p))) [
      | inl long ↦ rw long (
          All-append (Within max_chars) (hard_split max_chars p) (fit_all max_chars ps)
            (hard_split-Within_plain max_chars p
              (not_table_of_plain (ltb max_chars (length p)) (is_table (lines p)) long plain))
            (fit_all-Within_plain max_chars ps rest))
      | inr fits ↦ rw fits (ground (arith, fits), fit_all-Within_plain max_chars ps rest)
    ]

joined-nothing : (n : ℕ) → joined_length [] ≤ n
unfolding joined_length sum_lengths
joined-nothing n = omega arith

-- No part of a text is longer than the limit and a half, whatever the text and the overlap.
pub split-Within :
    (is_not_empty : Units → Bool) (body : Units) (max_chars overlap_chars : ℕ)
    → All (Within (max_chars + max_chars / 2)) (split is_not_empty body max_chars overlap_chars)
unfolding split
split-Within is_not_empty body max_chars overlap_chars =
    elim (Bool-cases (leb (length body) max_chars)) [
      | inl fits ↦ rw fits (ground (arith, fits), tt)
      | inr long ↦ rw long (
          fill-Within max_chars overlap_chars (max_chars + max_chars / 2) (omega arith)
            (fit_all max_chars (paragraphs is_not_empty body)) []
            (fit_all-Within max_chars (paragraphs is_not_empty body))
            (joined-nothing (max_chars + max_chars / 2)))
    ]

-- No part of a text is longer than the limit, where no paragraph that is too long is a table.
pub split-Within_plain :
    (is_not_empty : Units → Bool) (body : Units) (max_chars overlap_chars : ℕ)
    → All (IsPlain max_chars) (paragraphs is_not_empty body)
    → All (Within max_chars) (split is_not_empty body max_chars overlap_chars)
unfolding split
split-Within_plain is_not_empty body max_chars overlap_chars plain =
    elim (Bool-cases (leb (length body) max_chars)) [
      | inl fits ↦ rw fits (ground (arith, fits), tt)
      | inr long ↦ rw long (
          fill-Within max_chars overlap_chars max_chars (omega arith)
            (fit_all max_chars (paragraphs is_not_empty body)) []
            (fit_all-Within_plain max_chars (paragraphs is_not_empty body) plain)
            (joined-nothing max_chars))
    ]
