-- ===== src/Chunker/Joined.antt =====
-- What the joins and the cut into lines of apis/knowledge-base-api/src/services/MarkdownChunkerService.ts
-- come to.
-- The texts with the separator between them.
use homelab_apps.Prelude.{
  ℕ, ◌≡◌, refl, sym, ap, ◌∙◌, inl, inr, List, [], ◌∷◌, ◌++◌, map, arith, ◌==◌, Bool-cases,
}
use homelab_apps.Chunker.{join, join_lines, Units}
use homelab_apps.Chunker.Table.{lines, add_unit, line_feed}
use homelab_apps.Prelude.Text.{Units}

abbrev pub joined_by : Units → List Units → Units
joined_by separator [] = []
joined_by separator (p ∷ []) = p
joined_by separator (p ∷ q ∷ ps) = p ++ (separator ++ joined_by separator (q ∷ ps))

abbrev pub feed : Units
feed = 10 ∷ []

abbrev pub blank_line : Units
blank_line = 10 ∷ 10 ∷ []

pub join-eq-joined_by : (ps : List Units) → join ps ≡ joined_by blank_line ps
unfolding join
join-eq-joined_by [] = refl
join-eq-joined_by (p ∷ []) = refl
join-eq-joined_by (p ∷ q ∷ ps) = ap (λ t. p ++ (blank_line ++ t)) (join-eq-joined_by (q ∷ ps))

pub join_lines-eq-joined_by : (ps : List Units) → join_lines ps ≡ joined_by feed ps
unfolding join_lines
join_lines-eq-joined_by [] = refl
join_lines-eq-joined_by (p ∷ []) = refl
join_lines-eq-joined_by (p ∷ q ∷ ps) = ap (λ t. p ++ (feed ++ t)) (join_lines-eq-joined_by (q ∷ ps))

joined-empty_unit :
    (c : ℕ) (ls : List Units)
    → joined_by feed ([] ∷ add_unit c ls) ≡ 10 ∷ joined_by feed (add_unit c ls)
unfolding add_unit
joined-empty_unit c [] = refl
joined-empty_unit c (line ∷ rest) = refl

-- There is a line behind every line feed.
joined-empty_line :
    (text : Units) → joined_by feed ([] ∷ lines text) ≡ 10 ∷ joined_by feed (lines text)
unfolding lines
joined-empty_line [] = refl
joined-empty_line (c ∷ text) = elim (Bool-cases (c == line_feed)) [
  | inl feeds ↦ rw feeds refl
  | inr other ↦ rw other (joined-empty_unit c (lines text))
]

joined-add_unit : (c : ℕ) (ls : List Units) → joined_by feed (add_unit c ls) ≡ c ∷ joined_by feed ls
unfolding add_unit
joined-add_unit c [] = refl
joined-add_unit c (line ∷ []) = refl
joined-add_unit c (line ∷ next ∷ rest) = refl

-- The lines of a text make it up, with a line feed between them.
pub joined-lines : (text : Units) → joined_by feed (lines text) ≡ text
unfolding lines
joined-lines [] = refl
joined-lines (c ∷ text) = elim (Bool-cases (c == line_feed)) [
  | inl feeds ↦
      let same : c ≡ 10 = ground (arith, feeds) in
      rw feeds (
        joined-empty_line text
        ∙ ap (λ t. 10 ∷ t) (joined-lines text)
        ∙ ap (λ x. x ∷ text) (sym same))
  | inr other ↦ rw other (joined-add_unit c (lines text) ∙ ap (λ t. c ∷ t) (joined-lines text))
]

module _ {ℓ} {A : Type ℓ} where
  pub map-same : (f g : A → Units) → ((a : A) → f a ≡ g a) → (xs : List A) → map f xs ≡ map g xs
  map-same f g same [] = refl
  map-same f g same (a ∷ xs) =
      ap (λ t. t ∷ map f xs) (same a) ∙ ap (λ t. g a ∷ t) (map-same f g same xs)
