-- ===== src/Chunker/Cover.antt =====
-- That no paragraph is lost between the parts, and what they share (split and tail of
-- apis/knowledge-base-api/src/services/MarkdownChunkerService.ts).
use homelab_apps.Prelude.{ℕ, ◌≤◌, ◌≡◌, List, [], ◌∷◌, ◌++◌, map}
use homelab_apps.Prelude.Text.{Units}
use homelab_apps.Chunker.{joined_length}
use homelab_apps.Chunker.Blocks.{Blocks}
use homelab_apps.Chunker.Joined.{joined_by, blank_line}

-- The end of a list.
abbrev pub IsEndOf : List Units → List Units → Type 0
IsEndOf kept ps = (front : List Units) × (front ++ kept ≡ ps)

-- What one part hands on to the next.
abbrev pub Hands : ℕ → List Units → List Units → Type 0
Hands overlap_chars current kept = IsEndOf kept current × (joined_length kept ≤ overlap_chars)

-- A part by its paragraphs: those that the part before it had, and its own.
abbrev pub Group : Type 0
Group = List Units × List Units

abbrev pub text_of : Group → Units
text_of (kept, fresh) = joined_by blank_line (kept ++ fresh)

abbrev pub own : List Group → List Units
own [] = []
own ((kept, fresh) ∷ groups) = fresh ++ own groups

-- Each part repeats at most the end of the one before it, within the overlap.
abbrev pub Chained : ℕ → List Units → List Group → Type 0
Chained overlap_chars before [] = Unit
Chained overlap_chars before ((kept, fresh) ∷ groups) =
    Hands overlap_chars before kept × Chained overlap_chars (kept ++ fresh) groups

abbrev pub Covers : ℕ → List Units → List Units → List Units → Type 0
Covers overlap_chars before ps parts =
    (groups : List Group) × (parts ≡ map text_of groups)
    × (own groups ≡ ps)
    × Chained overlap_chars before groups
