-- ===== src/Tests/Chunks.antt =====
-- The cut of a text at work on a small body and on a table with one long row.
use homelab_apps.Prelude.{
  ℕ, ◌+◌, ◌/◌, ◌≡◌, refl, Bool, not, [], ◌∷◌, ◌++◌, length, replicate, map, All,
}
use homelab_apps.Prelude.Text.{Units, units}
use homelab_apps.Chunker.{is_empty, paragraphs, fit_all, split, slices}
use homelab_apps.Chunker.Pieces.{Within}
use homelab_apps.Chunker.Bounds.{IsPlain, split-Within, split-Within_plain}
use homelab_apps.Chunker.Blocks.{Blocks}

abbrev filled : Units → Bool
filled line = not (is_empty line)

abbrev feed : Units
feed = 10 ∷ []

-- Three paragraphs, the second a fenced block with a blank line in it.
abbrev body : Units
body =
    units "one"
    ++ feed
    ++ feed
    ++ units "```"
    ++ feed
    ++ feed
    ++ units "```"
    ++ feed
    ++ feed
    ++ units "three"

-- A proof that unfolds this cuts the text.
cutting : ℕ
unfolding split fit_all paragraphs slices homelab_apps.Chunker.fill
    homelab_apps.Chunker.joined_length homelab_apps.Chunker.sum_lengths
    homelab_apps.Chunker.all_slices homelab_apps.Chunker.append_piece homelab_apps.Chunker.carry
    homelab_apps.Chunker.hard_split homelab_apps.Chunker.header_of homelab_apps.Chunker.join
    homelab_apps.Chunker.pack homelab_apps.Chunker.tail homelab_apps.Chunker.tail_from
    homelab_apps.Chunker.paragraphs_from homelab_apps.Chunker.flush homelab_apps.Chunker.join_lines
    homelab_apps.Chunker.Table.lines homelab_apps.Chunker.Table.add_unit
    homelab_apps.Chunker.Table.ends_row homelab_apps.Chunker.Table.is_separator_row
    homelab_apps.Chunker.Table.is_space homelab_apps.Chunker.Table.is_table
    homelab_apps.Chunker.Table.skip_cell homelab_apps.Chunker.Table.skip_one
    homelab_apps.Chunker.Table.skip_space homelab_apps.Chunker.Table.starts_cell
    homelab_apps.Chunker.Fence.is_inside homelab_apps.Chunker.Fence.consume
    homelab_apps.Chunker.Fence.fence_open homelab_apps.Chunker.Fence.mark_of
    homelab_apps.Chunker.Fence.run_of homelab_apps.Chunker.Fence.skip_indent
    homelab_apps.Chunker.Fence.closes homelab_apps.Chunker.Fence.is_blank_rest
cutting = 0

three_parts :
    split filled body 8 3
    ≡ units "one" ∷ (units "```" ++ feed ++ feed ++ units "```") ∷ units "three" ∷ []
unfolding cutting
three_parts = refl

-- A table whose row is as long as the limit is not cut before it, so the part is longer.
abbrev table : Units
table = units "|a|b|" ++ feed ++ units "|---|---|" ++ feed ++ replicate 40 b'x'

long_part : map length (split filled table 40 0) ≡ 56 ∷ []
unfolding cutting
long_part = refl

split-Within_example : All (Within (40 + 40 / 2)) (split filled table 40 0)
split-Within_example = split-Within filled table 40 0

IsPlain-body : All (IsPlain 8) (paragraphs filled body)
unfolding cutting
IsPlain-body = (refl, (refl, (refl, tt)))

split-Within_plain_example : All (Within 8) (split filled body 8 3)
split-Within_plain_example = split-Within_plain filled body 8 3 IsPlain-body
