-- ===== src/Chunker/Table.antt =====
-- Lines, and which of them begin a table (isTable of
-- apis/knowledge-base-api/src/services/MarkdownChunkerService.ts), its regular expressions read as scans.
use homelab_apps.Prelude.{
  ℕ, zero, suc, ◌+◌, Bool, true, false, ◌&&◌, ◌||◌, Option, none, some, List, [], ◌∷◌,
  if◌then◌else◌, ◌==◌, leb, length,
}
use homelab_apps.Prelude.Text.{Units}
use homelab_apps.Chunker.Fence.{run_of}

abbrev pub line_feed : ℕ
line_feed = 10

-- `text.split('\n')`
unfoldable pub add_unit : ℕ → List Units → List Units
add_unit c [] = (c ∷ []) ∷ []
add_unit c (line ∷ rest) = (c ∷ line) ∷ rest

unfoldable pub lines : Units → List Units
lines [] = [] ∷ []
lines (c ∷ text) = let rest = lines text in if c == line_feed then [] ∷ rest else add_unit c rest

-- `\s`
unfoldable pub is_space : ℕ → Bool
is_space c =
    leb 9 c && leb c 13
    || c == 32
    || c == 0xa0
    || c == 0x1680
    || leb 0x2000 c && leb c 0x200a
    || c == 0x2028
    || c == 0x2029
    || c == 0x202f
    || c == 0x205f
    || c == 0x3000
    || c == 0xfeff

unfoldable pub skip_space : Units → Units
skip_space [] = []
skip_space (c ∷ rest) = let after = skip_space rest in if is_space c then after else c ∷ rest

-- An optional character.
unfoldable pub skip_one : ℕ → Units → Units
skip_one char [] = []
skip_one char (c ∷ rest) = if c == char then rest else c ∷ rest

-- `:?-{3,}:?\s*`
unfoldable pub skip_cell : Units → Option Units
skip_cell text =
    let (n, after) = run_of b'-' (skip_one b':' text) in
    if leb 3 n then some (skip_space (skip_one b':' after)) else none

-- `(\|\s*:?-{3,}:?\s*)*\|?\s*$`, on fuel
unfoldable pub ends_row : ℕ → Option Units → Bool
ends_row zero text = false
ends_row (suc fuel) none = false
ends_row (suc fuel) (some []) = true
ends_row (suc fuel) (some (c ∷ rest)) =
    let more = ends_row fuel (skip_cell (skip_space rest)) in
    c == b'|' && (leb (length (skip_space rest)) 0 || more)

-- `/^\s*\|?\s*:?-{3,}:?\s*(\|\s*:?-{3,}:?\s*)*\|?\s*$/.test(line)`; each round reads a unit.
unfoldable pub is_separator_row : Units → Bool
is_separator_row line =
    ends_row (length line + 1) (skip_cell (skip_space (skip_one b'|' (skip_space line))))

-- `/^\s*\|/.test(line)`
unfoldable pub starts_cell : Units → Bool
starts_cell [] = false
starts_cell (c ∷ rest) = c == b'|'

-- isTable
unfoldable pub is_table : List Units → Bool
is_table (first ∷ second ∷ rest) = starts_cell (skip_space first) && is_separator_row second
is_table _ = false
