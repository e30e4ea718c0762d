-- ===== src/Chunker/Fence.antt =====
-- FenceTracker (apis/knowledge-base-api/src/markdown/FenceTracker.ts), with its two regular expressions
-- read as the scans that they are.
use homelab_apps.Prelude.{
  ℕ, zero, suc, Bool, true, false, ◌&&◌, ◌||◌, Option, none, some, [], ◌∷◌, if◌then◌else◌, ◌==◌,
  leb, is_some,
}
use homelab_apps.Prelude.Text.{Units}

-- `fence`: the mark's character and length
pub record Mark : Type 0 where
  pub char : ℕ
  pub length : ℕ

pub record FenceTracker : Type 0 where
  pub fence : Option Mark

abbrev pub no_fence : FenceTracker
no_fence = record { fence = none }

-- `inside`
unfoldable pub is_inside : FenceTracker → Bool
is_inside fences = is_some fences.fence

-- The run of one character at the head of a text, and what follows it.
unfoldable pub run_of : ℕ → Units → ℕ × Units
run_of char [] = (0, [])
run_of char (c ∷ rest) =
    let (n, after) = run_of char rest in if c == char then (suc n, after) else (0, c ∷ rest)

-- ` {0,3}`: up to three spaces, and what follows them where no fourth one stands.
unfoldable pub skip_indent : ℕ → Units → Units
skip_indent zero text = text
skip_indent (suc n) [] = []
skip_indent (suc n) (c ∷ rest) =
    let after = skip_indent n rest in if c == 32 then after else c ∷ rest

-- `(`{3,}|~{3,})`
unfoldable pub mark_of : ℕ → Units → Option (Mark × Units)
mark_of char text =
    let (n, after) = run_of char text in
    if leb 3 n then some (record { char = char; length = n }, after) else none

-- FENCE_OPEN
unfoldable pub fence_open : Units → Option (Mark × Units)
fence_open line =
    let text = skip_indent 3 line in
    let tildes = mark_of b'~' text in
    elim (mark_of b'`' text) [ some found ↦ some found | none ↦ tildes ]

-- `[ \t]*$`
unfoldable pub is_blank_rest : Units → Bool
is_blank_rest [] = true
is_blank_rest (c ∷ rest) = (c == 32 || c == 9) && is_blank_rest rest

-- Whether a line closes the fence of this mark (FENCE_CLOSE).
unfoldable pub closes : Option (Mark × Units) → Mark → Bool
closes none mark = false
closes (some (found, rest)) mark =
    is_blank_rest rest && found.char == mark.char && leb mark.length found.length

-- The state after `consume`.
unfoldable pub consume : Units → FenceTracker → FenceTracker
consume line fences = elim fences.fence [
  | some mark ↦ if closes (fence_open line) mark then no_fence else fences
  | none ↦ elim (fence_open line) [
    | some (mark, rest) ↦ record { fence = some mark }
    | none ↦ fences
  ]
]
