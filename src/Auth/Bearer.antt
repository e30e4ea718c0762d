-- ===== src/Auth/Bearer.antt =====
-- The token of an Authorization header (extract of packages/auth/src/verifiers/JwtVerifier.ts), with what it uses of
-- JavaScript's strings.
use homelab_apps.Prelude.{
  ℕ, ◌+◌, Bool, false, ◌&&◌, Option, none, some, List, [], ◌∷◌, ◌++◌, leb, if◌then◌else◌,
}
use homelab_apps.Prelude.Text.{Units, units, units_eq}
use homelab_apps.Chunker.Table.{is_space, skip_space, add_unit}

-- `trim`, at the end of a text
abbrev put_unit : ℕ → Units → Units
put_unit c [] = if is_space c then [] else c ∷ []
put_unit c (next ∷ text) = c ∷ next ∷ text

unfoldable pub trim_end : Units → Units
unfolding is_space
trim_end [] = []
trim_end (c ∷ text) = put_unit c (trim_end text)

-- `trim`
unfoldable pub trim : Units → Units
unfolding trim_end skip_space
trim text = trim_end (skip_space text)

abbrev starts_with_space : Units → Bool
starts_with_space [] = false
starts_with_space (c ∷ text) = is_space c

-- `split(/\s+/)`
unfoldable pub words : Units → List Units
unfolding is_space
words [] = [] ∷ []
words (c ∷ text) =
    let later = words text in
    if is_space c then if starts_with_space text then later else [] ∷ later else add_unit c later

-- `rest.join(' ')`
unfoldable pub join : List Units → Units
join [] = []
join (word ∷ []) = word
join (word ∷ next ∷ rest) = word ++ (32 ∷ join (next ∷ rest))

-- `toLowerCase`, of the letters in ASCII
unfoldable pub lower : Units → Units
lower [] = []
lower (c ∷ text) = (if leb 65 c && leb c 90 then c + 32 else c) ∷ lower text

-- the token behind the scheme
unfoldable pub bearer_of : List Units → Option Units
unfolding lower join
bearer_of (scheme ∷ word ∷ rest) =
    if units_eq (lower scheme) (units "bearer") then some (join (word ∷ rest)) else none
bearer_of _ = none
