-- ===== src/Prelude/Text.antt =====
-- Text: decimal numerals in messages.
use Prim.Native.Nat.{ℕ, zero, suc, ◌+◌, ◌/◌, ◌%◌}
use mathlib.Core.List.{List, [], ◌∷◌}
use mathlib.Core.Path.{◌≡◌, refl}
use Prim.Native.String.{String, [], ◌∷◌}
use Prim.Native.String
use homelab_apps.Prelude.Tests.{ltb, ◌==◌, if◌then◌else◌}
use homelab_apps.Prelude.Int.{ℤ, pos, negsuc}
use Prim.Native.Char.{code}
use mathlib.Core.Bool.{true, Bool, ◌&&◌, false, ◌||◌}
use native.Mathlib.Omega.{arith}
use mathlib.Core.Logic.{◌↔◌}

infixr 65 ◌<>◌
abbrev pub ◌<>◌ : String → String → String
a <> b = String.◌++◌ a b

digit : ℕ → String
digit n =
    if n == 0
    then "0"
    else if n == 1
    then "1"
    else if n == 2
    then "2"
    else if n == 3
    then "3"
    else if n == 4
    then "4"
    else if n == 5
    then "5"
    else if n == 6
    then "6"
    else if n == 7
    then "7"
    else if n == 8
    then "8"
    else "9"

-- The fuel bounds the number of digits; `n + 1` rounds are more than a numeral of `n` has.
show_from : ℕ → ℕ → String
show_from zero n = ""
show_from (suc fuel) n =
    let front = show_from fuel (n / 10) in if ltb n 10 then digit n else front <> digit (n % 10)

-- `${n}` of a natural number
unfoldable pub show : ℕ → String
unfolding show_from digit
show n = show_from (n + 1) n

-- `${n}` of an integer
unfoldable pub show_ℤ : ℤ → String
unfolding show
show_ℤ (pos n) = show n
show_ℤ (negsuc n) = "-" <> show (n + 1)

-- A JavaScript string as its UTF-16 code units.
abbrev pub Units : Type 0
Units = List ℕ

-- The units of a text in ASCII.
abbrev pub units : String → Units
units String.[] = []
units (String.◌∷◌ c s) = code c ∷ units s

abbrev pub units_eq : Units → Units → Bool
units_eq [] [] = true
units_eq (x ∷ a) (y ∷ b) = x == y && units_eq a b
units_eq _ _ = false

pub units_eq_refl : (a : Units) → units_eq a a ≡ true
units_eq_refl [] = refl
units_eq_refl (x ∷ a) = ground (arith, units_eq_refl a)

pub eq_of_units_eq : (a b : Units) → units_eq a b ≡ true → a ≡ b
eq_of_units_eq [] [] h = refl
eq_of_units_eq (x ∷ a) (y ∷ b) h = ground (arith, eq_of_units_eq a b)
eq_of_units_eq a b h = ground arith

pub units_eq_iff : (a b : Units) → (units_eq a b ≡ true) ↔ (a ≡ b)
units_eq_iff a b = (eq_of_units_eq a b, λ e. rw e (units_eq_refl b))

-- `includes`, `Set.has` or `in` over a list of strings
abbrev pub contains : List Units → Units → Bool
contains [] k = false
contains (x ∷ xs) k = units_eq x k || contains xs k

-- No string is there twice.
abbrev pub Distinct : List Units → Type 0
Distinct [] = Unit
Distinct (k ∷ ks) = (contains ks k ≡ false) × Distinct ks
