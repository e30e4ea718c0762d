-- ===== src/Prelude/Decimal.antt =====
-- Decimal numbers, as JSON has them: exact, so that the rounding of a double is left out.
use homelab_apps.Prelude.Int.{ℤ, pos, negsuc, eqb_ℤ, sub_ℕ}
use Prim.Native.Nat.{ℕ, suc, ◌*◌, ◌-◌, ◌^◌, max}
use mathlib.Core.Path.{◌≡◌}
use mathlib.Core.Bool.{Bool}

-- The digits, and how many of them stand behind the point.
pub record Decimal : Type 0 where
  pub digits : ℤ
  pub places : ℕ

abbrev pub times : ℕ → ℤ → ℤ
times m (pos n) = pos (n * m)
times m (negsuc n) = sub_ℕ 0 (suc n * m)

-- The number in units of its `w`-th place behind the point, of which it has no more.
abbrev pub to_places : ℕ → Decimal → ℤ
to_places w d = times (10 ^ (w - d.places)) d.digits

-- Written with as many places, the two have the same digits.
abbrev pub SameNumber : Decimal → Decimal → Type 0
SameNumber a b = to_places (max a.places b.places) a ≡ to_places (max a.places b.places) b

abbrev pub same_number : Decimal → Decimal → Bool
same_number a b = eqb_ℤ (to_places (max a.places b.places) a) (to_places (max a.places b.places) b)
