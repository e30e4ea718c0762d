-- ===== src/Bridge/Commands/Allowed.antt =====
-- What the spec of a device allows, apart from the code that checks it.
use homelab_apps.Prelude.Decimal.{Decimal, SameNumber, same_number, to_places}
use homelab_apps.Prelude.{
  ℕ, zero, suc, ◌-◌, ◌*◌, ◌%◌, ◌≤◌, ◌<◌, min, max, ◌≡◌, refl, sym, ◌⊎◌, inl, inr, ◌↔◌, Bool, true,
  false, not, ◌&&◌, ◌||◌, Option, none, some, List, [], ◌∷◌, arith, ltb-false→le, le→ltb-false,
  or_cases, or_left, or_right,
}
use mathlib.Core.Path.{subst}
use homelab_apps.Prelude.Text.{Units}
use homelab_apps.Prelude.Int.{ℤ, pos, negsuc, pos_part, ◌-ℤ◌, ◌≤ℤ◌, eqb_ℤ, leb_ℤ}
use homelab_apps.Bridge.Spec.{
  PropertyAccess, MiotPropertyValue, MiotProperty, SimplifiedMiotSpec, read, write, notify, get,
}
use homelab_apps.Bridge.Service.{
  JsonValue, undefined, text, number, boolean, texts, numbers, get_property, set_property, action,
  DeviceCommandRequest,
}
use homelab_apps.Bridge.Commands.{
  ResolvedCommand, reading, writing, acting, includes, same_access, is_value, some_value, off_step,
  step_of, common_places, off_range, out_of_range, is_bool, is_boolean, refuses_unlisted, refuses,
}

-- The mode is among those of the property.
abbrev pub Has : PropertyAccess → List PropertyAccess → Type 0
Has access [] = ⊥
Has access (a ∷ list) = (a ≡ access) ⊎ Has access list

abbrev pub Lists : Decimal → List MiotPropertyValue → Type 0
Lists n [] = ⊥
Lists n (a ∷ values) = SameNumber a.value n ⊎ Lists n values

-- Between the ends, and a whole number of steps above the lower one.
abbrev pub InRange : ℤ → ℤ → ℕ → ℤ → Type 0
InRange low high zero v = (low ≤ℤ v) × (v ≤ℤ high)
InRange low high (suc s) v = (low ≤ℤ v) × (v ≤ℤ high) × (pos_part (v -ℤ low) % suc s ≡ 0)

-- The step in units of the `w`-th place; 0 where there is none above 0.
abbrev pub step_in : ℕ → List Decimal → ℕ
step_in w [] = 0
step_in w (step ∷ rest) = pos_part (to_places w step)

-- The same of decimals, in units of the places that they have.
abbrev pub InDecimalRange : Decimal → Decimal → List Decimal → Decimal → Type 0
InDecimalRange low high rest n =
    InRange (to_places (common_places low high rest n) low)
      (to_places (common_places low high rest n) high)
      (step_in (common_places low high rest n) rest) (to_places (common_places low high rest n) n)

-- What a property without a value list takes.
abbrev pub TakesUnlisted : Option (List Decimal) → Option Units → JsonValue → Type 0
TakesUnlisted (some (low ∷ high ∷ rest)) format v =
    (n : Decimal) × (v ≡ number n) × InDecimalRange low high rest n
TakesUnlisted range format v = is_bool format ≡ true → (b : Bool) × (v ≡ boolean b)

-- What a property with the given value list takes.
abbrev pub Takes : List MiotPropertyValue → MiotProperty → JsonValue → Type 0
Takes [] p v = TakesUnlisted p.value_range p.format v
Takes (a ∷ values) p v = (n : Decimal) × (v ≡ number n) × Lists n (a ∷ values)

-- The step of a value range, if any, is below a thousand million units of the last place that it, the ends
-- of the range or the value have.
abbrev pub FineRange : Option (List Decimal) → JsonValue → Type 0
FineRange (some (low ∷ high ∷ rest)) (number n) =
    step_in (common_places low high rest n) rest < 1000000000
FineRange range v = Unit

-- The spec allows the request, as the given command.
abbrev pub Allows : SimplifiedMiotSpec → DeviceCommandRequest → ResolvedCommand → Type 0
Allows spec r (reading p) =
    (r.operation ≡ get_property)
    × (get r.command spec.properties ≡ some p)
    × (Has read p.access ⊎ Has notify p.access)
Allows spec r (writing p) =
    (r.operation ≡ set_property)
    × (get r.command spec.properties ≡ some p)
    × Has write p.access
    × Takes p.values p r.value
Allows spec r (acting a) = (r.operation ≡ action) × (get r.command spec.actions ≡ some a)

same_access_iff : (a b : PropertyAccess) → (same_access a b ≡ true) ↔ (a ≡ b)
unfolding same_access
same_access_iff read read = (λ _. refl, λ _. refl)
same_access_iff write write = (λ _. refl, λ _. refl)
same_access_iff notify notify = (λ _. refl, λ _. refl)
same_access_iff _ _ = (λ h. cc, λ h. cc)

pub includes→Has :
    (list : List PropertyAccess) (access : PropertyAccess)
    → includes list access ≡ true
    → Has access list
unfolding includes
includes→Has [] access h = cc
includes→Has (a ∷ list) access h = elim (or_cases _ _ h) [
  | inl here ↦ inl ((same_access_iff a access).0 here)
  | inr later ↦ inr (includes→Has list access later)
]

pub Has→includes :
    (list : List PropertyAccess) (access : PropertyAccess)
    → Has access list
    → includes list access ≡ true
unfolding includes
Has→includes [] access h = absurd h
Has→includes (a ∷ list) access (inl here) = or_left _ _ ((same_access_iff a access).1 here)
Has→includes (a ∷ list) access (inr later) = or_right _ _ (Has→includes list access later)

number_eq : (n m : ℤ) → (eqb_ℤ n m ≡ true) ↔ (n ≡ m)
number_eq (pos n) (pos m) = (λ h. ground arith, λ h. ground arith)
number_eq (negsuc n) (negsuc m) = (λ h. ground arith, λ h. ground arith)
number_eq n m = (λ h. ground arith, λ h. ground arith)

same_number_iff : (a b : Decimal) → (same_number a b ≡ true) ↔ SameNumber a b
same_number_iff a b =
    number_eq (to_places (max a.places b.places) a) (to_places (max a.places b.places) b)

some_value→Lists :
    (values : List MiotPropertyValue) (v : JsonValue)
    → some_value values v ≡ true
    → (n : Decimal) × (v ≡ number n) × Lists n values
unfolding some_value is_value
some_value→Lists [] v h = cc
some_value→Lists (a ∷ values) (number n) h = elim (or_cases _ _ h) [
  | inl here ↦ (n, refl, inl ((same_number_iff a.value n).0 here))
  | inr later ↦ let (m, e, listed) = some_value→Lists values (number n) later in (m, e, inr listed)
]
some_value→Lists (a ∷ values) undefined h =
    let (m, e, listed) = some_value→Lists values undefined h in (m, e, inr listed)
some_value→Lists (a ∷ values) (text t) h =
    let (m, e, listed) = some_value→Lists values (text t) h in (m, e, inr listed)
some_value→Lists (a ∷ values) (boolean b) h =
    let (m, e, listed) = some_value→Lists values (boolean b) h in (m, e, inr listed)
some_value→Lists (a ∷ values) (texts ts) h =
    let (m, e, listed) = some_value→Lists values (texts ts) h in (m, e, inr listed)
some_value→Lists (a ∷ values) (numbers ns) h =
    let (m, e, listed) = some_value→Lists values (numbers ns) h in (m, e, inr listed)

Lists→some_value :
    (values : List MiotPropertyValue) (n : Decimal)
    → Lists n values
    → some_value values (number n) ≡ true
unfolding some_value is_value
Lists→some_value [] n h = absurd h
Lists→some_value (a ∷ values) n (inl here) = or_left _ _ ((same_number_iff a.value n).1 here)
Lists→some_value (a ∷ values) n (inr later) = or_right _ _ (Lists→some_value values n later)

near_end :
    (r s : ℕ) → r < suc s → min r (suc s - r) * 1000000000 ≤ suc s → suc s < 1000000000 → r ≡ 0
near_end r s lt h small = ground arith

remainder_lt : (n s : ℕ) → n % suc s < suc s
remainder_lt n s = grind arith

off_step→whole :
    (distance s : ℕ) → suc s < 1000000000 → off_step distance (suc s) ≡ false → distance % suc s ≡ 0
unfolding off_step
off_step→whole distance s small h =
    near_end (distance % suc s) s (remainder_lt distance s) (ltb-false→le _ _ h) small

whole→off_step : (distance s : ℕ) → distance % suc s ≡ 0 → off_step distance (suc s) ≡ false
unfolding off_step
whole→off_step distance s h = rw h (le→ltb-false _ _ (omega arith))

leb→≤ℤ : (a b : ℤ) → leb_ℤ a b ≡ true → a ≤ℤ b
leb→≤ℤ a b h = ground arith

≤ℤ→leb : (a b : ℤ) → a ≤ℤ b → leb_ℤ a b ≡ true
≤ℤ→leb a b h = ground arith

checks_pass : (a b c : Bool) → (not (a && b) || c) ≡ false → (a ≡ true) × (b ≡ true) × (c ≡ false)
checks_pass a b c h = (ground arith, ground arith, ground arith)

whole_in :
    (low high n : ℤ) (s : ℕ)
    → low ≤ℤ n
    → n ≤ℤ high
    → off_step (pos_part (n -ℤ low)) s ≡ false
    → (not (leb_ℤ low n && leb_ℤ n high) || off_step (pos_part (n -ℤ low)) s) ≡ false
whole_in low high n s l u on = rw (≤ℤ→leb low n l, ≤ℤ→leb n high u, on) refl

number_injective : (m n : Decimal) → ◌≡◌ {A = JsonValue} (number m) (number n) → m ≡ n
number_injective m n e = cc

pub not-eq-false : (b : Bool) → not b ≡ false → b ≡ true
not-eq-false b h = ground arith

pub either_true : (a b : Bool) → (not a && not b) ≡ false → (a ≡ true) ⊎ (b ≡ true)
either_true true b h = inl refl
either_true false b h = inr (not-eq-false b h)

pub neither : (a : Bool) → (a && false) ≡ false
neither a = ground arith

-- What the check of the format does with a value.
boolean_iff :
    (test : Bool) (v : JsonValue)
    → ((test && not (is_boolean v)) ≡ false) ↔ (test ≡ true → (b : Bool) × (v ≡ boolean b))
unfolding is_boolean
boolean_iff true (boolean b) = (λ _ _. (b, refl), λ _. refl)
boolean_iff true v = (λ h. cc, λ h. let (b, e) = h refl in cc)
boolean_iff false v = (λ h t. absurd (cc), λ _. refl)

-- The check of a ranged number is exact, for steps below a thousand million.
InRange-iff :
    (low high : ℤ) (s : ℕ) (n : ℤ)
    → s < 1000000000
    → (off_range low high s n ≡ false) ↔ InRange low high s n
unfolding off_range
InRange-iff low high zero n small = (
  λ h.
      let (l, u, _) = checks_pass _ _ (off_step (pos_part (n -ℤ low)) 0) h in
      (leb→≤ℤ low n l, leb→≤ℤ n high u),
  λ h. whole_in low high n 0 h.0 h.1 (unfold off_step in refl),
)
InRange-iff low high (suc s) n small = (
  λ h.
      let (l, u, on) = checks_pass _ _ (off_step (pos_part (n -ℤ low)) (suc s)) h in
      (leb→≤ℤ low n l, leb→≤ℤ n high u, off_step→whole (pos_part (n -ℤ low)) s small on),
  λ h. whole_in low high n (suc s) h.0 h.1 (whole→off_step (pos_part (n -ℤ low)) s h.2),
)

InDecimalRange-iff :
    (low high : Decimal) (rest : List Decimal) (n : Decimal)
    → step_in (common_places low high rest n) rest < 1000000000
    → (out_of_range low high rest (number n) ≡ false) ↔ InDecimalRange low high rest n
unfolding out_of_range step_of
InDecimalRange-iff low high [] n small =
    InRange-iff (to_places (common_places low high [] n) low)
      (to_places (common_places low high [] n) high) 0 (to_places (common_places low high [] n) n)
      small
InDecimalRange-iff low high (step ∷ rest) n small =
    let w = common_places low high (step ∷ rest) n in
    InRange-iff (to_places w low) (to_places w high) (pos_part (to_places w step)) (to_places w n)
      small

TakesUnlisted-iff :
    (range : Option (List Decimal)) (format : Option Units) (v : JsonValue)
    → FineRange range v
    → (refuses_unlisted range format v ≡ false) ↔ TakesUnlisted range format v
unfolding refuses_unlisted
TakesUnlisted-iff (some (low ∷ high ∷ rest)) format (number n) small = (
  λ h. (n, refl, (InDecimalRange-iff low high rest n small).0 h),
  λ (m, e, h).
      (InDecimalRange-iff low high rest n small).1
        (subst (InDecimalRange low high rest) (number_injective m n (sym e)) h),
)
TakesUnlisted-iff (some (low ∷ high ∷ rest)) format v small =
    (λ h. unfold out_of_range in cc, λ (m, e, h). cc)
TakesUnlisted-iff (some (low ∷ [])) format v small = boolean_iff (is_bool format) v
TakesUnlisted-iff (some []) format v small = boolean_iff (is_bool format) v
TakesUnlisted-iff none format v small = boolean_iff (is_bool format) v

pub Takes-iff :
    (values : List MiotPropertyValue) (p : MiotProperty) (v : JsonValue)
    → FineRange p.value_range v
    → (refuses values p v ≡ false) ↔ Takes values p v
unfolding refuses
Takes-iff [] p v small = TakesUnlisted-iff p.value_range p.format v small
Takes-iff (a ∷ values) p v small = (
  λ h. some_value→Lists (a ∷ values) v (not-eq-false _ h),
  λ (n, e, h). rw e (rw (Lists→some_value (a ∷ values) n h) refl),
)

-- The range of the property found is fine for the value.
abbrev pub FineFor : JsonValue → Option MiotProperty → Type 0
FineFor v none = Unit
FineFor v (some p) = FineRange p.value_range v
