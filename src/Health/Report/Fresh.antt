-- ===== src/Health/Report/Fresh.antt =====
-- The key that the loop of buildReport stops at is a new one (packages/health/src/report.ts).
use homelab_apps.Prelude.{
  ℕ, zero, suc, ◌+◌, ◌≤◌, ◌<◌, ◌≡◌, refl, List, ◌++◌, false, ◌∷◌, length, true, Bool-cases, arith,
  [], inl, length-append, ◌||◌, inr, sym, Bool,
}
use homelab_apps.Prelude.Text.{Distinct, Units, contains, units_eq, eq_of_units_eq, units_eq_iff}
use homelab_apps.Health.Report.{
  inherited, key_in, free_key, longest, key_fuel, List, false, true, length, ◌∷◌, [], Bool,
}

-- No key hides an inherited property.
abbrev pub IsOwn : Units → Type 0
IsOwn k = contains inherited k ≡ false

-- A key that is there is no longer than the longest.
length-le-longest : (ks : List Units) (k : Units) → contains ks k ≡ true → length k ≤ longest ks
length-le-longest [] k h = cc
length-le-longest (x ∷ ks) k h = elim (Bool-cases (units_eq x k)) [
  | inl same ↦ rw (eq_of_units_eq x k same) (omega arith)
  | inr other ↦ omega (arith, length-le-longest ks k (ground arith))
]

not-contains-longer : (ks : List Units) (k : Units) → longest ks < length k → contains ks k ≡ false
not-contains-longer ks k h = elim (Bool-cases (contains ks k)) [
  | inl there ↦ absurd (omega (arith, length-le-longest ks k there))
  | inr missing ↦ missing
]

or-false : (a b : Bool) → (a || b) ≡ false → (a ≡ false) × (b ≡ false)
or-false a b h = (ground arith, ground arith)

key_in-longer :
    (key : Units) (own : List Units)
    → longest own + longest inherited < length key
    → key_in key own ≡ false
unfolding key_in
key_in-longer key own h =
    rw (not-contains-longer own key (omega arith), not-contains-longer inherited key (omega arith))
      refl

key_in-parts :
    (key : Units) (own : List Units)
    → key_in key own ≡ false
    → (contains own key ≡ false) × (contains inherited key ≡ false)
unfolding key_in
key_in-parts key own h = or-false (contains own key) (contains inherited key) h

-- The loop ends on a key that the object does not have, own or inherited.
free_key_free :
    (fuel : ℕ) (key : Units) (own : List Units)
    → longest own + longest inherited < length key + fuel
    → key_in (free_key fuel key own) own ≡ false
unfolding free_key
free_key_free zero key own h = key_in-longer key own (omega arith)
free_key_free (suc fuel) key own h =
    ground (arith, free_key_free fuel (key ++ b'_' ∷ []) own, length-append key (b'_' ∷ []))

pub free_key-parts :
    (start : Units) (own : List Units)
    → (contains own (free_key (key_fuel own) start own) ≡ false)
      × IsOwn (free_key (key_fuel own) start own)
unfolding key_fuel
free_key-parts start own =
    key_in-parts (free_key (key_fuel own) start own) own
      (free_key_free (key_fuel own) start own (omega arith))

contains-concat :
    (ks : List Units) (k new : Units)
    → contains (ks ++ new ∷ []) k ≡ (contains ks k || units_eq new k)
contains-concat [] k new = ground arith
contains-concat (x ∷ ks) k new = ground (arith, contains-concat ks k new)

pub contains-middle :
    (before : List Units) (k : Units) (later : List Units) (x : Units)
    → contains (before ++ k ∷ later) x ≡ false
    → units_eq k x ≡ false
contains-middle [] k later x h = ground arith
contains-middle (y ∷ before) k later x h =
    contains-middle before k later x (or-false (units_eq y x) _ h).1

pub units_eq_sym : (a b : Units) → units_eq a b ≡ false → units_eq b a ≡ false
units_eq_sym a b h = elim (Bool-cases (units_eq b a)) [
  | inl same ↦ absurd (ground (arith, (units_eq_iff a b).1 (sym (eq_of_units_eq b a same))))
  | inr other ↦ other
]

pub Distinct-concat :
    (ks : List Units) (new : Units)
    → Distinct ks
    → contains ks new ≡ false
    → Distinct (ks ++ new ∷ [])
Distinct-concat [] new d h = (refl, tt)
Distinct-concat (k ∷ ks) new (fresh, d) h = (
  rw (contains-concat ks k new) (ground (arith, fresh, units_eq_sym k new (ground arith))),
  Distinct-concat ks new d (ground arith),
)
