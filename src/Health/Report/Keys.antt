-- ===== src/Health/Report/Keys.antt =====
-- The keys of the report body: none is overwritten, so no result is hidden behind a namesake
-- (buildReport of packages/health/src/report.ts).
use homelab_apps.Health.Report.Fresh.{
  IsOwn, free_key-parts, units_eq_sym, contains-middle, Distinct-concat,
}
use homelab_apps.Prelude.{
  ◌==◌, ℕ, zero, suc, ◌+◌, ◌∙◌, Option, if◌then◌else◌, replicate, ◌≡◌, refl, List, ◌++◌, false, ◌∷◌,
  length, true, Bool-cases, arith, ap, [], inl, inr, All, sym, All-append, some, none,
}
use homelab_apps.Prelude.Text.{units, show, Distinct, units_eq_refl, Units, contains, units_eq}
use mathlib.Core.List.{append-nil, append_assoc}
use mathlib.Core.Path.{subst}
use homelab_apps.Health.Report.{
  HealthCheckResult, EvaluatedCheck, Checks, keys, key_in, free_key, key_fuel, times_seen,
  first_key, add_checks, build_report, roll_up, List, false, true, length, ◌∷◌, [], some, none,
}

-- What the object has under a key.
abbrev pub member : Units → Checks → Option HealthCheckResult
member k [] = none
member k ((x, r) ∷ checks) = if units_eq x k then some r else member k checks

-- The checks of that name among those before.
abbrev pub earlier : Units → List Units → ℕ
earlier name [] = 0
earlier name (n ∷ seen) = (if units_eq n name then 1 else 0) + earlier name seen

abbrev pub numbered : Units → ℕ → Units
numbered name zero = name
numbered name (suc n) = name ++ (b'#' ∷ units (show (suc n + 1)))

-- The key is formed from the name: the name, with its number where it is not the first of its name,
-- and underscores behind that.
abbrev pub NamedFor : EvaluatedCheck → List Units → Units → Type 0
NamedFor e seen key = (n : ℕ) × (key ≡ numbered e.name (earlier e.name seen) ++ replicate n b'_')

-- The result of each check is found under its key, which is formed from its name; `seen` are the
-- names of the checks before these.
abbrev pub Filed : Checks → List Units → List EvaluatedCheck → List Units → Type 0
Filed checks seen [] [] = Unit
Filed checks seen [] (key ∷ ks) = ⊥
Filed checks seen (e ∷ evaluated) [] = ⊥
Filed checks seen (e ∷ evaluated) (key ∷ ks) =
    NamedFor e seen key
    × (member key checks ≡ some e.result)
    × Filed checks (e.name ∷ seen) evaluated ks

-- The object has the results of the checks under these keys, and under no others; no two checks have
-- the same key, and no key hides an inherited property.
abbrev pub Keeps : Checks → List EvaluatedCheck → List Units → Type 0
Keeps checks evaluated ks =
    Filed checks [] evaluated ks
    × Distinct ks
    × All IsOwn ks
    × Distinct (keys checks)
    × (length (keys checks) ≡ length evaluated)

-- The entries that the loop adds, in the order in which it does.
abbrev Added : List Units → List EvaluatedCheck → Checks → Type 0
Added seen [] [] = Unit
Added seen [] (entry ∷ new) = ⊥
Added seen (e ∷ evaluated) [] = ⊥
Added seen (e ∷ evaluated) ((key, r) ∷ new) =
    NamedFor e seen key × (r ≡ e.result) × Added (e.name ∷ seen) evaluated new

times_seen-eq-earlier :
    (name : Units) (seen : List Units) → times_seen name seen ≡ earlier name seen
unfolding times_seen
times_seen-eq-earlier name [] = refl
times_seen-eq-earlier name (n ∷ seen) =
    ap (λ t. (if units_eq n name then 1 else 0) + t) (times_seen-eq-earlier name seen)

not_first : (n : ℕ) → (suc n + 1 == 1) ≡ false
not_first n = ground arith

first_key-eq-numbered : (name : Units) (n : ℕ) → first_key name (n + 1) ≡ numbered name n
unfolding first_key
first_key-eq-numbered name zero = refl
first_key-eq-numbered name (suc n) = rw (not_first n) refl

key_of_name :
    (e : EvaluatedCheck) (seen : List Units)
    → first_key e.name (times_seen e.name seen + 1) ≡ numbered e.name (earlier e.name seen)
key_of_name e seen =
    ap (λ n. first_key e.name (n + 1)) (times_seen-eq-earlier e.name seen)
    ∙ first_key-eq-numbered e.name (earlier e.name seen)

free_key-replicate :
    (fuel : ℕ) (key : Units) (own : List Units)
    → (n : ℕ) × (free_key fuel key own ≡ key ++ replicate n b'_')
unfolding free_key
free_key-replicate zero key own = (0, sym (append-nil key))
free_key-replicate (suc fuel) key own =
    let (n, same) = free_key-replicate fuel (key ++ b'_' ∷ []) own in
    elim (Bool-cases (key_in key own)) [
      | inl there ↦ rw there (suc n, same ∙ append_assoc key (b'_' ∷ []) (replicate n b'_'))
      | inr missing ↦ rw missing (0, sym (append-nil key))
    ]

-- What the object keeps while the loop fills it.
abbrev Sound : Checks → Type 0
Sound checks = Distinct (keys checks) × All IsOwn (keys checks)

keys-append : (a b : Checks) → keys (a ++ b) ≡ keys a ++ keys b
keys-append [] b = refl
keys-append ((k, r) ∷ a) b = ap (λ t. k ∷ t) (keys-append a b)

Sound-concat :
    (checks : Checks) (start : Units) (r : HealthCheckResult)
    → Sound checks
    → Sound (checks ++ (free_key (key_fuel (keys checks)) start (keys checks), r) ∷ [])
Sound-concat checks start r (distinct, own) =
    let key = free_key (key_fuel (keys checks)) start (keys checks) in
    let fresh = free_key-parts start (keys checks) in
    rw (keys-append checks ((key, r) ∷ [])) (
      Distinct-concat (keys checks) key distinct fresh.0,
      All-append IsOwn (keys checks) (key ∷ []) own (fresh.1, tt),
    )

add_checks-Added :
    (evaluated : List EvaluatedCheck) (seen : List Units) (checks : Checks)
    → Sound checks
    → (new : Checks) × (add_checks evaluated seen checks ≡ checks ++ new)
      × Added seen evaluated new
      × Sound (checks ++ new)
unfolding add_checks
add_checks-Added [] seen checks sound =
    ([], sym (append-nil checks), tt, subst Sound (sym (append-nil checks)) sound)
add_checks-Added (e ∷ evaluated) seen checks sound =
    let start = first_key e.name (times_seen e.name seen + 1) in
    let key = free_key (key_fuel (keys checks)) start (keys checks) in
    let underscores = free_key-replicate (key_fuel (keys checks)) start (keys checks) in
    let (new, same, added, later) =
      add_checks-Added evaluated (e.name ∷ seen) (checks ++ (key, e.result) ∷ [])
        (Sound-concat checks start e.result sound) in
    (
      (key, e.result) ∷ new,
      same ∙ append_assoc checks ((key, e.result) ∷ []) new,
      (
        (
          underscores.0,
          underscores.1 ∙ ap (λ t. t ++ replicate (underscores.0) b'_') (key_of_name e seen),
        ),
        refl,
        added,
      ),
      subst Sound (append_assoc checks ((key, e.result) ∷ []) new) later,
    )

-- A key is not among those before it.
Distinct-fresh :
    (before : List Units) (k : Units) (later : List Units)
    → Distinct (before ++ k ∷ later)
    → contains before k ≡ false
Distinct-fresh [] k later d = refl
Distinct-fresh (x ∷ before) k later (fresh, d) = ground (
  arith,
  fresh,
  contains-middle before k later x,
  Distinct-fresh before k later d,
  units_eq_sym k x,
)

member-append :
    (before : Checks) (k : Units) (r : HealthCheckResult) (later : Checks)
    → contains (keys before) k ≡ false
    → member k (before ++ (k, r) ∷ later) ≡ some r
member-append [] k r later h = rw (units_eq_refl k) refl
member-append ((x, s) ∷ before) k r later h = ground (arith, h, member-append before k r later)

Added-Filed :
    (seen : List Units) (evaluated : List EvaluatedCheck) (before new : Checks)
    → Distinct (keys (before ++ new))
    → Added seen evaluated new
    → Filed (before ++ new) seen evaluated (keys new)
Added-Filed seen [] before [] d a = tt
Added-Filed seen (e ∷ evaluated) before ((k, r) ∷ new) d (named, same, a) = (
  named,
  member-append before k r new (
        Distinct-fresh (keys before) k (keys new)
          (subst Distinct (keys-append before ((k, r) ∷ new)) d))
      ∙ ap (λ x. some x) same,
  subst (λ cs. Filed cs (e.name ∷ seen) evaluated (keys new))
      (append_assoc before ((k, r) ∷ []) new)
      (Added-Filed (e.name ∷ seen) evaluated (before ++ (k, r) ∷ []) new
        (subst (λ cs. Distinct (keys cs)) (sym (append_assoc before ((k, r) ∷ []) new)) d) a),
)
Added-Filed seen [] before (entry ∷ new) d a = absurd a
Added-Filed seen (e ∷ evaluated) before [] d a = absurd a

Added-length :
    (seen : List Units) (evaluated : List EvaluatedCheck) (new : Checks)
    → Added seen evaluated new
    → length (keys new) ≡ length evaluated
Added-length seen [] [] a = refl
Added-length seen (e ∷ evaluated) ((k, r) ∷ new) a =
    ap (λ n. suc n) (Added-length (e.name ∷ seen) evaluated new a.2)
Added-length seen [] (entry ∷ new) a = absurd a
Added-length seen (e ∷ evaluated) [] a = absurd a

-- The body of a report that shows its checks has as many results as there are checks, and has the result
-- of each under a key of its own: the check's name, with its number among the checks of that name from
-- the second one on, and with no underscores or some behind it. No two checks share a
-- key, and no key hides an inherited property. A report that does not show them has no checks. Both have
-- the rolled-up status.
pub build_report-Keeps :
    (evaluated : List EvaluatedCheck)
    → ((cs : Checks) × (ks : List Units) × ((build_report evaluated true).checks ≡ some cs)
        × Keeps cs evaluated ks)
      × ((build_report evaluated false).checks ≡ none)
      × ((build_report evaluated true).status ≡ roll_up evaluated)
      × ((build_report evaluated false).status ≡ roll_up evaluated)
unfolding build_report
build_report-Keeps evaluated =
    let (new, same, added, (distinct, own)) = add_checks-Added evaluated [] [] (tt, tt) in
    (
      (
        new,
        keys new,
        ap (λ cs. some cs) same,
        (
          Added-Filed [] evaluated [] new distinct added,
          distinct,
          own,
          distinct,
          Added-length [] evaluated new added,
        ),
      ),
      refl,
      refl,
      refl,
    )
