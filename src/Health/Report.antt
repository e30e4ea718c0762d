-- ===== src/Health/Report.antt =====
-- The verdict over evaluated checks and the report body (packages/health/src/report.ts, with the types
-- of HealthCheck.ts and HealthStatus.enum.ts).
pub mod Fresh
pub mod Keys
pub mod Verdict
use homelab_apps.Prelude.{
  ℕ, zero, suc, ◌+◌, ◌≡◌, Bool, true, false, not, ◌&&◌, ◌||◌, Option, none, some, List, [], ◌∷◌,
  ◌++◌, map, if◌then◌else◌, ◌==◌, length, or_else, max,
}
use homelab_apps.Prelude.Text.{Units, units, units_eq, contains, show}
use homelab_apps.Prelude.Int.{ℤ}

-- HealthStatus
pub data HealthStatus : Type 0 where
  pass warn fail : HealthStatus

-- HealthCheckResult
pub record HealthCheckResult : Type 0 where
  pub status : HealthStatus
  pub detail : Option Units
  pub observed_value : Option ℤ

-- EvaluatedCheck, with the two members of the check that it needs
pub record EvaluatedCheck : Type 0 where
  pub name : Units
  pub critical : Bool
  pub result : HealthCheckResult

abbrev pub is_fail : HealthStatus → Bool
is_fail fail = true
is_fail _ = false

abbrev pub is_pass : HealthStatus → Bool
is_pass pass = true
is_pass _ = false

-- isReady
unfoldable pub is_ready : List EvaluatedCheck → Bool
is_ready [] = true
is_ready (e ∷ evaluated) = (not e.critical || not (is_fail e.result.status)) && is_ready evaluated

-- `evaluated.some(…)` of rollUp: a warn or a fail
unfoldable pub is_degraded : List EvaluatedCheck → Bool
is_degraded [] = false
is_degraded (e ∷ evaluated) = not (is_pass e.result.status) || is_degraded evaluated

-- rollUp
unfoldable pub roll_up : List EvaluatedCheck → HealthStatus
roll_up evaluated =
    if not (is_ready evaluated) then fail else if is_degraded evaluated then warn else pass

-- What every object inherits: `key in checks` is true of these also when `checks` is empty.
abbrev pub inherited : List Units
inherited =
    units "constructor"
    ∷ units "__defineGetter__"
    ∷ units "__defineSetter__"
    ∷ units "hasOwnProperty"
    ∷ units "__lookupGetter__"
    ∷ units "__lookupSetter__"
    ∷ units "isPrototypeOf"
    ∷ units "propertyIsEnumerable"
    ∷ units "toString"
    ∷ units "valueOf"
    ∷ units "__proto__"
    ∷ units "toLocaleString"
    ∷ []

-- `checks`: an object, as the keys that were added to it with their values. The order is that of the
-- assignments, and not that in which JavaScript lists the keys of an object.
abbrev pub Checks : Type 0
Checks = List (Units × HealthCheckResult)

abbrev pub keys : Checks → List Units
keys [] = []
keys ((k, r) ∷ checks) = k ∷ keys checks

-- `key in checks`
unfoldable pub key_in : Units → List Units → Bool
key_in key own = contains own key || contains inherited key

-- `while (key in checks) { key = `${key}_`; }`, on fuel
unfoldable pub free_key : ℕ → Units → List Units → Units
free_key zero key own = key
free_key (suc fuel) key own =
    let longer = free_key fuel (key ++ b'_' ∷ []) own in if key_in key own then longer else key

-- The longest key: one more underscore than that makes a key that is not there.
abbrev pub longest : List Units → ℕ
longest [] = 0
longest (k ∷ ks) = max (length k) (longest ks)

unfoldable pub key_fuel : List Units → ℕ
key_fuel own = longest own + longest inherited + 1

-- `seen.get(name) ?? 0`
unfoldable pub times_seen : Units → List Units → ℕ
times_seen name [] = 0
times_seen name (n ∷ seen) = (if units_eq n name then 1 else 0) + times_seen name seen

-- the key that one check starts from
unfoldable pub first_key : Units → ℕ → Units
first_key name count = if count == 1 then name else name ++ (b'#' ∷ units (show count))

-- the loop of buildReport; `seen` lists the names so far
unfoldable pub add_checks : List EvaluatedCheck → List Units → Checks → Checks
add_checks [] seen checks = checks
add_checks (e ∷ evaluated) seen checks =
    let count = times_seen e.name seen + 1 in
    let key = free_key (key_fuel (keys checks)) (first_key e.name count) (keys checks) in
    add_checks evaluated (e.name ∷ seen) (checks ++ (key, e.result) ∷ [])

-- HealthReport
pub record HealthReport : Type 0 where
  pub status : HealthStatus
  pub checks : Option Checks

-- buildReport
unfoldable pub build_report : List EvaluatedCheck → Bool → HealthReport
build_report evaluated include_checks = record {
  status = roll_up evaluated;
  checks = if include_checks then some (add_checks evaluated [] []) else none;
}
