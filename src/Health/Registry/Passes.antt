-- ===== src/Health/Registry/Passes.antt =====
-- What one pass over the checks reports of their outcomes (runAll, runOne and sanitise of
-- packages/health/src/HealthRegistry.ts).
-- A detail is reported up to its 120th unit.
use homelab_apps.Prelude.{
  Bool, true, false, ◌∙◌, ℕ, zero, suc, ◌≤◌, ◌≡◌, refl, sym, ap, inl, inr, ◌↔◌, true, Option, none,
  some, List, [], ◌∷◌, arith, leb, Bool-cases, length, take, All,
}
use homelab_apps.Health.Report.{HealthCheckResult, EvaluatedCheck, fail}
use homelab_apps.Health.Report.Verdict.{Tolerable, is_ready_iff}
use homelab_apps.Health.Registry.{
  HealthCheck, Outcome, answered, threw, timed_out, HealthEvaluation, truncate, truncate_detail,
  max_detail_length, result_of, run_one, run_checks, run_all, sanitise, failed, error_name, Units,
  units,
}
use homelab_apps.Prelude.Text.{Units, units}

abbrev pub Cut : Option Units → Option Units → Type 0
Cut none shown = shown ≡ none
Cut (some detail) shown = shown ≡ some (take 120 detail)

-- A result says that the check failed, and why.
abbrev pub FailsWith : Units → HealthCheckResult → Type 0
FailsWith why r = (r.status ≡ fail) × (r.detail ≡ some (take 120 why)) × (r.observed_value ≡ none)

-- The name of what a check threw: that of an Error, where it has one.
abbrev pub name_of : Bool → Option Units → Units
name_of false name = units "Error"
name_of true none = units "Error"
name_of true (some []) = units "Error"
name_of true (some (c ∷ name)) = c ∷ name

-- What a check's result is by its outcome: the answer with its detail cut; a `fail` with the error's
-- name, or with what it is where there is no answer in time.
abbrev pub Shows : Outcome → HealthCheckResult → Type 0
Shows (answered answer) r =
    (r.status ≡ answer.status)
    × Cut answer.detail r.detail
    × (r.observed_value ≡ answer.observed_value)
Shows (threw error) r = FailsWith (name_of error.is_error error.name) r
Shows timed_out r = FailsWith (units "timeout") r

-- The results are those of the checks, in their order, by the outcomes from the `i`-th on.
abbrev pub Reports : List HealthCheck → ℕ → (ℕ → Outcome) → List EvaluatedCheck → Type 0
Reports [] i outcomes [] = Unit
Reports [] i outcomes (e ∷ evaluated) = ⊥
Reports (c ∷ checks) i outcomes [] = ⊥
Reports (c ∷ checks) i outcomes (e ∷ evaluated) =
    (e.name ≡ c.name)
    × (e.critical ≡ c.critical)
    × Shows (outcomes i) e.result
    × Reports checks (suc i) outcomes evaluated

-- A value is that of a pass with these outcomes; it is ready where no critical check failed.
abbrev pub PassOf : List HealthCheck → (ℕ → Outcome) → HealthEvaluation → Type 0
PassOf checks outcomes v =
    Reports checks 0 outcomes v.evaluated × ((v.ready ≡ true) ↔ All Tolerable v.evaluated)

take-short : (n : ℕ) (text : Units) → length text ≤ n → take n text ≡ text
take-short zero [] h = refl
take-short (suc n) [] h = refl
take-short zero (c ∷ text) h = absurd (omega arith)
take-short (suc n) (c ∷ text) h = ap (λ t. c ∷ t) (take-short n text (omega arith))

truncate-take : (detail : Units) → truncate detail ≡ take 120 detail
unfolding truncate
truncate-take detail = elim (Bool-cases (leb (length detail) max_detail_length)) [
  | inl short ↦ rw short (sym (take-short 120 detail (ground arith)))
  | inr long ↦ rw long refl
]

truncate_detail-Cut : (detail : Option Units) → Cut detail (truncate_detail detail)
unfolding truncate_detail
truncate_detail-Cut none = refl
truncate_detail-Cut (some detail) = ap (λ t. some t) (truncate-take detail)

error_name-eq-name_of :
    (is_error : Bool) (name : Option Units) → error_name is_error name ≡ name_of is_error name
unfolding error_name
error_name-eq-name_of false name = refl
error_name-eq-name_of true none = refl
error_name-eq-name_of true (some []) = refl
error_name-eq-name_of true (some (c ∷ name)) = refl

result_of-Shows : (outcome : Outcome) → Shows outcome (result_of outcome)
unfolding result_of sanitise failed truncate_detail
result_of-Shows (answered r) = (refl, truncate_detail-Cut r.detail, refl)
result_of-Shows (threw e) = (
  refl,
  ap (λ t. some t)
      (truncate-take (error_name e.is_error e.name)
        ∙ ap (λ t. take 120 t) (error_name-eq-name_of e.is_error e.name)),
  refl,
)
result_of-Shows timed_out = (refl, ap (λ t. some t) (truncate-take (units "timeout")), refl)

run_checks-Reports :
    (checks : List HealthCheck) (i : ℕ) (outcomes : ℕ → Outcome)
    → Reports checks i outcomes (run_checks checks i outcomes)
unfolding run_checks run_one
run_checks-Reports [] i outcomes = tt
run_checks-Reports (c ∷ checks) i outcomes =
    (refl, refl, result_of-Shows (outcomes i), run_checks-Reports checks (suc i) outcomes)

pub run_all-PassOf :
    (checks : List HealthCheck) (outcomes : ℕ → Outcome)
    → PassOf checks outcomes (run_all checks outcomes)
unfolding run_all
run_all-PassOf checks outcomes =
    (run_checks-Reports checks 0 outcomes, is_ready_iff (run_checks checks 0 outcomes))
