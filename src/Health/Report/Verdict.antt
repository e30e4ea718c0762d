-- ===== src/Health/Report/Verdict.antt =====
-- What the rolled-up status says of the checks (packages/health/src/report.ts).
use homelab_apps.Prelude.{◌≡◌, ◌≢◌, ◌↔◌, true, false, List, [], ◌∷◌, All, arith, refl, ◌||◌}
use homelab_apps.Health.Report.{
  pass, fail, EvaluatedCheck, is_ready, is_degraded, roll_up, not, is_fail,
}

-- The check does not gate readiness: it did not fail, or it is not critical.
abbrev pub Tolerable : EvaluatedCheck → Type 0
Tolerable e = e.critical ≡ true → e.result.status ≢ fail

abbrev pub Passes : EvaluatedCheck → Type 0
Passes e = e.result.status ≡ pass

Tolerable-iff :
    (e : EvaluatedCheck) → ((not e.critical || not (is_fail e.result.status)) ≡ true) ↔ Tolerable e
Tolerable-iff e = (λ h c. ground arith, λ h. ground arith)

pub is_ready_iff :
    (evaluated : List EvaluatedCheck) → (is_ready evaluated ≡ true) ↔ All Tolerable evaluated
unfolding is_ready
is_ready_iff [] = (λ _. tt, λ _. refl)
is_ready_iff (e ∷ evaluated) =
    let ih = is_ready_iff evaluated in
    (
      λ h. ((Tolerable-iff e).0 (ground arith), ih.0 (ground arith)),
      λ h. ground (arith, (Tolerable-iff e).1 h.0, ih.1 h.1),
    )

is_pass_iff :
    (evaluated : List EvaluatedCheck)
    → (((is_ready evaluated ≡ true) × (is_degraded evaluated ≡ false)) ↔ All Passes evaluated)
unfolding is_ready is_degraded
is_pass_iff [] = (λ _. tt, λ _. (refl, refl))
is_pass_iff (e ∷ evaluated) =
    let ih = is_pass_iff evaluated in
    (
      λ h. (ground arith, ih.0 (ground arith, ground arith)),
      λ h. (ground (arith, (ih.1 h.1).0, h.0), ground (arith, (ih.1 h.1).1, h.0)),
    )

-- The checks are ready exactly when no critical one failed, and just then the status is not fail; it is
-- pass exactly when every check passed.
pub roll_up_iff :
    (evaluated : List EvaluatedCheck)
    → ((is_ready evaluated ≡ true) ↔ All Tolerable evaluated)
      × ((roll_up evaluated ≢ fail) ↔ All Tolerable evaluated)
      × ((roll_up evaluated ≡ pass) ↔ All Passes evaluated)
unfolding roll_up
roll_up_iff evaluated = (
  is_ready_iff evaluated,
  (
    λ h. (is_ready_iff evaluated).0 (ground arith),
    λ h. ground (arith, (is_ready_iff evaluated).1 h),
  ),
  (
    λ h. (is_pass_iff evaluated).0 (ground arith, ground arith),
    λ h. ground (arith, ((is_pass_iff evaluated).1 h).0, ((is_pass_iff evaluated).1 h).1),
  ),
)
