-- ===== src/Health/Probes/Readiness.antt =====
-- When the endpoints take a pod out of service (packages/tsed-health/src/HealthController.ts).
use homelab_apps.Prelude.{
  ℕ, ◌≡◌, ◌↔◌, Bool, true, false, List, All, arith, refl, not, if◌then◌else◌,
}
use homelab_apps.Health.Report.{EvaluatedCheck, build_report, roll_up, is_ready, is_fail}
use homelab_apps.Health.Report.Verdict.{Tolerable, roll_up_iff}
use homelab_apps.Health.Registry.{HealthConfig, HealthCheck, Outcome, run_all, report}
use homelab_apps.Health.Probes.{ready, detail, evaluate_service, not}

abbrev ready_code : Bool → ℕ
ready_code verdict = if not verdict then 503 else 200

-- The code and the status of one answer, given the verdict.
fails_iff :
    (evaluated : List EvaluatedCheck) → is_fail (roll_up evaluated) ≡ not (is_ready evaluated)
unfolding roll_up
fails_iff evaluated = ground arith

code_iff :
    (evaluated : List EvaluatedCheck)
    → (ready_code (is_ready evaluated) ≡ 200) ↔ All Tolerable evaluated
code_iff evaluated =
    (λ h. (roll_up_iff evaluated).0.0 (ground arith), λ h. rw ((roll_up_iff evaluated).0.1 h) refl)

-- Readiness and the full report answer with the same code and the same status for one evaluation:
-- with 200 exactly when the process is not draining and no critical check failed.
pub ready-detail :
    (draining : Bool) (config : HealthConfig) (checks : List HealthCheck) (outcomes : ℕ → Outcome)
    → ((ready draining config (run_all checks outcomes)).status_code
        ≡ (detail draining config (run_all checks outcomes)).status_code)
      × ((ready draining config (run_all checks outcomes)).body.status
          ≡ (detail draining config (run_all checks outcomes)).body.status)
      × (((ready draining config (run_all checks outcomes)).status_code ≡ 200)
          ↔ ((draining ≡ false) × All Tolerable (run_all checks outcomes).evaluated))
unfolding ready detail evaluate_service report build_report run_all
ready-detail true config checks outcomes =
    (refl, refl, (λ h. absurd (omega arith), λ h. absurd (ground (arith, h.0))))
ready-detail false config checks outcomes =
    let evaluated = (run_all checks outcomes).evaluated in
    (
      rw (fails_iff evaluated) refl,
      refl,
      (λ h. (refl, (code_iff evaluated).0 h), λ h. (code_iff evaluated).1 h.1),
    )
