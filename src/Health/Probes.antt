-- ===== src/Health/Probes.antt =====
-- The probe endpoints and the drain that turns readiness off (packages/tsed-health/src/
-- HealthController.ts, HealthCheckService.ts and createShutdownHandler.ts with ShutdownState.ts), and
-- the check that reads a circuit breaker (packages/health/src/checks/breakerCheck.ts).
pub mod Readiness
use homelab_apps.Prelude.{ℕ, Bool, false, Option, none, some, if◌then◌else◌, not, or_else, String}
use homelab_apps.Prelude.Text.{Units, units, ◌<>◌}
use homelab_apps.Health.Report.{
  HealthStatus, pass, warn, fail, HealthCheckResult, HealthReport, build_report, is_fail, is_pass,
}
use homelab_apps.Health.Registry.{HealthConfig, HealthEvaluation, HealthCheck, report}

-- The answer of an endpoint: its status code and its body.
pub record Answer : Type 0 where
  pub status_code : ℕ
  pub body : HealthReport

status_only : HealthStatus → HealthReport
status_only s = record { status = s; checks = none }

-- HealthController.live
unfoldable pub live : Answer
unfolding status_only
live = record { status_code = 200; body = status_only pass }

-- HealthCheckService.evaluate, of the value that the registry's evaluate comes to
unfoldable pub evaluate_service : HealthConfig → HealthEvaluation → Bool × HealthReport
evaluate_service config value = (value.ready, build_report value.evaluated config.expose_detail)

-- HealthController.ready
unfoldable pub ready : Bool → HealthConfig → HealthEvaluation → Answer
unfolding status_only
ready draining config value =
    let (is_ready, r) = evaluate_service config value in
    if draining
    then record { status_code = 503; body = status_only fail }
    else record { status_code = if not is_ready then 503 else 200; body = status_only r.status }

-- HealthController.detail
unfoldable pub detail : Bool → HealthConfig → HealthEvaluation → Answer
unfolding status_only
detail draining config value =
    let r = report config value in
    if draining
    then record { status_code = 503; body = status_only fail }
    else record { status_code = if is_fail r.status then 503 else 200; body = r }

-- CircuitState, with the values that none of its members has
pub data CircuitState : Type 0 where
  closed opened half_open isolated unknown : CircuitState

-- STATES
unfoldable pub states : CircuitState → Option (String × HealthStatus)
states closed = some ("closed", pass)
states opened = some ("open", fail)
states half_open = some ("half-open", warn)
states isolated = some ("isolated", fail)
states unknown = none

breaker_result : Option (String × HealthStatus) → HealthCheckResult
breaker_result none = record {
  status = warn;
  detail = some (units "circuit-unknown");
  observed_value = none;
}
breaker_result (some (name, status)) =
    if is_pass status
    then record { status = pass; detail = none; observed_value = none }
    else record {
      status = status;
      detail = some (units ("circuit-" <> name));
      observed_value = none;
    }

-- breakerCheck: the check's members, and what its `check` returns
unfoldable pub breaker_check : Units → CircuitState → Option Bool → HealthCheck × HealthCheckResult
unfolding breaker_result
breaker_check name state critical =
    (record { name = name; critical = or_else critical false }, breaker_result (states state))
