-- ===== src/Tests/HealthChecks.antt =====
-- The health theorems at work on small inputs.
use homelab_apps.Health.Shutdown.Sequence.Order.{InOrder}
use homelab_apps.Prelude.{
  ℕ, ◌≤◌, ◌<◌, ◌≡◌, ◌≢◌, ◌↔◌, true, false, none, some, List, [], ◌∷◌, All, if◌then◌else◌, ◌==◌,
  refl,
}
use homelab_apps.Prelude.Text.{Units, units}
use homelab_apps.Health.Report.{
  HealthCheckResult, EvaluatedCheck, Checks, HealthStatus, pass, fail, is_ready, roll_up,
  build_report,
}
use homelab_apps.Health.Report.Verdict.{Tolerable, Passes, roll_up_iff}
use homelab_apps.Health.Report.Keys.{Keeps, build_report-Keeps}
use homelab_apps.Health.Registry.{
  HealthCheck, HealthConfig, Outcome, answered, timed_out, RegistryEvent, evaluates, settles,
  releases, run_all,
}
use homelab_apps.Health.Probes.{ready, detail, live}
use homelab_apps.Health.Drain.{ready-handle_all}
use homelab_apps.Health.Probes.Readiness.{ready-detail}
use homelab_apps.Health.Shutdown.{
  ShutdownHandlerOptions, ShutdownEvent, signal, delay_over, stop_over, on_stopped_over,
  deadline_over, new_handler, handle_all,
}
use homelab_apps.Health.Shutdown.Sequence.{handle_all-once}
use homelab_apps.Health.Shutdown.Sequence.Steps.{
  stops_in, hooks_in, deadlines_in, deadlines_allowed,
}

abbrev plain : HealthStatus → HealthCheckResult
plain s = record { status = s; detail = none; observed_value = none }

-- Two checks of one name; the one that failed is not critical.
abbrev two_checks : List EvaluatedCheck
two_checks =
    record { name = units "mongodb"; critical = true; result = plain pass }
    ∷ record { name = units "mongodb"; critical = false; result = plain fail }
    ∷ []

roll_up_iff_example :
    ((is_ready two_checks ≡ true) ↔ All Tolerable two_checks)
    × ((roll_up two_checks ≢ fail) ↔ All Tolerable two_checks)
    × ((roll_up two_checks ≡ pass) ↔ All Passes two_checks)
roll_up_iff_example = roll_up_iff two_checks

build_report-Keeps_example :
    ((cs : Checks) × (ks : List Units) × ((build_report two_checks true).checks ≡ some cs)
      × Keeps cs two_checks ks)
    × ((build_report two_checks false).checks ≡ none)
    × ((build_report two_checks true).status ≡ roll_up two_checks)
    × ((build_report two_checks false).status ≡ roll_up two_checks)
build_report-Keeps_example = build_report-Keeps two_checks

abbrev config : HealthConfig
config = record { cache_ttl_ms = 1000; expose_detail = true }

abbrev checks : List HealthCheck
checks =
    record { name = units "mongodb"; critical = true }
    ∷ record { name = units "mqtt"; critical = false }
    ∷ []

-- The first check answers; the second does not in time.
abbrev outcomes : ℕ → Outcome
outcomes i = if i == 0 then answered (plain pass) else timed_out

abbrev events : List RegistryEvent
events = evaluates 0 ∷ evaluates 5 ∷ settles outcomes 2000 ∷ releases ∷ evaluates 2400 ∷ []

ready-detail_example :
    ((ready false config (run_all checks outcomes)).status_code
      ≡ (detail false config (run_all checks outcomes)).status_code)
    × ((ready false config (run_all checks outcomes)).body.status
        ≡ (detail false config (run_all checks outcomes)).body.status)
    × (((ready false config (run_all checks outcomes)).status_code ≡ 200)
        ↔ ((false ≡ false) × All Tolerable (run_all checks outcomes).evaluated))
ready-detail_example = ready-detail false config checks outcomes

abbrev options : ShutdownHandlerOptions
options = record {
  drain_delay_ms = 5000;
  hard_deadline_ms = 20000;
  on_shutdown_throws = λ _. false;
  has_on_stopped = true;
}

-- A second signal while the platform stops, and a deadline that comes before its end.
abbrev shutdown : List ShutdownEvent
shutdown =
    signal
    ∷ delay_over
    ∷ signal
    ∷ deadline_over
    ∷ stop_over true
    ∷ on_stopped_over true
    ∷ deadline_over
    ∷ []

handle_all-once_example :
    (stops_in (handle_all options shutdown new_handler).1 ≤ 1)
    × (hooks_in (handle_all options shutdown new_handler).1
        ≤ stops_in (handle_all options shutdown new_handler).1)
    × (deadlines_in (handle_all options shutdown new_handler).1 ≤ deadlines_allowed options)
    × (0 < stops_in (handle_all options shutdown new_handler).1
        → (handle_all options shutdown new_handler).0.drains ≡ true)
    × InOrder options shutdown (handle_all options shutdown new_handler)
handle_all-once_example = handle_all-once options shutdown

ready-handle_all_example :
    ((ready
        (handle_all options (signal ∷ delay_over ∷ []) new_handler).0.drains
        config
        (run_all checks outcomes)).status_code
      ≡ 503)
    × ((detail
          (handle_all options (signal ∷ delay_over ∷ []) new_handler).0.drains
          config
          (run_all checks outcomes)).status_code
        ≡ 503)
    × (live.status_code ≡ 200)
ready-handle_all_example =
    ready-handle_all options (delay_over ∷ []) config (run_all checks outcomes) refl
