-- ===== src/Health/Drain.antt =====
-- What the probes answer once the process is shutting down
-- (packages/tsed-health/src/createShutdownHandler.ts and HealthController.ts).
use homelab_apps.Prelude.{◌≡◌, refl, true, false, List, ◌∷◌, inl, inr, Bool-cases, ltb}
use homelab_apps.Health.Registry.{HealthConfig, HealthEvaluation}
use homelab_apps.Health.Probes.{ready, detail, live}
use homelab_apps.Health.Shutdown.{
  ShutdownHandlerOptions, draining, stopping, Handler, ShutdownEvent, signal, new_handler,
  begin_drain, begin_stop, begin_delay, at_stage, finish, arm, start, handle, handle_all,
}
use homelab_apps.Health.Shutdown.Sequence.{handle_all-drains}

drains-begin_stop :
    (options : ShutdownHandlerOptions) (h : Handler) → (begin_stop options h).0.drains ≡ h.drains
unfolding begin_stop at_stage finish
drains-begin_stop options h = elim (Bool-cases (options.on_shutdown_throws stopping)) [
  | inl throws ↦ rw throws refl
  | inr calls ↦ rw calls refl
]

drains-begin_delay :
    (options : ShutdownHandlerOptions) (h : Handler) → (begin_delay options h).0.drains ≡ true
unfolding begin_delay at_stage begin_drain
drains-begin_delay options h = elim (Bool-cases (ltb 0 options.drain_delay_ms)) [
  | inl waits ↦ rw waits refl
  | inr goes_on ↦ rw goes_on (drains-begin_stop options (begin_drain h))
]

drains-signal :
    (options : ShutdownHandlerOptions)
    → options.on_shutdown_throws draining ≡ false
    → (handle options signal new_handler).0.drains ≡ true
unfolding handle start new_handler
drains-signal options calls = rw calls (drains-begin_delay options (arm options new_handler))

-- From the first signal on, whatever follows it, readiness and the full report answer 503 for every
-- evaluation, and liveness answers 200, if the hook told of the drain does not throw.
pub ready-handle_all :
    (options : ShutdownHandlerOptions) (events : List ShutdownEvent) (config : HealthConfig)
    (v : HealthEvaluation)
    → options.on_shutdown_throws draining ≡ false
    → ((ready (handle_all options (signal ∷ events) new_handler).0.drains config v).status_code
        ≡ 503)
      × ((detail (handle_all options (signal ∷ events) new_handler).0.drains config v).status_code
          ≡ 503)
      × (live.status_code ≡ 200)
unfolding ready detail live
ready-handle_all options events config v calls =
    rw (handle_all-drains options events (drains-signal options calls)) (refl, refl, refl)
