-- ===== src/Health/Shutdown/Sequence/Order.antt =====
-- The order of the calls that the shutdown makes, and where it stops short
-- (packages/tsed-health/src/createShutdownHandler.ts).
-- The calls on the way from a signal to the end; those of `onHardDeadline` come from a timer beside it.
use mathlib.Core.List.{append_assoc}
use homelab_apps.Prelude.{
  ◌∙◌, ◌≡◌, refl, ap, inl, inr, Bool, true, false, List, [], ◌∷◌, ◌++◌, arith, ltb, Bool-cases,
  Some,
}
use homelab_apps.Health.Shutdown.{
  draining, stopping, stopped, ShutdownHandlerOptions, Stage, waiting, delaying, awaiting_stop,
  awaiting_on_stopped, ended, Handler, Effect, calls_on_shutdown, begins_drain, calls_stop,
  calls_on_stopped, calls_on_hard_deadline, ShutdownEvent, signal, delay_over, deadline_over,
  stop_over, on_stopped_over, finish, at_stage, begin_drain, begin_stop, begin_delay, arm, start,
  after_stop, disarm, on_await, handle,
}
use homelab_apps.Health.Shutdown.Sequence.Steps.{IsValid, handler}

abbrev pub calls : List Effect → List Effect
calls [] = []
calls (calls_on_hard_deadline ∷ es) = calls es
calls (calls_on_shutdown p ∷ es) = calls_on_shutdown p ∷ calls es
calls (begins_drain ∷ es) = begins_drain ∷ calls es
calls (calls_stop ∷ es) = calls_stop ∷ calls es
calls (calls_on_stopped ∷ es) = calls_on_stopped ∷ calls es

pub calls-append : (a b : List Effect) → calls (a ++ b) ≡ calls a ++ calls b
calls-append [] b = refl
calls-append (calls_on_hard_deadline ∷ a) b = calls-append a b
calls-append (calls_on_shutdown p ∷ a) b = ap (λ es. calls_on_shutdown p ∷ es) (calls-append a b)
calls-append (begins_drain ∷ a) b = ap (λ es. begins_drain ∷ es) (calls-append a b)
calls-append (calls_stop ∷ a) b = ap (λ es. calls_stop ∷ es) (calls-append a b)
calls-append (calls_on_stopped ∷ a) b = ap (λ es. calls_on_stopped ∷ es) (calls-append a b)

pub calls-prefix :
    (a b first later left : List Effect)
    → calls b ++ later ≡ first
    → calls a ++ first ≡ left
    → calls (a ++ b) ++ later ≡ left
calls-prefix a b first later left behind before =
    ap (λ es. es ++ later) (calls-append a b)
    ∙ append_assoc (calls a) (calls b) later
    ∙ ap (λ es. calls a ++ es) behind
    ∙ before

-- The calls of a whole shutdown that come after each of its awaits, and before the first.
abbrev pub ahead : Stage → List Effect
ahead waiting =
    calls_on_shutdown draining
    ∷ begins_drain
    ∷ calls_on_shutdown stopping
    ∷ calls_stop
    ∷ calls_on_shutdown stopped
    ∷ calls_on_stopped
    ∷ []
ahead delaying =
    calls_on_shutdown stopping ∷ calls_stop ∷ calls_on_shutdown stopped ∷ calls_on_stopped ∷ []
ahead awaiting_stop = calls_on_shutdown stopped ∷ calls_on_stopped ∷ []
ahead awaiting_on_stopped = []
ahead ended = []

module _ (options : ShutdownHandlerOptions) (all : List ShutdownEvent) where
  -- Why a run is over, by what it leaves out.
  pub data Over : List Effect → Type 0 where
    complete : Over []
    no_hook : options.has_on_stopped ≡ false → Over (calls_on_stopped ∷ [])
    stopped_throws : options.on_shutdown_throws stopped ≡ true → Over (calls_on_stopped ∷ [])
    stop_rejects :
        Some (λ e. e ≡ stop_over false) all
        → Over (calls_on_shutdown stopped ∷ calls_on_stopped ∷ [])
    stopping_throws :
        options.on_shutdown_throws stopping ≡ true
        → Over (calls_stop ∷ calls_on_shutdown stopped ∷ calls_on_stopped ∷ [])
    draining_throws :
        options.on_shutdown_throws draining ≡ true → Over (begins_drain ∷ ahead delaying)

  -- What is left at a stage of a run whose events are among `all`.
  abbrev pub Stands : Stage → List Effect → Type 0
  Stands waiting left = left ≡ ahead waiting
  Stands delaying left = left ≡ ahead delaying
  Stands awaiting_stop left = left ≡ ahead awaiting_stop
  Stands awaiting_on_stopped left = left ≡ ahead awaiting_on_stopped
  Stands ended left = Over left

  -- The calls made are the first ones of `left`, and the others are what is left at the stage reached.
  abbrev pub Goes : List Effect → Handler × List Effect → Type 0
  Goes left (h, es) = (later : List Effect) × (calls es ++ later ≡ left) × Stands h.stage later

  -- The calls of a handler are the first ones of a whole shutdown.
  abbrev pub InOrder : Handler × List Effect → Type 0
  InOrder = Goes (ahead waiting)

  same-Goes : (left : List Effect) (h : Handler) → Stands h.stage left → Goes left (h, [])
  same-Goes left h stands = (left, refl, stands)

  begin_stop-Goes : (h : Handler) → Goes (ahead delaying) (begin_stop options h)
  unfolding begin_stop finish at_stage
  begin_stop-Goes h = elim (Bool-cases (options.on_shutdown_throws stopping)) [
    | inl throws ↦ rw throws (_, refl, stopping_throws throws)
    | inr calls ↦ rw calls (_, refl, refl)
  ]

  begin_delay-Goes : (h : Handler) → Goes (begins_drain ∷ ahead delaying) (begin_delay options h)
  unfolding begin_delay begin_drain at_stage
  begin_delay-Goes h = elim (Bool-cases (ltb 0 options.drain_delay_ms)) [
    | inl waits ↦ rw waits (_, refl, refl)
    | inr goes_on ↦ rw goes_on (
        let (later, first, stands) = begin_stop-Goes (begin_drain h) in
        (later, ap (λ es. begins_drain ∷ es) first, stands))
  ]

  start-Goes : (h : Handler) → Goes (ahead waiting) (start options h)
  unfolding start arm finish
  start-Goes h = elim (Bool-cases (options.on_shutdown_throws draining)) [
    | inl throws ↦ rw throws (_, refl, draining_throws throws)
    | inr goes_on ↦ rw goes_on (
        let (later, first, stands) = begin_delay-Goes (arm options h) in
        (later, ap (λ es. calls_on_shutdown draining ∷ es) first, stands))
  ]

  after_stop-Goes :
      (ok : Bool) (h : Handler)
      → Some (λ e. e ≡ stop_over ok) all
      → Goes (ahead awaiting_stop) (after_stop options ok h)
  unfolding after_stop finish at_stage
  after_stop-Goes false h seen = (_, refl, stop_rejects seen)
  after_stop-Goes true h seen = elim (Bool-cases (options.on_shutdown_throws stopped)) [
    | inl throws ↦ rw throws (_, refl, stopped_throws throws)
    | inr goes_on ↦ rw goes_on (elim (Bool-cases options.has_on_stopped) [
      | inl hook ↦ rw hook (_, refl, refl)
      | inr none_set ↦ simp none_set (_, refl, no_hook none_set)
    ])
  ]

  on_await-Goes :
      (event : ShutdownEvent)
      → Some (λ e. e ≡ event) all
      → (left : List Effect) (s : Stage) (h : Handler) → h.stage ≡ s
      → Stands s left
      → Goes left (on_await options event s h)
  unfolding on_await finish
  on_await-Goes delay_over seen left delaying h at stands = rw stands (begin_stop-Goes h)
  on_await-Goes (stop_over ok) seen left awaiting_stop h at stands =
      rw stands (after_stop-Goes ok h seen)
  on_await-Goes (on_stopped_over ok) seen left awaiting_on_stopped h at stands =
      rw stands (_, refl, complete)
  on_await-Goes signal seen left s h at stands = same-Goes left h (rw at stands)
  on_await-Goes deadline_over seen left s h at stands = same-Goes left h (rw at stands)
  on_await-Goes delay_over seen left waiting h at stands = same-Goes left h (rw at stands)
  on_await-Goes delay_over seen left awaiting_stop h at stands = same-Goes left h (rw at stands)
  on_await-Goes delay_over seen left awaiting_on_stopped h at stands =
      same-Goes left h (rw at stands)
  on_await-Goes delay_over seen left ended h at stands = same-Goes left h (rw at stands)
  on_await-Goes (stop_over ok) seen left waiting h at stands = same-Goes left h (rw at stands)
  on_await-Goes (stop_over ok) seen left delaying h at stands = same-Goes left h (rw at stands)
  on_await-Goes (stop_over ok) seen left awaiting_on_stopped h at stands =
      same-Goes left h (rw at stands)
  on_await-Goes (stop_over ok) seen left ended h at stands = same-Goes left h (rw at stands)
  on_await-Goes (on_stopped_over ok) seen left waiting h at stands = same-Goes left h (rw at stands)
  on_await-Goes (on_stopped_over ok) seen left delaying h at stands =
      same-Goes left h (rw at stands)
  on_await-Goes (on_stopped_over ok) seen left awaiting_stop h at stands =
      same-Goes left h (rw at stands)
  on_await-Goes (on_stopped_over ok) seen left ended h at stands = same-Goes left h (rw at stands)

  pub handle-Goes :
      (event : ShutdownEvent)
      → Some (λ e. e ≡ event) all
      → (left : List Effect) (sd drains armed : Bool) (s : Stage)
      → IsValid (handler sd drains armed s)
      → Stands s left
      → Goes left (handle options event (handler sd drains armed s))
  unfolding handle disarm
  handle-Goes signal seen left true drains armed s valid stands =
      same-Goes left (handler true drains armed s) stands
  handle-Goes signal seen left false drains armed waiting valid stands =
      rw stands (start-Goes (handler false drains armed waiting))
  handle-Goes signal seen left false drains armed delaying valid stands =
      absurd (ground (arith, valid.1))
  handle-Goes signal seen left false drains armed awaiting_stop valid stands =
      absurd (ground (arith, valid))
  handle-Goes signal seen left false drains armed awaiting_on_stopped valid stands =
      absurd (ground (arith, valid))
  handle-Goes signal seen left false drains armed ended valid stands =
      absurd (ground (arith, valid.1))
  handle-Goes deadline_over seen left sd drains false s valid stands =
      same-Goes left (handler sd drains false s) stands
  handle-Goes deadline_over seen left sd drains true s valid stands = (left, refl, stands)
  handle-Goes delay_over seen left sd drains armed s valid stands =
      on_await-Goes delay_over seen left s (handler sd drains armed s) refl stands
  handle-Goes (stop_over ok) seen left sd drains armed s valid stands =
      on_await-Goes (stop_over ok) seen left s (handler sd drains armed s) refl stands
  handle-Goes (on_stopped_over ok) seen left sd drains armed s valid stands =
      on_await-Goes (on_stopped_over ok) seen left s (handler sd drains armed s) refl stands
