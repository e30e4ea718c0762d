-- ===== src/Health/Shutdown/Sequence.antt =====
-- How often and in which order the shutdown calls what it calls
-- (packages/tsed-health/src/createShutdownHandler.ts).
pub mod Steps
pub mod Order
use mathlib.Core.List.{append_assoc}
use homelab_apps.Prelude.{
  ℕ, ◌+◌, ◌≤◌, ◌<◌, ◌≡◌, refl, Bool, true, false, List, [], ◌∷◌, if◌then◌else◌, ltb, arith, inl,
  inr, Bool-cases, ◌++◌, Some, here, there, ap, ◌∙◌,
}
use homelab_apps.Health.Shutdown.{
  draining, stopping, stopped, ShutdownHandlerOptions, Stage, waiting, delaying, awaiting_stop,
  awaiting_on_stopped, ended, Handler, new_handler, Effect, calls_on_shutdown, begins_drain,
  calls_stop, calls_on_stopped, calls_on_hard_deadline, ShutdownEvent, signal, delay_over,
  deadline_over, stop_over, on_stopped_over, finish, at_stage, begin_drain, begin_stop, begin_delay,
  arm, start, after_stop, disarm, on_await, handle, handle_all,
}
use homelab_apps.Health.Shutdown.Sequence.Steps.{
  stops_in, hooks_in, deadlines_in, stops_left, hooks_left, deadlines_allowed, deadlines_left,
  IsValidStage, IsValid, Keeps, Keeps-same, start-Keeps, handler, on_await-Keeps,
}
use homelab_apps.Health.Shutdown.Sequence.Order.{
  calls-prefix, calls, calls-append, ahead, Stands, Goes, InOrder, handle-Goes,
}

IsValid-disarm :
    (sd drains armed : Bool) (s : Stage)
    → IsValid (handler sd drains armed s)
    → IsValid (handler sd drains false s)
IsValid-disarm sd drains armed waiting valid = refl
IsValid-disarm sd drains armed delaying valid = valid
IsValid-disarm sd drains armed awaiting_stop valid = valid
IsValid-disarm sd drains armed awaiting_on_stopped valid = valid
IsValid-disarm sd drains armed ended valid = (refl, valid.1)

-- Only a run has a timer.
IsValid-armed : (sd drains : Bool) (s : Stage) → IsValid (handler sd drains true s) → sd ≡ true
IsValid-armed sd drains waiting valid = absurd (ground (arith, valid))
IsValid-armed sd drains delaying valid = valid.1
IsValid-armed sd drains awaiting_stop valid = valid
IsValid-armed sd drains awaiting_on_stopped valid = valid
IsValid-armed sd drains ended valid = valid.1

handle-Keeps :
    (options : ShutdownHandlerOptions) (event : ShutdownEvent) (sd drains armed : Bool) (s : Stage)
    → IsValid (handler sd drains armed s)
    → Keeps options (handler sd drains armed s) (handle options event (handler sd drains armed s))
unfolding handle disarm
handle-Keeps options signal true drains armed s valid =
    Keeps-same options (handler true drains armed s) valid
handle-Keeps options signal false drains armed waiting valid = start-Keeps options drains armed
handle-Keeps options signal false drains armed delaying valid = absurd (ground (arith, valid.1))
handle-Keeps options signal false drains armed awaiting_stop valid = absurd (ground (arith, valid))
handle-Keeps options signal false drains armed awaiting_on_stopped valid =
    absurd (ground (arith, valid))
handle-Keeps options signal false drains armed ended valid = absurd (ground (arith, valid.1))
handle-Keeps options deadline_over sd drains false s valid =
    Keeps-same options (handler sd drains false s) valid
handle-Keeps options deadline_over sd drains true s valid = (
  IsValid-disarm sd drains true s valid,
  omega arith,
  omega arith,
  rw (IsValid-armed sd drains s valid) (omega arith),
  λ d. d,
  λ n. absurd (omega arith),
)
handle-Keeps options delay_over sd drains armed s valid =
    on_await-Keeps options delay_over sd drains armed s valid
handle-Keeps options (stop_over ok) sd drains armed s valid =
    on_await-Keeps options (stop_over ok) sd drains armed s valid
handle-Keeps options (on_stopped_over ok) sd drains armed s valid =
    on_await-Keeps options (on_stopped_over ok) sd drains armed s valid

stops_in-append : (a b : List Effect) → stops_in (a ++ b) ≡ stops_in a + stops_in b
stops_in-append [] b = omega arith
stops_in-append (calls_on_shutdown p ∷ a) b = stops_in-append a b
stops_in-append (begins_drain ∷ a) b = stops_in-append a b
stops_in-append (calls_stop ∷ a) b = omega (arith, stops_in-append a b)
stops_in-append (calls_on_stopped ∷ a) b = stops_in-append a b
stops_in-append (calls_on_hard_deadline ∷ a) b = stops_in-append a b

hooks_in-append : (a b : List Effect) → hooks_in (a ++ b) ≡ hooks_in a + hooks_in b
hooks_in-append [] b = omega arith
hooks_in-append (calls_on_shutdown p ∷ a) b = hooks_in-append a b
hooks_in-append (begins_drain ∷ a) b = hooks_in-append a b
hooks_in-append (calls_stop ∷ a) b = hooks_in-append a b
hooks_in-append (calls_on_stopped ∷ a) b = omega (arith, hooks_in-append a b)
hooks_in-append (calls_on_hard_deadline ∷ a) b = hooks_in-append a b

deadlines_in-append : (a b : List Effect) → deadlines_in (a ++ b) ≡ deadlines_in a + deadlines_in b
deadlines_in-append [] b = omega arith
deadlines_in-append (calls_on_shutdown p ∷ a) b = deadlines_in-append a b
deadlines_in-append (begins_drain ∷ a) b = deadlines_in-append a b
deadlines_in-append (calls_stop ∷ a) b = deadlines_in-append a b
deadlines_in-append (calls_on_stopped ∷ a) b = deadlines_in-append a b
deadlines_in-append (calls_on_hard_deadline ∷ a) b = omega (arith, deadlines_in-append a b)

Keeps-append :
    (options : ShutdownHandlerOptions) (h₀ h₁ h₂ : Handler) (a b : List Effect)
    → Keeps options h₀ (h₁, a)
    → Keeps options h₁ (h₂, b)
    → Keeps options h₀ (h₂, a ++ b)
Keeps-append options h₀ h₁ h₂ a b (v₁, s₁, k₁, d₁, m₁, r₁) (v₂, s₂, k₂, d₂, m₂, r₂) =
    rw (stops_in-append a b, hooks_in-append a b, deadlines_in-append a b)
      (
        v₂,
        omega arith,
        omega arith,
        omega arith,
        λ d. m₂ (m₁ d),
        λ n. elim (Bool-cases (ltb 0 (stops_in b))) [
          | inl later ↦ r₂ (ground arith)
          | inr now ↦ m₂ (r₁ (ground arith))
        ],
      )

handle_all-Keeps :
    (options : ShutdownHandlerOptions) (events : List ShutdownEvent) (h : Handler)
    → IsValid h
    → Keeps options h (handle_all options events h)
unfolding handle_all
handle_all-Keeps options [] h valid = Keeps-same options h valid
handle_all-Keeps options (event ∷ events) h valid =
    let first = handle-Keeps options event h.shutting_down h.drains h.armed h.stage valid in
    Keeps-append options h _ _ (handle options event h).1
      (handle_all options events (handle options event h).0).1 first
      (handle_all-Keeps options events _ first.0)

handle_all-InOrder :
    (options : ShutdownHandlerOptions) (all events : List ShutdownEvent)
    → ((e : ShutdownEvent) → Some (λ x. x ≡ e) events → Some (λ x. x ≡ e) all)
    → (h : Handler) (left : List Effect) → IsValid h
    → Stands options all h.stage left
    → Goes options all left (handle_all options events h)
unfolding handle_all
handle_all-InOrder options all [] seen h left valid stands = (left, refl, stands)
handle_all-InOrder options all (event ∷ events) seen h left valid stands =
    let (next, now, at) =
      handle-Goes options all event (seen event (here refl)) left h.shutting_down h.drains h.armed
        h.stage valid stands in
    let (last, later, end) =
      handle_all-InOrder options all events (λ e m. seen e (there m)) (handle options event h).0
        next (handle-Keeps options event h.shutting_down h.drains h.armed h.stage valid).0 at in
    (
      last,
      calls-prefix (handle options event h).1
          (handle_all options events (handle options event h).0).1 next last left later now,
      end,
    )

-- However often it is signalled, and however its awaits end, a new handler calls `stop` at most once
-- and `onStopped` no more often than that, and calls `onHardDeadline` at most once, and never where no
-- deadline is set; when it has called `stop`, the process is draining. Its calls other than that of
-- `onHardDeadline` are the first ones of `onShutdown('draining')`, `beginDrain`,
-- `onShutdown('stopping')`, `stop`, `onShutdown('stopped')` and `onStopped`, in this order. What is left
-- of them is what follows the await that the run stands at, and where it is over, either nothing is left,
-- or the last `onShutdown` threw, or `stop` rejected, or only `onStopped` is left and there is none.
pub handle_all-once :
    (options : ShutdownHandlerOptions) (events : List ShutdownEvent)
    → (stops_in (handle_all options events new_handler).1 ≤ 1)
      × (hooks_in (handle_all options events new_handler).1
          ≤ stops_in (handle_all options events new_handler).1)
      × (deadlines_in (handle_all options events new_handler).1 ≤ deadlines_allowed options)
      × (0 < stops_in (handle_all options events new_handler).1
          → (handle_all options events new_handler).0.drains ≡ true)
      × InOrder options events (handle_all options events new_handler)
unfolding new_handler
handle_all-once options events =
    let (v, s, k, d, m, r) = handle_all-Keeps options events new_handler refl in
    (
      omega arith,
      omega arith,
      omega arith,
      r,
      handle_all-InOrder options events events (λ e at. at) new_handler (ahead waiting) refl refl,
    )

-- A process that drains at the first signal drains from then on.
pub handle_all-drains :
    (options : ShutdownHandlerOptions) (events : List ShutdownEvent)
    → (handle options signal new_handler).0.drains ≡ true
    → (handle_all options (signal ∷ events) new_handler).0.drains ≡ true
unfolding handle_all new_handler
handle_all-drains options events drains =
    let first = handle-Keeps options signal false false false waiting refl in
    let (v, s, k, d, m, r) =
      handle_all-Keeps options events (handle options signal new_handler).0 first.0 in
    m drains
