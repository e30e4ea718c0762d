-- ===== src/Health/Shutdown/Sequence/Steps.antt =====
-- What each part of the handler's body keeps: how many calls may follow, and that the process drains
-- before it stops (packages/tsed-health/src/createShutdownHandler.ts).
use homelab_apps.Prelude.{
  ℕ, ◌+◌, ◌≤◌, ◌<◌, ◌≡◌, refl, Bool, true, false, List, [], ◌∷◌, if◌then◌else◌, ltb, arith, inl,
  inr, Bool-cases,
}
use homelab_apps.Health.Shutdown.{
  draining, stopping, stopped, ShutdownHandlerOptions, Stage, waiting, delaying, awaiting_stop,
  awaiting_on_stopped, ended, Handler, Effect, calls_stop, calls_on_stopped, calls_on_hard_deadline,
  ShutdownEvent, signal, delay_over, deadline_over, stop_over, on_stopped_over, finish, at_stage,
  begin_drain, begin_stop, begin_delay, arm, start, after_stop, on_await,
}

abbrev pub stops_in : List Effect → ℕ
stops_in [] = 0
stops_in (calls_stop ∷ es) = 1 + stops_in es
stops_in (_ ∷ es) = stops_in es

abbrev pub hooks_in : List Effect → ℕ
hooks_in [] = 0
hooks_in (calls_on_stopped ∷ es) = 1 + hooks_in es
hooks_in (_ ∷ es) = hooks_in es

abbrev pub deadlines_in : List Effect → ℕ
deadlines_in [] = 0
deadlines_in (calls_on_hard_deadline ∷ es) = 1 + deadlines_in es
deadlines_in (_ ∷ es) = deadlines_in es

-- How many calls of `stop` may follow, and how many of `onStopped` before the next `stop`.
abbrev pub stops_left : Stage → ℕ
stops_left waiting = 1
stops_left delaying = 1
stops_left _ = 0

abbrev pub hooks_left : Stage → ℕ
hooks_left awaiting_stop = 1
hooks_left _ = 0

-- How many calls of `onHardDeadline` may follow.
abbrev pub deadlines_allowed : ShutdownHandlerOptions → ℕ
deadlines_allowed options = if ltb 0 options.hard_deadline_ms then 1 else 0

abbrev pub deadlines_left : ShutdownHandlerOptions → Handler → ℕ
deadlines_left options h =
    if h.shutting_down then if h.armed then 1 else 0 else deadlines_allowed options

abbrev pub IsValidStage : Stage → Handler → Type 0
IsValidStage waiting h = h.armed ≡ false
IsValidStage delaying h = (h.drains ≡ true) × (h.shutting_down ≡ true)
IsValidStage ended h = (h.armed ≡ false) × (h.shutting_down ≡ true)
IsValidStage _ h = h.shutting_down ≡ true

-- A run that is past its start is guarded; one that waits drains; one that is over has no timer.
abbrev pub IsValid : Handler → Type 0
IsValid h = IsValidStage h.stage h

-- What one event keeps.
abbrev pub Keeps : ShutdownHandlerOptions → Handler → Handler × List Effect → Type 0
Keeps options h (next, es) =
    IsValid next
    × (stops_in es + stops_left next.stage ≤ stops_left h.stage)
    × (hooks_in es + hooks_left next.stage ≤ stops_in es + hooks_left h.stage)
    × (deadlines_in es + deadlines_left options next ≤ deadlines_left options h)
    × (h.drains ≡ true → next.drains ≡ true)
    × (0 < stops_in es → next.drains ≡ true)

pub Keeps-same :
    (options : ShutdownHandlerOptions) (h : Handler) → IsValid h → Keeps options h (h, [])
Keeps-same options h valid =
    (valid, omega arith, omega arith, omega arith, λ d. d, λ n. absurd (omega arith))

begin_stop-Keeps :
    (options : ShutdownHandlerOptions) (armed : Bool) (s : Stage)
    → stops_left s ≡ 1
    → hooks_left s ≡ 0
    → Keeps options
        (record { shutting_down = true; drains = true; armed = armed; stage = s })
        (begin_stop options
          (record { shutting_down = true; drains = true; armed = armed; stage = s }))
unfolding begin_stop finish at_stage
begin_stop-Keeps options armed s stops hooks =
    elim (Bool-cases (options.on_shutdown_throws stopping)) [
      | inl throws ↦
          rw throws ((refl, refl), omega arith, omega arith, omega arith, λ _. refl, λ _. refl)
      | inr calls ↦ rw calls (refl, omega arith, omega arith, omega arith, λ _. refl, λ _. refl)
    ]

begin_delay-Keeps :
    (options : ShutdownHandlerOptions) (drains armed : Bool) (s : Stage)
    → stops_left s ≡ 1
    → hooks_left s ≡ 0
    → Keeps options
        (record { shutting_down = true; drains = drains; armed = armed; stage = s })
        (begin_delay options
          (record { shutting_down = true; drains = drains; armed = armed; stage = s }))
unfolding begin_delay begin_drain at_stage
begin_delay-Keeps options drains armed s stops hooks =
    elim (Bool-cases (ltb 0 options.drain_delay_ms)) [
      | inl waits ↦
          rw waits ((refl, refl), omega arith, omega arith, omega arith, λ _. refl, λ _. refl)
      | inr goes_on ↦ rw goes_on (
          let (v, s₁, h₁, d₁, m₁, r₁) = begin_stop-Keeps options armed s stops hooks in
          (v, s₁, h₁, d₁, λ _. m₁ refl, r₁))
    ]

pub start-Keeps :
    (options : ShutdownHandlerOptions) (drains armed : Bool)
    → Keeps options
        (record { shutting_down = false; drains = drains; armed = armed; stage = waiting })
        (start options
          (record { shutting_down = false; drains = drains; armed = armed; stage = waiting }))
unfolding start arm finish
start-Keeps options drains armed = elim (Bool-cases (options.on_shutdown_throws draining)) [
  | inl throws ↦
      rw throws
        ((refl, refl), omega arith, omega arith, ground arith, λ d. d, λ n. absurd (omega arith))
  | inr goes_on ↦
      rw goes_on
        (begin_delay-Keeps options drains (ltb 0 options.hard_deadline_ms) waiting refl refl)
]

after_stop-Keeps :
    (options : ShutdownHandlerOptions) (ok drains armed : Bool)
    → Keeps options
        (record { shutting_down = true; drains = drains; armed = armed; stage = awaiting_stop })
        (after_stop options ok
          (record { shutting_down = true; drains = drains; armed = armed; stage = awaiting_stop }))
unfolding after_stop finish at_stage
after_stop-Keeps options false drains armed =
    ((refl, refl), omega arith, omega arith, ground arith, λ d. d, λ n. absurd (omega arith))
after_stop-Keeps options true drains armed =
    elim (Bool-cases (options.on_shutdown_throws stopped)) [
      | inl throws ↦
          rw throws (
            (refl, refl),
            omega arith,
            omega arith,
            ground arith,
            λ d. d,
            λ n. absurd (omega arith),
          )
      | inr goes_on ↦ rw goes_on (elim (Bool-cases options.has_on_stopped) [
        | inl hook ↦
            rw hook (refl, omega arith, omega arith, omega arith, λ d. d, λ n. absurd (omega arith))
        | inr no_hook ↦ rw no_hook (
          (refl, refl),
          omega arith,
          omega arith,
          ground arith,
          λ d. d,
          λ n. absurd (omega arith),
        )
      ])
    ]

abbrev pub handler : Bool → Bool → Bool → Stage → Handler
handler sd drains armed s = record { shutting_down = sd; drains = drains; armed = armed; stage = s }

on_stopped_over-Keeps :
    (options : ShutdownHandlerOptions) (drains armed : Bool)
    → Keeps options
        (handler true drains armed awaiting_on_stopped)
        (finish (handler true drains armed awaiting_on_stopped), [])
unfolding finish
on_stopped_over-Keeps options drains armed =
    ((refl, refl), omega arith, omega arith, ground arith, λ d. d, λ n. absurd (omega arith))

pub on_await-Keeps :
    (options : ShutdownHandlerOptions) (event : ShutdownEvent) (sd drains armed : Bool) (s : Stage)
    → IsValid (handler sd drains armed s)
    → Keeps options
        (handler sd drains armed s)
        (on_await options event s (handler sd drains armed s))
unfolding on_await
on_await-Keeps options signal sd drains armed s valid =
    Keeps-same options (handler sd drains armed s) valid
on_await-Keeps options deadline_over sd drains armed s valid =
    Keeps-same options (handler sd drains armed s) valid
on_await-Keeps options delay_over sd drains armed waiting valid =
    Keeps-same options (handler sd drains armed waiting) valid
on_await-Keeps options delay_over true true armed delaying valid =
    begin_stop-Keeps options armed delaying refl refl
on_await-Keeps options delay_over true false armed delaying valid = absurd (ground (arith, valid.0))
on_await-Keeps options delay_over false drains armed delaying valid =
    absurd (ground (arith, valid.1))
on_await-Keeps options delay_over sd drains armed awaiting_stop valid =
    Keeps-same options (handler sd drains armed awaiting_stop) valid
on_await-Keeps options delay_over sd drains armed awaiting_on_stopped valid =
    Keeps-same options (handler sd drains armed awaiting_on_stopped) valid
on_await-Keeps options delay_over sd drains armed ended valid =
    Keeps-same options (handler sd drains armed ended) valid
on_await-Keeps options (stop_over ok) sd drains armed waiting valid =
    Keeps-same options (handler sd drains armed waiting) valid
on_await-Keeps options (stop_over ok) sd drains armed delaying valid =
    Keeps-same options (handler sd drains armed delaying) valid
on_await-Keeps options (stop_over ok) true drains armed awaiting_stop valid =
    after_stop-Keeps options ok drains armed
on_await-Keeps options (stop_over ok) false drains armed awaiting_stop valid =
    absurd (ground (arith, valid))
on_await-Keeps options (stop_over ok) sd drains armed awaiting_on_stopped valid =
    Keeps-same options (handler sd drains armed awaiting_on_stopped) valid
on_await-Keeps options (stop_over ok) sd drains armed ended valid =
    Keeps-same options (handler sd drains armed ended) valid
on_await-Keeps options (on_stopped_over ok) sd drains armed waiting valid =
    Keeps-same options (handler sd drains armed waiting) valid
on_await-Keeps options (on_stopped_over ok) sd drains armed delaying valid =
    Keeps-same options (handler sd drains armed delaying) valid
on_await-Keeps options (on_stopped_over ok) sd drains armed awaiting_stop valid =
    Keeps-same options (handler sd drains armed awaiting_stop) valid
on_await-Keeps options (on_stopped_over ok) true drains armed awaiting_on_stopped valid =
    on_stopped_over-Keeps options drains armed
on_await-Keeps options (on_stopped_over ok) false drains armed awaiting_on_stopped valid =
    absurd (ground (arith, valid))
on_await-Keeps options (on_stopped_over ok) sd drains armed ended valid =
    Keeps-same options (handler sd drains armed ended) valid
