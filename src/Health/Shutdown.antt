-- ===== src/Health/Shutdown.antt =====
-- The shutdown sequence behind the signal handler, and the draining flag that it raises
-- (packages/tsed-health/src/createShutdownHandler.ts and ShutdownState.ts). A handler runs as a
-- sequence of events: a signal, the end of the drain, of the platform's `stop` and of `onStopped`, and
-- the hard deadline.
pub mod Sequence
use homelab_apps.Prelude.{
  ℕ, zero, suc, ◌+◌, Bool, true, false, List, [], ◌∷◌, ◌++◌, if◌then◌else◌, ltb,
}

-- The phases that `onShutdown` is called with.
pub data ShutdownPhase : Type 0 where
  draining stopping stopped : ShutdownPhase

-- ShutdownHandlerOptions, with the defaults taken; which calls of `onShutdown` throw, and whether
-- there is an `onStopped`.
pub record ShutdownHandlerOptions : Type 0 where
  pub drain_delay_ms : ℕ
  pub hard_deadline_ms : ℕ
  pub on_shutdown_throws : ShutdownPhase → Bool
  pub has_on_stopped : Bool

-- DEFAULT_DRAIN_DELAY_MS and DEFAULT_HARD_DEADLINE_MS
abbrev pub default_drain_delay_ms : ℕ
default_drain_delay_ms = 5000

abbrev pub default_hard_deadline_ms : ℕ
default_hard_deadline_ms = 0

-- Where the one run of the handler's body stands.
pub data Stage : Type 0 where
  waiting delaying awaiting_stop awaiting_on_stopped ended : Stage

-- The captured `shuttingDown`, ShutdownState's `_draining`, the armed timer and the stage.
pub record Handler : Type 0 where
  pub shutting_down : Bool
  pub drains : Bool
  pub armed : Bool
  pub stage : Stage

-- createShutdownHandler
unfoldable pub new_handler : Handler
new_handler = record { shutting_down = false; drains = false; armed = false; stage = waiting }

-- What the handler does to others: `begins_drain` is its call of ShutdownState's beginDrain.
pub data Effect : Type 0 where
  calls_on_shutdown : ShutdownPhase → Effect
  begins_drain calls_stop calls_on_stopped calls_on_hard_deadline : Effect

-- What happens to it; `ok` is false where the awaited promise rejects.
pub data ShutdownEvent : Type 0 where
  signal delay_over deadline_over : ShutdownEvent
  stop_over on_stopped_over : (ok : Bool) → ShutdownEvent

-- The `finally`: the timer is cleared, and the run is over.
unfoldable pub finish : Handler → Handler
finish h = record {
  shutting_down = h.shutting_down;
  drains = h.drains;
  armed = false;
  stage = ended;
}

unfoldable pub at_stage : Stage → Handler → Handler
at_stage s h = record {
  shutting_down = h.shutting_down;
  drains = h.drains;
  armed = h.armed;
  stage = s;
}

-- ShutdownState.beginDrain
unfoldable pub begin_drain : Handler → Handler
begin_drain h = record {
  shutting_down = h.shutting_down;
  drains = true;
  armed = h.armed;
  stage = h.stage;
}

-- `onShutdown?.('stopping'); await platform.stop()`
unfoldable pub begin_stop : ShutdownHandlerOptions → Handler → Handler × List Effect
unfolding finish at_stage
begin_stop options h =
    if options.on_shutdown_throws stopping
    then (finish h, calls_on_shutdown stopping ∷ [])
    else (at_stage awaiting_stop h, calls_on_shutdown stopping ∷ calls_stop ∷ [])

-- `beginDrain()`, and the wait where there is one
unfoldable pub begin_delay : ShutdownHandlerOptions → Handler → Handler × List Effect
unfolding at_stage
begin_delay options h =
    let (next, effects) = begin_stop options (begin_drain h) in
    if ltb 0 options.drain_delay_ms
    then (at_stage delaying (begin_drain h), begins_drain ∷ [])
    else (next, begins_drain ∷ effects)

-- `shuttingDown = true`, and the timer where there is a deadline
unfoldable pub arm : ShutdownHandlerOptions → Handler → Handler
arm options h = record {
  shutting_down = true;
  drains = h.drains;
  armed = ltb 0 options.hard_deadline_ms;
  stage = h.stage;
}

-- The body up to its first await; `try` begins after the timer is armed.
unfoldable pub start : ShutdownHandlerOptions → Handler → Handler × List Effect
start options h =
    let (next, effects) = begin_delay options (arm options h) in
    if options.on_shutdown_throws draining
    then (finish (arm options h), calls_on_shutdown draining ∷ [])
    else (next, calls_on_shutdown draining ∷ effects)

-- After the platform stopped: `onShutdown?.('stopped'); await onStopped?.()`
unfoldable pub after_stop : ShutdownHandlerOptions → Bool → Handler → Handler × List Effect
unfolding finish at_stage
after_stop options false h = (finish h, [])
after_stop options true h =
    if options.on_shutdown_throws stopped
    then (finish h, calls_on_shutdown stopped ∷ [])
    else if options.has_on_stopped
    then (at_stage awaiting_on_stopped h, calls_on_shutdown stopped ∷ calls_on_stopped ∷ [])
    else (finish h, calls_on_shutdown stopped ∷ [])

unfoldable pub disarm : Handler → Handler
disarm h = record {
  shutting_down = h.shutting_down;
  drains = h.drains;
  armed = false;
  stage = h.stage;
}

unfoldable pub on_await :
    ShutdownHandlerOptions → ShutdownEvent → Stage → Handler → Handler × List Effect
unfolding finish
on_await options delay_over delaying h = begin_stop options h
on_await options (stop_over ok) awaiting_stop h = after_stop options ok h
on_await options (on_stopped_over ok) awaiting_on_stopped h = (finish h, [])
on_await options _ _ h = (h, [])

-- The handler: the guard against a second signal, the timer, and what each await goes on with.
unfoldable pub handle : ShutdownHandlerOptions → ShutdownEvent → Handler → Handler × List Effect
unfolding disarm on_await
handle options signal h = if h.shutting_down then (h, []) else start options h
handle options deadline_over h =
    if h.armed then (disarm h, calls_on_hard_deadline ∷ []) else (h, [])
handle options event h = on_await options event h.stage h

unfoldable pub handle_all :
    ShutdownHandlerOptions → List ShutdownEvent → Handler → Handler × List Effect
handle_all options [] h = (h, [])
handle_all options (event ∷ events) h =
    let (next, now) = handle options event h in
    let (last, later) = handle_all options events next in (last, now ++ later)
