-- ===== src/Resilience/Call.antt =====
-- The work of one attempt under a parent's signal: its start in a microtask, its end, and the abort of
-- the parent or of the timeout, in any order (executeWithParentCancellation of
-- packages/resilience/src/ResiliencePolicy.ts).
pub mod Cancellation
use homelab_apps.Prelude.{
  ℕ, zero, suc, Bool, true, false, Option, none, some, List, [], ◌∷◌, if◌then◌else◌,
}
use homelab_apps.Resilience.{Failure, parent_cancellation, Settled, resolved, rejected}

-- `parentSignal.aborted`, whether the two abort listeners are there, whether the microtask is queued,
-- whether `fn` runs and how often it was called, and what the promise is settled with.
pub record Call {ℓ} (E A : Type ℓ) : Type ℓ where
  pub aborted : Bool
  pub listens : Bool
  pub queued : Bool
  pub runs : Bool
  pub calls : ℕ
  pub outcome : Option (Settled E A)

pub data CallEvent {ℓ} (E A : Type ℓ) : Type ℓ where
  parent_aborts timeout_aborts microtask : CallEvent E A
  work_ends : Settled E A → CallEvent E A

module _ {ℓ} {E A : Type ℓ} where
  -- `resolve` and `reject`, of which the first call counts.
  unfoldable pub settle_once : Settled E A → Option (Settled E A) → Option (Settled E A)
  settle_once r none = some r
  settle_once r (some first) = some first

  -- `cleanup`
  unfoldable pub cleanup : Call E A → Call E A
  cleanup c = record c { listens = false }

  -- cleanup, and the promise settled
  unfoldable pub finish : Settled E A → Call E A → Call E A
  unfolding cleanup settle_once
  finish r c = record (cleanup c) { outcome = settle_once r c.outcome }

  -- `onParentAbort`, which the signal calls while it listens
  unfoldable pub on_parent_abort : Call E A → Call E A
  on_parent_abort c = if c.listens then finish (rejected parent_cancellation) c else c

  -- The promise's executor, up to the microtask that it queues.
  unfoldable pub open_call : Bool → Call E A
  open_call aborted =
      let listening : Call E A = record {
        aborted = aborted;
        listens = true;
        queued = true;
        runs = false;
        calls = 0;
        outcome = none;
      } in
      if aborted then on_parent_abort (record listening { queued = false }) else listening

  -- The microtask: `fn` is called unless the parent aborted.
  unfoldable pub start_work : Call E A → Call E A
  start_work c =
      if c.aborted
      then finish (rejected parent_cancellation) c
      else record c { runs = true; calls = suc c.calls }

  -- The end of `fn`.
  unfoldable pub end_work : Settled E A → Call E A → Call E A
  end_work (resolved a) c = finish (resolved a) c
  end_work (rejected f) c =
      finish (if c.aborted then rejected parent_cancellation else rejected f) c

  unfoldable pub advance : CallEvent E A → Call E A → Call E A
  advance parent_aborts c = if c.aborted then c else on_parent_abort (record c { aborted = true })
  advance timeout_aborts c = if c.listens then cleanup c else c
  advance microtask c = if c.queued then start_work (record c { queued = false }) else c
  advance (work_ends r) c = if c.runs then end_work r (record c { runs = false }) else c

  unfoldable pub advance_all : List (CallEvent E A) → Call E A → Call E A
  advance_all [] c = c
  advance_all (event ∷ events) c = advance_all events (advance event c)
