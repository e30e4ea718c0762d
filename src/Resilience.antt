-- ===== src/Resilience.antt =====
-- One call under a resilience policy: its attempts and retries, the work that an attempt runs, and what
-- the circuit breaker counts (packages/resilience/src/ResiliencePolicy.ts). The breaker and the timeout
-- themselves are a library's, and stand as the outcome of each attempt.
pub mod Call
pub mod Attempts
use homelab_apps.Prelude.{
  ℕ, zero, suc, ◌+◌, Bool, true, false, not, ◌&&◌, ◌||◌, Option, none, some, List, [], ◌∷◌, ◌++◌,
  if◌then◌else◌, leb, or_else,
}

module _ {ℓ} (E : Type ℓ) where
  -- What a promise rejects with: ParentCancellationError, another TaskCancelledError, any other error.
  pub data Failure : Type ℓ where
    parent_cancellation cancelled : Failure
    other : E → Failure

-- A settled promise.
pub data Settled {ℓ} (E A : Type ℓ) : Type ℓ where
  resolved : A → Settled E A
  rejected : Failure E → Settled E A

-- RetryConfigSchema
pub record RetryConfig : Type 0 where
  pub count : ℕ
  pub backoff_ms : ℕ

-- What one turn of the loop meets: the parent's signal where the loop reads it, the settled attempt,
-- and whether the parent aborts during the backoff.
pub record Round {ℓ} (E A : Type ℓ) : Type ℓ where
  pub aborted : Bool
  pub result : Settled E A
  pub aborted_after : Bool
  pub aborted_in_backoff : Bool

-- What the loop does: it makes the attempt, and reports a retry by its number.
pub data Effect : Type 0 where
  attempts retries : ℕ → Effect

module _ {ℓ} {E : Type ℓ} where
  -- isParentCancellationError
  unfoldable pub is_parent_cancellation : Failure E → Bool
  is_parent_cancellation parent_cancellation = true
  is_parent_cancellation _ = false

  -- isTaskCancelledError, of which ParentCancellationError is a subclass
  unfoldable pub is_task_cancelled : Failure E → Bool
  is_task_cancelled (other e) = false
  is_task_cancelled _ = true

  -- The filter of the breaker: whether a failure counts, of a trial in the half-open state or not.
  unfoldable pub counts_as_failure : (Failure E → Bool) → Bool → Failure E → Bool
  counts_as_failure should_handle is_trial f =
      if is_parent_cancellation f
      then is_trial
      else if is_task_cancelled f && is_trial
      then true
      else should_handle f

-- `executeOptions.retry === false ? 0 : cfg.retry?.count ?? 0`
unfoldable pub max_retries : Option RetryConfig → Option Bool → ℕ
max_retries retry (some false) = 0
max_retries none _ = 0
max_retries (some retry) _ = retry.count

module _ {ℓ} {E A : Type ℓ} (should_handle : Failure E → Bool) (most : ℕ) where
  unfoldable pub after_retry :
      ℕ → Option (Settled E A × List Effect) → Option (Settled E A × List Effect)
  after_retry attempt none = none
  after_retry attempt (some (r, effects)) =
      some (r, attempts attempt ∷ retries (suc attempt) ∷ effects)

  -- The end of one turn, given what the next turns come to.
  unfoldable pub after_attempt :
      ℕ
      → Bool
      → Bool
      → Settled E A
      → Option (Settled E A × List Effect)
      → Option (Settled E A × List Effect)
  after_attempt attempt aborted_after aborted_in_backoff (resolved a) rest =
      some (resolved a, attempts attempt ∷ [])
  after_attempt attempt aborted_after aborted_in_backoff (rejected f) rest =
      if is_parent_cancellation f || aborted_after
      then some (rejected parent_cancellation, attempts attempt ∷ [])
      else if leb most attempt || not (should_handle f)
      then some (rejected f, attempts attempt ∷ [])
      else if aborted_in_backoff
      then some (rejected parent_cancellation, attempts attempt ∷ retries (suc attempt) ∷ [])
      else after_retry attempt rest

  -- `for (let attempt = 0;; attempt++)`, on fuel
  unfoldable pub attempt_from : (ℕ → Round E A) → ℕ → ℕ → Option (Settled E A × List Effect)
  attempt_from rounds zero attempt = none
  attempt_from rounds (suc fuel) attempt =
      let rest = attempt_from rounds fuel (suc attempt) in
      let round = rounds attempt in
      if round.aborted
      then some (rejected parent_cancellation, [])
      else after_attempt attempt round.aborted_after round.aborted_in_backoff round.result rest

module _ {ℓ} {E A : Type ℓ} where
  -- execute: one attempt more than there are retries is all the fuel the loop needs.
  unfoldable pub execute :
      (Failure E → Bool)
      → Option RetryConfig
      → Option Bool
      → (ℕ → Round E A)
      → Option (Settled E A × List Effect)
  execute should_handle retry options rounds =
      attempt_from should_handle (max_retries retry options) rounds
        (suc (max_retries retry options)) 0
