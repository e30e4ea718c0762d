-- ===== src/Tests/ResilientCalls.antt =====
-- The resilience theorems at work on a call that is retried and on one that is cancelled.
use homelab_apps.Prelude.{
  ℕ, ◌≤◌, ◌≡◌, refl, Bool, true, false, Option, none, some, List, [], ◌∷◌, ◌++◌, if◌then◌else◌,
  ◌==◌,
}
use homelab_apps.Resilience.{
  Failure, parent_cancellation, other, Settled, resolved, rejected, RetryConfig, Round, Effect,
  attempts, retries, max_retries, execute,
}
use homelab_apps.Resilience.Attempts.{retried, allowed, Turns, Ends, execute-settles}
use homelab_apps.Resilience.Call.{
  CallEvent, parent_aborts, microtask, work_ends, open_call, advance_all,
}
use homelab_apps.Resilience.Call.Cancellation.{abort-calls, abort-outcome}

abbrev twice : Option RetryConfig
twice = some (record { count = 2; backoff_ms = 250 })

abbrev every : Failure ℕ → Bool
every _ = true

-- The first attempt fails with status 503, the second returns 7.
abbrev rounds : ℕ → Round ℕ ℕ
rounds n = record {
  aborted = false;
  result = if n == 0 then rejected (other 503) else resolved 7;
  aborted_after = false;
  aborted_in_backoff = false;
}

second_attempt :
    execute every twice none rounds ≡ some (resolved 7, attempts 0 ∷ retries 1 ∷ attempts 1 ∷ [])
unfolding execute max_retries homelab_apps.Resilience.attempt_from
    homelab_apps.Resilience.after_attempt homelab_apps.Resilience.is_parent_cancellation
    homelab_apps.Resilience.after_retry
second_attempt = refl

no_retry : execute every twice (some false) rounds ≡ some (rejected (other 503), attempts 0 ∷ [])
unfolding execute max_retries homelab_apps.Resilience.attempt_from
    homelab_apps.Resilience.after_attempt homelab_apps.Resilience.is_parent_cancellation
no_retry = refl

execute-settles_example :
    (o : Settled ℕ ℕ) × (es : List Effect) × (m : ℕ) × (execute every twice none rounds
      ≡ some (o, retried 0 m ++ es))
    × (m ≤ allowed twice none)
    × Turns every (allowed twice none) rounds 0 m
    × Ends every (allowed twice none) rounds m o es
execute-settles_example = execute-settles every twice none rounds

abbrev started : List (CallEvent ℕ ℕ)
started = microtask ∷ []

abbrev finished : List (CallEvent ℕ ℕ)
finished = work_ends (resolved 7) ∷ microtask ∷ []

abort-calls_example :
    ((advance_all started (open_call false)).calls ≤ 1)
    × ((advance_all (started ++ parent_aborts ∷ finished) (open_call false)).calls
        ≡ (advance_all started (open_call false)).calls)
abort-calls_example = abort-calls false started finished

still_listening : (advance_all started (open_call false)).listens ≡ true
unfolding advance_all open_call homelab_apps.Resilience.Call.advance
    homelab_apps.Resilience.Call.start_work
still_listening = refl

abort-outcome_example :
    (advance_all (started ++ parent_aborts ∷ finished) (open_call false)).outcome
    ≡ some (rejected parent_cancellation)
abort-outcome_example = abort-outcome false started finished still_listening
