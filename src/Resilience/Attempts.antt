-- ===== src/Resilience/Attempts.antt =====
-- How many attempts a call makes, and what its last one leaves it with
-- (packages/resilience/src/ResiliencePolicy.ts).
use homelab_apps.Prelude.{
  none, ◌⊎◌, ◌≢◌, ◌<◌, ℕ, zero, suc, ◌+◌, ◌≤◌, ◌≡◌, refl, Bool, true, false, not, ◌||◌, Option,
  some, List, [], ◌∷◌, leb, arith, inl, inr, Bool-cases, ◌++◌, sym,
}
use mathlib.Core.Logic.{Lift}
use homelab_apps.Resilience.{
  Failure, parent_cancellation, cancelled, other, Settled, resolved, rejected, RetryConfig, Round,
  Effect, attempts, retries, is_parent_cancellation, max_retries, after_retry, after_attempt,
  attempt_from, execute,
}

-- The effects of `j` turns in a row that end in a retry, from attempt `n` on: the attempt is made, and the
-- next one's number is reported.
abbrev pub retried : ℕ → ℕ → List Effect
retried n zero = []
retried n (suc j) = attempts n ∷ retries (suc n) ∷ retried (suc n) j

handled_of : (a b : Bool) → (a || not b) ≡ false → b ≡ true
handled_of a true h = refl
handled_of true false h = sym h
handled_of false false h = sym h

final_of : (most n : ℕ) (b : Bool) → (leb most n || not b) ≡ true → (most ≤ n) ⊎ (b ≡ false)
final_of most n true h = inl (ground (arith, h))
final_of most n false h = inr refl

before_last : (most n : ℕ) (b : Bool) → (leb most n || not b) ≡ false → n < most
before_last most n b h = ground (arith, h)

module _ {ℓ} {E : Type ℓ} where
  cancels_of :
      (f : Failure E) (b : Bool)
      → (is_parent_cancellation f || b) ≡ true
      → (f ≡ parent_cancellation) ⊎ (b ≡ true)
  unfolding is_parent_cancellation
  cancels_of parent_cancellation b h = inl refl
  cancels_of cancelled b h = inr h
  cancels_of (other e) b h = inr h

  own_of :
      (f : Failure E) (b : Bool)
      → (is_parent_cancellation f || b) ≡ false
      → (f ≢ parent_cancellation) × (b ≡ false)
  unfolding is_parent_cancellation
  own_of parent_cancellation b h = absurd (cc)
  own_of cancelled b h = ((λ e. absurd (cc)), h)
  own_of (other x) b h = ((λ e. absurd (cc)), h)

-- The retries that a call is allowed: none where it asks for none or none are configured.
abbrev pub allowed : Option RetryConfig → Option Bool → ℕ
allowed retry (some false) = 0
allowed none (some true) = 0
allowed none none = 0
allowed (some retry) (some true) = retry.count
allowed (some retry) none = retry.count

max_retries-eq-allowed :
    (retry : Option RetryConfig) (options : Option Bool)
    → max_retries retry options ≡ allowed retry options
unfolding max_retries
max_retries-eq-allowed retry (some false) = refl
max_retries-eq-allowed none (some true) = refl
max_retries-eq-allowed none none = refl
max_retries-eq-allowed (some retry) (some true) = refl
max_retries-eq-allowed (some retry) none = refl

module _ {ℓ} {E A : Type ℓ} (should_handle : Failure E → Bool) (most : ℕ)
    (rounds : ℕ → Round E A) where
  -- The error of attempt `m` is the parent's abort, or comes behind it.
  abbrev pub Cancels : ℕ → Failure E → Type ℓ
  Cancels m f = (f ≡ parent_cancellation) ⊎ ((rounds m).aborted_after ≡ true)

  abbrev pub IsOwn : ℕ → Failure E → Type ℓ
  IsOwn m f = (f ≢ parent_cancellation) × ((rounds m).aborted_after ≡ false)

  -- There is no other attempt after `m`, for this error.
  abbrev pub IsFinal : ℕ → Failure E → Type 0
  IsFinal m f = (most ≤ m) ⊎ (should_handle f ≡ false)

  -- What makes turn `k` end in the next one: the parent does not abort, before the attempt, during it or
  -- in the backoff, and the attempt is rejected with an error that is handled.
  pub record Retriable (k : ℕ) : Type ℓ where
    pub running : (rounds k).aborted ≡ false
    pub error : Failure E
    pub fails : (rounds k).result ≡ rejected error
    pub own_error : IsOwn k error
    pub handled : should_handle error ≡ true
    pub waits : (rounds k).aborted_in_backoff ≡ false

  -- The `j` turns from `n` on all end in the next one.
  abbrev pub Turns : ℕ → ℕ → Type ℓ
  Turns n zero = Lift {0, ℓ} Unit
  Turns n (suc j) = Retriable n × Turns (suc n) j

  -- What turn `m` settles the call with, and what it does, where it is the last. One of the cases holds
  -- at most: each says that those the loop looks at before it do not.
  pub data Ends (m : ℕ) : Settled E A → List Effect → Type ℓ where
    cancelled_before : (rounds m).aborted ≡ true → Ends m (rejected parent_cancellation) []
    succeeded :
        (a : A)
        → (rounds m).aborted ≡ false
        → (rounds m).result ≡ resolved a
        → Ends m (resolved a) (attempts m ∷ [])
    cancelled_during :
        (f : Failure E)
        → (rounds m).aborted ≡ false
        → (rounds m).result ≡ rejected f
        → Cancels m f
        → Ends m (rejected parent_cancellation) (attempts m ∷ [])
    gave_up :
        (f : Failure E)
        → (rounds m).aborted ≡ false
        → (rounds m).result ≡ rejected f
        → IsOwn m f
        → IsFinal m f
        → Ends m (rejected f) (attempts m ∷ [])
    cancelled_waiting :
        (f : Failure E)
        → (rounds m).aborted ≡ false
        → (rounds m).result ≡ rejected f
        → IsOwn m f
        → m < most
        → should_handle f ≡ true
        → (rounds m).aborted_in_backoff ≡ true
        → Ends m (rejected parent_cancellation) (attempts m ∷ retries (suc m) ∷ [])

  -- The loop comes to an end within the retries that are left: after `j` of them.
  abbrev Finishes : ℕ → ℕ → Option (Settled E A × List Effect) → Type ℓ
  Finishes left n r =
      (o : Settled E A) × (es : List Effect) × (j : ℕ) × (m : ℕ) × (r ≡ some (o, retried n j ++ es))
      × (m ≡ n + j)
      × (j ≤ left)
      × Turns n j
      × Ends m o es

  -- What is known after turn `n`: no retry is left, or the turns after it come to an end.
  abbrev GoesOn : ℕ → ℕ → Option (Settled E A × List Effect) → Type ℓ
  GoesOn zero n rest = Lift (leb most n ≡ true)
  GoesOn (suc k) n rest = Finishes k (suc n) rest

  Ends-last :
      (left n : ℕ) (o : Settled E A) (es : List Effect)
      → Ends n o es
      → Finishes left n (some (o, es))
  Ends-last left n o es ends =
      (o, es, 0, n, refl, omega arith, omega arith, record { lower = tt }, ends)

  after_retry-Finishes :
      (left n : ℕ) (rest : Option (Settled E A × List Effect))
      → Retriable n
      → Finishes left (suc n) rest
      → Finishes (suc left) n (after_retry should_handle most n rest)
  unfolding after_retry
  after_retry-Finishes left n rest turn (o, es, j, m, same, at, few, turns, ends) =
      (o, es, suc j, m, rw same refl, omega arith, omega arith, (turn, turns), ends)

  retries_left :
      (left n : ℕ) (b : Bool) (rest : Option (Settled E A × List Effect))
      → (leb most n || b) ≡ false
      → Retriable n
      → GoesOn left n rest
      → Finishes left n (after_retry should_handle most n rest)
  retries_left zero n b rest retried turn go = absurd (ground (arith, go.lower, retried))
  retries_left (suc k) n b rest retried turn go = after_retry-Finishes k n rest turn go

  after_attempt-Finishes :
      (left n : ℕ) (result : Settled E A) (rest : Option (Settled E A × List Effect))
      → (rounds n).aborted ≡ false
      → (rounds n).result ≡ result
      → GoesOn left n rest
      → Finishes left n (
          after_attempt should_handle most n
            (rounds n).aborted_after
            (rounds n).aborted_in_backoff
            result
            rest)
  unfolding after_attempt
  after_attempt-Finishes left n (resolved a) rest runs same go =
      Ends-last left n (resolved a) (attempts n ∷ []) (succeeded a runs same)
  after_attempt-Finishes left n (rejected f) rest runs same go =
      elim (Bool-cases (is_parent_cancellation f || (rounds n).aborted_after)) [
        | inl stops ↦ rw stops (
            Ends-last left n (rejected parent_cancellation) (attempts n ∷ [])
              (cancelled_during f runs same (cancels_of f (rounds n).aborted_after stops)))
        | inr own ↦ rw own (elim (Bool-cases (leb most n || not (should_handle f))) [
          | inl gives_up ↦ rw gives_up (
              Ends-last left n (rejected f) (attempts n ∷ []) (
                gave_up f runs same (own_of f (rounds n).aborted_after own)
                  (final_of most n (should_handle f) gives_up)))
          | inr goes ↦ rw goes (elim (Bool-cases (rounds n).aborted_in_backoff) [
            | inl stops ↦ rw stops (
                Ends-last left n (rejected parent_cancellation) (attempts n ∷ retries (suc n) ∷ [])
                  (cancelled_waiting f runs same (own_of f (rounds n).aborted_after own)
                    (before_last most n (should_handle f) goes)
                    (handled_of (leb most n) (should_handle f) goes) stops))
            | inr waits ↦ rw waits (
                retries_left left n (not (should_handle f)) rest goes
                  (record {
                    running = runs;
                    error = f;
                    fails = same;
                    own_error = own_of f (rounds n).aborted_after own;
                    handled = handled_of (leb most n) (should_handle f) goes;
                    waits = waits;
                  })
                  go)
          ])
        ])
      ]

  turn-Finishes :
      (left n : ℕ)
      → GoesOn left n (attempt_from should_handle most rounds left (suc n))
      → Finishes left n (attempt_from should_handle most rounds (suc left) n)
  unfolding attempt_from
  turn-Finishes left n go = elim (Bool-cases (rounds n).aborted) [
    | inl stops ↦
        rw stops (Ends-last left n (rejected parent_cancellation) [] (cancelled_before stops))
    | inr runs ↦ rw runs (
        after_attempt-Finishes left n (rounds n).result
          (attempt_from should_handle most rounds left (suc n)) runs refl go)
  ]

  attempt_from-Finishes :
      (left n : ℕ)
      → n + left ≡ most
      → Finishes left n (attempt_from should_handle most rounds (suc left) n)
  attempt_from-Finishes zero n h = turn-Finishes zero n (record { lower = ground (arith, h) })
  attempt_from-Finishes (suc k) n h =
      turn-Finishes (suc k) n (attempt_from-Finishes k (suc n) (omega arith))

module _ {ℓ} {E A : Type ℓ} where
  -- A call always settles, with some attempt `m` as its last turn, which is no later than the retries
  -- allow (attempt 0, where retrying is off for the call). Each attempt before `m` is made once, in order
  -- from 0 on, fails with an error that is handled while the parent does not abort, and has the next one's
  -- number reported as a retry. Turn `m` settles the call: with a parent cancellation and no attempt,
  -- where the parent aborted before it; with the attempt's value, where it has one; with a parent
  -- cancellation, where the attempt is rejected with one or the parent aborted during it; with the
  -- attempt's own error, where no retry is left or the error is not handled; and with a parent
  -- cancellation after the retry is reported, where the parent aborts in the backoff.
  pub execute-settles :
      (should_handle : Failure E → Bool) (retry : Option RetryConfig) (options : Option Bool)
      (rounds : ℕ → Round E A)
      → (o : Settled E A) × (es : List Effect) × (m : ℕ) × (execute should_handle retry options
            rounds
          ≡ some (o, retried 0 m ++ es))
        × (m ≤ allowed retry options)
        × Turns should_handle (allowed retry options) rounds 0 m
        × Ends should_handle (allowed retry options) rounds m o es
  unfolding execute
  execute-settles should_handle retry options rounds = rw⁻¹ (max_retries-eq-allowed retry options) (
      let most = max_retries retry options in
      let (o, es, j, m, same, at, few, turns, ends) =
        attempt_from-Finishes should_handle most rounds most 0 (omega arith) in
      let last : j ≡ m = omega arith in (o, es, j, same, few, turns, rw last ends))
