-- ===== src/Resilience/Call/Cancellation.antt =====
-- What an abort of the parent does to the work of an attempt
-- (executeWithParentCancellation of packages/resilience/src/ResiliencePolicy.ts).
use homelab_apps.Prelude.{
  ◌+◌, ◌≤◌, ◌≡◌, refl, Bool, true, false, some, List, [], ◌∷◌, ◌++◌, if◌then◌else◌, arith, is_some,
  ◌∙◌,
}
use homelab_apps.Resilience.{parent_cancellation, Settled, resolved, rejected}
use homelab_apps.Resilience.Call.{
  Call, CallEvent, parent_aborts, timeout_aborts, microtask, work_ends, settle_once, cleanup,
  finish, on_parent_abort, open_call, start_work, end_work, advance, advance_all,
}

-- A call that listens is pending; a microtask that waits has called nothing, and afterwards `fn` was
-- called at most once.
pub record IsValid {ℓ} {E A : Type ℓ} (c : Call E A) : Type ℓ where
  pub pending : c.listens ≡ true → is_some c.outcome ≡ false
  pub unaborted : c.aborted ≡ true → c.listens ≡ false
  pub once : c.calls + (if c.queued then 1 else 0) ≤ 1

module _ {ℓ} {E A : Type ℓ} where
  open_call-IsValid : (aborted : Bool) → IsValid (open_call {E = E} {A = A} aborted)
  unfolding open_call on_parent_abort finish cleanup settle_once
  open_call-IsValid true = ground arith
  open_call-IsValid false = ground arith

  advance-IsValid : (event : CallEvent E A) (c : Call E A) → IsValid c → IsValid (advance event c)
  unfolding advance on_parent_abort finish cleanup settle_once start_work end_work
  advance-IsValid parent_aborts c v = ground arith
  advance-IsValid timeout_aborts c v = ground arith
  advance-IsValid microtask c v = ground arith
  advance-IsValid (work_ends (resolved a)) c v = ground arith
  advance-IsValid (work_ends (rejected f)) c v = ground arith

  -- No event begins the work of a call whose parent has aborted.
  advance-calls :
      (event : CallEvent E A) (c : Call E A)
      → c.aborted ≡ true
      → ((advance event c).calls ≡ c.calls) × ((advance event c).aborted ≡ true)
  unfolding advance on_parent_abort finish cleanup settle_once start_work end_work
  advance-calls parent_aborts c h = ground arith
  advance-calls timeout_aborts c h = ground arith
  advance-calls microtask c h = ground arith
  advance-calls (work_ends (resolved a)) c h = ground arith
  advance-calls (work_ends (rejected f)) c h = ground arith

  -- The outcome of a settled call stays.
  advance-outcome :
      (event : CallEvent E A) (c : Call E A) (r : Settled E A)
      → c.outcome ≡ some r
      → (advance event c).outcome ≡ some r
  unfolding advance on_parent_abort finish cleanup settle_once start_work end_work
  advance-outcome parent_aborts c r h = ground arith
  advance-outcome timeout_aborts c r h = ground arith
  advance-outcome microtask c r h = ground arith
  advance-outcome (work_ends (resolved a)) c r h = ground arith
  advance-outcome (work_ends (rejected f)) c r h = ground arith

  advance_all-append :
      (before after : List (CallEvent E A)) (c : Call E A)
      → advance_all (before ++ after) c ≡ advance_all after (advance_all before c)
  unfolding advance_all
  advance_all-append [] after c = refl
  advance_all-append (event ∷ before) after c = advance_all-append before after (advance event c)

  advance_all-IsValid :
      (events : List (CallEvent E A)) (c : Call E A) → IsValid c → IsValid (advance_all events c)
  unfolding advance_all
  advance_all-IsValid [] c v = v
  advance_all-IsValid (event ∷ events) c v =
      advance_all-IsValid events (advance event c) (advance-IsValid event c v)

  advance_all-calls :
      (events : List (CallEvent E A)) (c : Call E A)
      → c.aborted ≡ true
      → (advance_all events c).calls ≡ c.calls
  unfolding advance_all
  advance_all-calls [] c h = refl
  advance_all-calls (event ∷ events) c h =
      let (same, still) = advance-calls event c h in
      advance_all-calls events (advance event c) still ∙ same

  advance_all-outcome :
      (events : List (CallEvent E A)) (c : Call E A) (r : Settled E A)
      → c.outcome ≡ some r
      → (advance_all events c).outcome ≡ some r
  unfolding advance_all
  advance_all-outcome [] c r h = h
  advance_all-outcome (event ∷ events) c r h =
      advance_all-outcome events (advance event c) r (advance-outcome event c r h)

  parent_aborts-calls :
      (c : Call E A)
      → ((advance parent_aborts c).calls ≡ c.calls) × ((advance parent_aborts c).aborted ≡ true)
  unfolding advance on_parent_abort finish cleanup
  parent_aborts-calls c = ground arith

  parent_aborts-outcome :
      (c : Call E A)
      → IsValid c
      → c.listens ≡ true
      → (advance parent_aborts c).outcome ≡ some (rejected parent_cancellation)
  unfolding advance on_parent_abort finish cleanup settle_once
  parent_aborts-outcome c v h = ground arith

  -- The work of an attempt is called at most once, and never after its parent has aborted: from then
  -- on, no event adds a call.
  pub abort-calls :
      (aborted : Bool) (before after : List (CallEvent E A))
      → ((advance_all before (open_call aborted)).calls ≤ 1)
        × ((advance_all (before ++ parent_aborts ∷ after) (open_call aborted)).calls
            ≡ (advance_all before (open_call aborted)).calls)
  abort-calls aborted before after =
      let c = advance_all before (open_call {E = E} {A = A} aborted) in
      let v = advance_all-IsValid before (open_call aborted) (open_call-IsValid aborted) in
      let (same, still) = parent_aborts-calls c in
      (
        omega (arith, v.once),
        rw (advance_all-append before (parent_aborts ∷ after) (open_call aborted))
            (unfold advance_all in advance_all-calls after (advance parent_aborts c) still ∙ same),
      )

  -- An attempt that is still pending and listening when its parent aborts is settled with a parent
  -- cancellation, whatever its work does afterwards.
  pub abort-outcome :
      (aborted : Bool) (before after : List (CallEvent E A))
      → (advance_all before (open_call aborted)).listens ≡ true
      → (advance_all (before ++ parent_aborts ∷ after) (open_call aborted)).outcome
        ≡ some (rejected parent_cancellation)
  abort-outcome aborted before after h =
      let c = advance_all before (open_call {E = E} {A = A} aborted) in
      let v = advance_all-IsValid before (open_call aborted) (open_call-IsValid aborted) in
      rw (advance_all-append before (parent_aborts ∷ after) (open_call aborted)) (
        unfold advance_all in
        advance_all-outcome after (advance parent_aborts c) (rejected parent_cancellation)
          (parent_aborts-outcome c v h))
