-- ===== src/Miot/Device/Retry.antt =====
-- What a command of the device client does when an attempt fails (runWithStampExclusive and
-- runWithFreshStamp of packages/miot-device/src/MiotDevice.ts).
use homelab_apps.Prelude.{
  ℕ, ◌+◌, ◌≤◌, Bool-cases, length, ◌∙◌, false, Bool, true, Option, none, arith, ◌≡◌, inl, inr, refl,
  length, ◌≤◌, ◌⊎◌, ◌∙◌, ap,
}
use homelab_apps.Prelude.Int.{ℤ}
use homelab_apps.Miot.Error.{
  Thrown, returned, miot_error, MiotError, MiotErrorKind, MiotMethod, transport_error, kind, method,
  code, stamp_refreshed, Attempt-cases,
}
use homelab_apps.Miot.Transport.{DiscoverResult}
use homelab_apps.Miot.Clock
use mathlib.Core.Path.{subst}
use homelab_apps.Miot.Io.{World, Io, bind-eq-threw}
use homelab_apps.Miot.Device.{
  persist_stamp_safely, attempt, failure_of, try_catch, run_with_fresh_stamp, raise, sync_clock,
  threw, run_cached, reset_clock,
}

-- A failure to persist the stamp is swallowed, and nothing is sent.
pub persist_stamp_safely-returned : (w : World) → (persist_stamp_safely w).0 ≡ returned tt
unfolding persist_stamp_safely
persist_stamp_safely-returned w = ground arith

pub sent-persist_stamp_safely : (w : World) → (persist_stamp_safely w).1.sent ≡ w.sent
unfolding persist_stamp_safely
sent-persist_stamp_safely w = ground arith

-- The class, the code and the wire method by which a thrown value is reported.
abbrev pub kind_of : Thrown → MiotErrorKind
kind_of (miot_error e) = kind e
kind_of _ = transport_error

abbrev pub code_of : Thrown → Option ℤ
code_of (miot_error e) = code e
code_of _ = none

abbrev pub method_of : MiotMethod → Thrown → MiotMethod
method_of w (miot_error e) = method e
method_of w _ = w

abbrev pub flag_of : Thrown → Bool
flag_of (miot_error e) = stamp_refreshed e
flag_of _ = false

-- `e` reports the failure `cause` under the call's method, with its class and code.
pub record Reports (w : MiotMethod) (cause e : Thrown) (refreshed : Bool) : Type 0 where
  pub error : MiotError
  pub thrown : e ≡ miot_error error
  pub same_kind : kind error ≡ kind_of cause
  pub same_code : code error ≡ code_of cause
  pub same_method : method error ≡ method_of w cause
  pub flagged : refreshed ≡ true → stamp_refreshed error ≡ true
  pub unflagged : refreshed ≡ false → stamp_refreshed error ≡ flag_of cause

module _ {A : Type 0} (handshake : Io DiscoverResult) (w : MiotMethod) (fn : ℕ → Io A) (d : ℕ) where
  failure_of-Reports :
      (retried : Bool) (cause : Thrown)
      → Reports w cause (miot_error (failure_of handshake w fn retried d cause)) retried
  unfolding failure_of
  failure_of-Reports true (miot_error e) = record {
    error = failure_of handshake w fn true d (miot_error e);
    thrown = refl;
    same_kind = refl;
    same_code = refl;
    same_method = refl;
    flagged = λ _. refl;
    unflagged = λ h. absurd (cc);
  }
  failure_of-Reports retried cause = record {
    error = failure_of handshake w fn retried d cause;
    thrown = refl;
    same_kind = ground arith;
    same_code = ground arith;
    same_method = ground arith;
    flagged = ground arith;
    unflagged = ground arith;
  }

  -- An attempt returns and throws exactly as the call does, and sends what the call sends.
  attempt-fst : (s : World) → (attempt handshake w fn d s).0 ≡ (fn d s).0
  unfolding attempt
  attempt-fst s = elim (Attempt-cases (fn d s).0) [
    | inl (a, p) ↦ rw (p, persist_stamp_safely-returned (fn d s).1)
    | inr (e, p) ↦ rw p
  ]

  sent-attempt : (s : World) → (attempt handshake w fn d s).1.sent ≡ (fn d s).1.sent
  unfolding attempt
  sent-attempt s = elim (Attempt-cases (fn d s).0) [
    | inl (a, p) ↦
        rw (p, persist_stamp_safely-returned (fn d s).1) (sent-persist_stamp_safely (fn d s).1)
    | inr (e, p) ↦ rw p
  ]

  attempt_of_threw :
      (s : World) (e : Thrown)
      → (fn d s).0 ≡ threw e
      → attempt handshake w fn d s ≡ (threw e, (fn d s).1)
  unfolding attempt
  attempt_of_threw s e p = rw p

  -- The `catch` of an attempt throws exactly when the call does.
  reported :
      (retried : Bool) (t : World) (e : Thrown)
      → (try_catch
          (attempt handshake w fn d)
          (λ e'. raise (miot_error (failure_of handshake w fn retried d e')))
          t).0
        ≡ threw e
      → (cause : Thrown) × ((fn d t).0 ≡ threw cause) × Reports w cause e retried
  reported retried t e h = elim (Attempt-cases (fn d t).0) [
    | inl (a, p) ↦ (let failed = rw (attempt-fst t ∙ p) at h in cc)
    | inr (cause, p) ↦
        (let failed = rw (attempt-fst t ∙ p) at h in
          let same : miot_error (failure_of handshake w fn retried d cause) ≡ e = cc in
          (
            cause,
            p,
            subst (λ x. Reports w cause x retried) same (failure_of-Reports retried cause),
          ))
  ]

  -- The state behind a handshake that found the device.
  abbrev pub greeted : DiscoverResult → World → World
  greeted found s = record (handshake s).1 {
    clock = Clock.sync found.stamp (handshake s).1.now (handshake s).1.clock;
  }

  -- A command that begins with a handshake in this state fails with the handshake's failure, or reports that of
  -- its call behind it.
  abbrev pub FreshFails : Bool → World → Thrown → Type 0
  FreshFails retried s e =
      ((handshake s).0 ≡ threw e)
      ⊎ ((found : DiscoverResult) × ((handshake s).0 ≡ returned found)
          × (cause : Thrown) × ((fn d (greeted found s)).0 ≡ threw cause)
          × Reports w cause e retried)

  pub fresh-FreshFails :
      (retried : Bool) (s : World) (e : Thrown)
      → (run_with_fresh_stamp handshake w fn d retried s).0 ≡ threw e
      → FreshFails retried s e
  unfolding run_with_fresh_stamp sync_clock
  fresh-FreshFails retried s e h = elim (bind-eq-threw handshake _ s e h) [
    | inl p ↦ inl p
    | inr (found, p, q) ↦
        let (cause, failed, reports) = reported retried (greeted found s) e q in
        inr (found, p, cause, failed, reports)
  ]

  -- The `catch` of an attempt sends what the call sends.
  caught-sent :
      (retried : Bool) (t : World)
      → (try_catch
          (attempt handshake w fn d)
          (λ e'. raise (miot_error (failure_of handshake w fn retried d e')))
          t).1.sent
        ≡ (fn d t).1.sent
  caught-sent retried t = elim (Attempt-cases (fn d t).0) [
    | inl (a, p) ↦ rw (attempt-fst t ∙ p) (sent-attempt t)
    | inr (e, p) ↦ rw (attempt-fst t ∙ p) (sent-attempt t)
  ]

  -- What a command sends is bounded by what the handshake and the call send.
  module _ (hello call : ℕ)
      (hello_bound : (s : World) → length (handshake s).1.sent ≤ length s.sent + hello)
      (call_bound : (s : World) → length (fn d s).1.sent ≤ length s.sent + call) where
    length-fresh :
        (retried : Bool) (s : World)
        → length (run_with_fresh_stamp handshake w fn d retried s).1.sent
          ≤ length s.sent + (hello + call)
    unfolding run_with_fresh_stamp sync_clock
    length-fresh retried s = elim (Attempt-cases (handshake s).0) [
      | inl (found, p) ↦ rw p (
          let t : World = record (handshake s).1 {
            clock = Clock.sync found.stamp (handshake s).1.now (handshake s).1.clock;
          } in
          omega (arith, hello_bound s, call_bound t, ap length (caught-sent retried t)))
      | inr (e, p) ↦ rw p (omega (arith, hello_bound s))
    ]

    -- A command sends at most the packets of two calls and one handshake.
    pub length-run_cached :
        (s : World)
        → length (run_cached handshake w fn d s).1.sent ≤ length s.sent + (call + hello + call)
    unfolding run_cached reset_clock
    length-run_cached s = elim (Bool-cases (Clock.synced s.clock)) [
      | inr cold ↦ rw cold (omega (arith, length-fresh false s))
      | inl warm ↦ elim (Attempt-cases (fn d s).0) [
        | inl (a, p) ↦
            rw (warm, attempt-fst s ∙ p) (omega (arith, ap length (sent-attempt s), call_bound s))
        | inr (e, p) ↦
            rw (warm, attempt_of_threw s e p)
              (omega (
                arith,
                call_bound s,
                length-fresh true (record (fn d s).1 { clock = Clock.reset (fn d s).1.clock }),
              ))
      ]
    ]

  pub run_cached-cold :
      (s : World)
      → Clock.synced s.clock ≡ false
      → run_cached handshake w fn d s ≡ run_with_fresh_stamp handshake w fn d false s
  unfolding run_cached
  run_cached-cold s h = rw h

  -- With a cached reading: if the call returns, the command returns the same and sends no packet but the
  -- call's, whether or not the stamp can be persisted; if it throws, the command is the retry behind a
  -- handshake, from the state that the call left, with the reading dropped.
  pub run_cached-outcome :
      (s : World)
      → Clock.synced s.clock ≡ true
      → ((a : A) × ((fn d s).0 ≡ returned a)
          × ((run_cached handshake w fn d s).0 ≡ returned a)
          × ((run_cached handshake w fn d s).1.sent ≡ (fn d s).1.sent))
        ⊎ ((first : Thrown) × ((fn d s).0 ≡ threw first)
            × (run_cached handshake w fn d s
                ≡ run_with_fresh_stamp handshake w fn d true
                    (record (fn d s).1 { clock = Clock.reset (fn d s).1.clock })))
  unfolding run_cached reset_clock
  run_cached-outcome s h = elim (Attempt-cases (fn d s).0) [
    | inl (a, p) ↦ inl (a, p, rw (h, attempt-fst s ∙ p), rw (h, attempt-fst s ∙ p) (sent-attempt s))
    | inr (e, p) ↦ inr (e, p, rw (h, attempt_of_threw s e p))
  ]
