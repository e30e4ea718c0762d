-- ===== src/Miot/Exchange/Settling.antt =====
-- Every exchange settles once, closes its socket once, and is decided by its first decisive event.
use homelab_apps.Prelude.{
  ◌≡◌, refl, true, false, Option, none, some, List, [], ◌∷◌, arith, if◌then◌else◌, or_else, is_some,
  ◌∙◌,
}
use homelab_apps.Miot.Error.{Thrown, Attempt, threw}
use homelab_apps.Miot.Packet.{Bytes}
use homelab_apps.Miot.Clock.{Now}
use homelab_apps.Miot.Exchange.{
  Event, message, fired, socket_error, send_done, Socket, opened, step, run, exchange,
}

-- Pending with an open socket and an armed timer, or settled with the socket closed once.
pub record IsConsistent {S A : Type 0} (k : Socket S A) : Type 0 where
  pub closed_once : k.closes ≡ (if k.settled then 1 else 0)
  pub answered : is_some k.outcome ≡ k.settled
  pub armed : k.settled ≡ false → k.timer ≡ true
  pub disarmed : k.settled ≡ true → k.timer ≡ false

module _ {S A : Type 0} (answer : Now → Bytes → S → Attempt A × S) (timeout_error : Thrown)
    (fail : Thrown → Thrown) where
  step-IsConsistent :
      (e : Event) (k : Socket S A)
      → IsConsistent k
      → IsConsistent (step answer timeout_error fail e k)
  unfolding step
  step-IsConsistent (message now msg) k v = ground arith
  step-IsConsistent fired k v = ground arith
  step-IsConsistent (socket_error e) k v = ground arith
  step-IsConsistent (send_done none) k v = v
  step-IsConsistent (send_done (some e)) k v = ground arith

  run-IsConsistent :
      (events : List Event) (k : Socket S A)
      → IsConsistent k
      → IsConsistent (run answer timeout_error fail events k)
  unfolding run
  run-IsConsistent [] k v = v
  run-IsConsistent (e ∷ events) k v =
      run-IsConsistent events (step answer timeout_error fail e k) (step-IsConsistent e k v)

  opened-IsConsistent : (s : S) → IsConsistent (opened {A = A} s)
  opened-IsConsistent s = ground arith

  -- Whatever happens on the socket and in whatever order, when the timer's moment has passed the
  -- promise is settled with some result, and the socket was closed exactly once.
  pub run-settles :
      (events : List Event) (s : S)
      → let k =
          step answer timeout_error fail fired (run answer timeout_error fail events (opened s)) in
        (k.settled ≡ true) × (k.closes ≡ 1) × (is_some k.outcome ≡ true)
  unfolding step
  run-settles events s =
      let v = run-IsConsistent events (opened s) (opened-IsConsistent s) in ground arith

  -- What an event makes of the promise, if it decides it.
  abbrev pub verdict : Event → S → Option (Attempt A × S)
  verdict (message now msg) s = some (answer now msg s)
  verdict fired s = some (threw timeout_error, s)
  verdict (socket_error e) s = some (threw (fail e), s)
  verdict (send_done none) s = none
  verdict (send_done (some e)) s = some (threw (fail e), s)

  -- The result by the first event that decides, and by the timer when none does.
  abbrev pub first_verdict : List Event → S → Attempt A × S
  first_verdict [] s = (threw timeout_error, s)
  first_verdict (e ∷ events) s = or_else (verdict e s) (first_verdict events s)

  step-settled :
      (e : Event) (k : Socket S A)
      → IsConsistent k
      → k.settled ≡ true
      → step answer timeout_error fail e k ≡ k
  unfolding step
  step-settled (send_done none) k v h = refl
  step-settled _ k v h = ground arith

  run-settled :
      (events : List Event) (k : Socket S A)
      → IsConsistent k
      → k.settled ≡ true
      → run answer timeout_error fail events k ≡ k
  unfolding run
  run-settled [] k v h = refl
  run-settled (e ∷ events) k v h = rw (step-settled e k v h) (run-settled events k v h)

  -- Once an event has settled the promise, the rest of the exchange is idle.
  exchange_of_settled :
      (e : Event) (events : List Event) (s : S)
      → (step answer timeout_error fail e (opened s)).settled ≡ true
      → exchange answer timeout_error fail (e ∷ events) s ≡ (
          let k = step answer timeout_error fail e (opened s) in
          (or_else k.outcome (threw timeout_error), k.shared))
  unfolding exchange
  exchange_of_settled e events s h =
      let k = step answer timeout_error fail e (opened s) in
      let v = step-IsConsistent e (opened s) (opened-IsConsistent s) in
      rw (run-settled events k v h) (rw (step-settled fired k v h))

  -- Events after the one that settled the promise change nothing: an exchange is its first verdict.
  pub exchange-eq-first_verdict :
      (events : List Event) (s : S)
      → exchange answer timeout_error fail events s ≡ first_verdict events s
  unfolding exchange
  exchange-eq-first_verdict [] s = refl
  exchange-eq-first_verdict (send_done none ∷ events) s = exchange-eq-first_verdict events s
  exchange-eq-first_verdict (message now msg ∷ events) s =
      exchange_of_settled (message now msg) events s refl ∙ refl
  exchange-eq-first_verdict (fired ∷ events) s = exchange_of_settled fired events s refl ∙ refl
  exchange-eq-first_verdict (socket_error e ∷ events) s =
      exchange_of_settled (socket_error e) events s refl ∙ refl
  exchange-eq-first_verdict (send_done (some e) ∷ events) s =
      exchange_of_settled (send_done (some e)) events s refl ∙ refl
