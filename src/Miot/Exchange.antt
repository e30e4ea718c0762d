-- ===== src/Miot/Exchange.antt =====
-- One packet exchange over a UDP socket: the promise in `handshake` and in `sendCommand`
-- (packages/miot-device/src/MiotTransport.ts). The two differ in what they make of a message, which is
-- the parameter `answer`; it may also change the state `S` that the caller shares with the handler.
pub mod Settling
use homelab_apps.Prelude.{
  ℕ, ◌+◌, Bool, true, false, Option, none, some, List, [], ◌∷◌, if◌then◌else◌, or_else,
}
use homelab_apps.Miot.Error.{Thrown, Attempt, returned, threw}
use homelab_apps.Miot.Packet.{Bytes}
use homelab_apps.Miot.Clock.{Now}

-- What happens to an open socket: a datagram, the timer, an `error` event, the callback of `send`.
pub data Event : Type 0 where
  message : Now → Bytes → Event
  fired : Event
  socket_error : Thrown → Event
  send_done : Option Thrown → Event

-- The promise and its socket: `settled`, how often `socket.close()` ran, whether the timer is armed,
-- and what the promise was settled with.
pub record Socket (S A : Type 0) : Type 0 where
  pub settled : Bool
  pub closes : ℕ
  pub timer : Bool
  pub outcome : Option (Attempt A)
  pub shared : S

module _ {S A : Type 0} where
  -- createSocket, the timer and the listeners
  abbrev pub opened : S → Socket S A
  opened s = record { settled = false; closes = 0; timer = true; outcome = none; shared = s }

  -- clearTimeout
  abbrev pub clear_timeout : Socket S A → Socket S A
  clear_timeout k = record k { timer = false }

-- `timeout_error` is the failure of the timer, `fail` wraps the failure of the socket
module _ {S A : Type 0} (answer : Now → Bytes → S → Attempt A × S) (timeout_error : Thrown)
    (fail : Thrown → Thrown) where
  -- const done
  unfoldable pub done : Thrown → Socket S A → Socket S A
  done err k =
      if k.settled
      then k
      else record k { settled = true; closes = k.closes + 1; outcome = some (threw err) }

  -- the handlers
  unfoldable pub step : Event → Socket S A → Socket S A
  unfolding done
  step (message now msg) k =
      if k.settled
      then clear_timeout k
      else (let (result, s) = answer now msg k.shared in
          record {
            settled = true;
            closes = k.closes + 1;
            timer = false;
            outcome = some result;
            shared = s;
          })
  step fired k = if k.timer then done timeout_error (clear_timeout k) else k
  step (socket_error e) k = done (fail e) (clear_timeout k)
  step (send_done none) k = k
  step (send_done (some e)) k = done (fail e) (clear_timeout k)

  unfoldable pub run : List Event → Socket S A → Socket S A
  run [] k = k
  run (e ∷ events) k = run events (step e k)

  -- The whole exchange: the events in their order, and at last the timer, if nothing settled before.
  unfoldable pub exchange : List Event → S → Attempt A × S
  unfolding run step
  exchange events s =
      let k = step fired (run events (opened s)) in
      (or_else k.outcome (threw timeout_error), k.shared)
