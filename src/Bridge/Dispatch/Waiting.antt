-- ===== src/Bridge/Dispatch/Waiting.antt =====
-- The queue of notifications as a map from properties to the values that wait or were sent last
-- (apis/miot-bridge-api/src/services/NotificationDispatchService.ts).
use homelab_apps.Prelude.{
  ℕ, ◌≡◌, refl, ◌&&◌, Option, none, some, List, [], ◌∷◌, arith, ◌==◌, if◌then◌else◌, first_of,
}
use homelab_apps.Prelude.Text.{Units, units_eq, units_eq_iff}
use homelab_apps.Bridge.Dispatch.{QueuedNotification, Observation, Dispatcher, same_property, place}

module _ (id : ℕ) (key : Units) where
  -- The specification: the value observed last.
  abbrev pub last_observed : {V : Type 0} → List (Observation V) → Option V
  last_observed [] = none
  last_observed (event ∷ seen) =
      if event.miot_device_id == id && units_eq event.property key
      then some event.new_value
      else last_observed seen

  module _ {C V : Type 0} where
    abbrev pub waiting : List (QueuedNotification C V) → Option V
    waiting [] = none
    waiting (x ∷ queue) =
        if x.payload.device_id == id && units_eq x.payload.property key
        then some x.payload.value
        else waiting queue

    abbrev pub last_sent : List (ℕ × QueuedNotification C V) → Option V
    last_sent [] = none
    last_sent ((t, x) ∷ sent) =
        if x.payload.device_id == id && units_eq x.payload.property key
        then some x.payload.value
        else last_sent sent

    -- The value that waits, or else the value sent last.
    abbrev pub delivered : Dispatcher C V → Option V
    delivered d = first_of (waiting d.queue) (last_sent d.sent)

module _ {C V : Type 0} where
  -- No property waits twice.
  abbrev pub DistinctKeys : List (QueuedNotification C V) → Type 0
  DistinctKeys [] = Unit
  DistinctKeys (x ∷ queue) =
      (waiting x.payload.device_id x.payload.property queue ≡ none) × DistinctKeys queue

  pub waiting-place :
      (id : ℕ) (key : Units) (x : QueuedNotification C V) (queue : List (QueuedNotification C V))
      → waiting id key (place x queue) ≡ (
          if x.payload.device_id == id && units_eq x.payload.property key
          then some x.payload.value
          else waiting id key queue)
  unfolding place same_property
  waiting-place id key x [] = refl
  waiting-place id key x (y ∷ queue) = ground (
    arith,
    units_eq_iff x.payload.property key,
    units_eq_iff y.payload.property key,
    units_eq_iff y.payload.property x.payload.property,
    waiting-place id key x queue,
  )

  pub place-DistinctKeys :
      (x : QueuedNotification C V) (queue : List (QueuedNotification C V))
      → DistinctKeys queue
      → DistinctKeys (place x queue)
  unfolding place same_property
  place-DistinctKeys x [] h = (refl, tt)
  place-DistinctKeys x (y ∷ queue) h = ground (
    arith,
    units_eq_iff y.payload.property x.payload.property,
    units_eq_iff x.payload.property y.payload.property,
    waiting-place y.payload.device_id y.payload.property x queue,
    place-DistinctKeys x queue h.1,
  )

  pub publish_delivered :
      (id : ℕ) (key : Units) (x : QueuedNotification C V) (queue : List (QueuedNotification C V))
      (sent : Option V)
      → waiting x.payload.device_id x.payload.property queue ≡ none
      → first_of (waiting id key queue) (
          if x.payload.device_id == id && units_eq x.payload.property key
          then some x.payload.value
          else sent)
        ≡ first_of (waiting id key (x ∷ queue)) sent
  publish_delivered id key x queue sent h = ground (arith, units_eq_iff x.payload.property key)
