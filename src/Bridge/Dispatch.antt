-- ===== src/Bridge/Dispatch.antt =====
-- The queue of outbound notifications (apis/miot-bridge-api/src/services/NotificationDispatchService.ts).
-- A handler reads the wall clock once. What a publish does on the wire is left out: `sent` records the
-- instant and the notification of each, the newest first.
pub mod Reach
pub mod Intervals
pub mod Pacing
pub mod Waiting
pub mod Delivery
pub mod Turn
use homelab_apps.Prelude.{
  ℕ, ◌+◌, ◌-◌, Bool, true, false, not, ◌&&◌, ◌||◌, Option, none, some, List, [], ◌∷◌, ◌++◌,
  if◌then◌else◌, ◌==◌, ltb, or_else, is_some,
}
use homelab_apps.Prelude.Text.{Units, units_eq}

-- PropertyChangeEvent, but for the old value and the instant, which `receive` does not read
pub record Observation (Value : Type 0) : Type 0 where
  pub miot_device_id : ℕ
  pub property : Units
  pub new_value : Value

-- NotificationPayload
pub record NotificationPayload (Value : Type 0) : Type 0 where
  pub device_id : ℕ
  pub property : Units
  pub value : Value

-- QueuedNotification
pub record QueuedNotification (Context Value : Type 0) : Type 0 where
  pub payload : NotificationPayload Value
  pub context : Context

-- `config.mqtt.notifications`, and whether there is a client at all
pub record Settings : Type 0 where
  pub enabled : Bool
  pub publish_interval_ms : Option ℕ
  pub has_client : Bool

abbrev pub default_publish_interval_ms : ℕ
default_publish_interval_ms = 3000

-- `timer` is the instant at which the timer is due, and `last_publish_at` is `none` at boot. `connected`
-- is the client's flag, and `listening` says that `onReconnect` is registered.
pub record Dispatcher (Context Value : Type 0) : Type 0 where
  pub queue : List (QueuedNotification Context Value)
  pub timer : Option ℕ
  pub last_publish_at : Option ℕ
  pub connected : Bool
  pub listening : Bool
  pub sent : List (ℕ × QueuedNotification Context Value)

abbrev pub interval : Settings → ℕ
interval s = or_else s.publish_interval_ms default_publish_interval_ms

-- `setTimeout` turns a delay above its maximum into one millisecond.
abbrev pub max_timeout : ℕ
max_timeout = 2147483647

unfoldable pub timeout : ℕ → ℕ
timeout delay = if ltb max_timeout delay then 1 else delay

-- `lastPublishAt + interval - Date.now()`, and 0 where that is not positive
unfoldable pub delay_of : Settings → Option ℕ → ℕ → ℕ
delay_of s none now = 0
delay_of s (some last) now = last + interval s - now

unfoldable pub clear_timer : {C V : Type 0} → Dispatcher C V → Dispatcher C V
clear_timer d = record d { timer = none }

unfoldable pub same_property : {V : Type 0} → NotificationPayload V → NotificationPayload V → Bool
same_property a b = a.device_id == b.device_id && units_eq a.property b.property

-- the payload that receive builds
unfoldable pub payload_of : {V : Type 0} → Observation V → NotificationPayload V
payload_of event = record {
  device_id = event.miot_device_id;
  property = event.property;
  value = event.new_value;
}

module _ {C V : Type 0} where
  -- publishNext at a queue that is not empty; `again` is scheduleNext at the rest of it
  unfoldable pub publish_head :
      (Dispatcher C V → Dispatcher C V)
      → ℕ
      → QueuedNotification C V
      → List (QueuedNotification C V)
      → Dispatcher C V
      → Dispatcher C V
  publish_head again now next rest d = elim d.connected [
    | false ↦ record d { timer = none }
    | true ↦ again (record d {
      queue = rest;
      timer = none;
      last_publish_at = some now;
      sent = (now, next) ∷ d.sent;
    })
  ]

  -- scheduleNext at the queue that it is given
  unfoldable pub schedule_from :
      Settings → ℕ → List (QueuedNotification C V) → Dispatcher C V → Dispatcher C V
  unfolding publish_head delay_of timeout
  schedule_from s now [] d = d
  schedule_from s now (next ∷ rest) d =
      let publish = publish_head (schedule_from s now rest) now next rest d in
      let delay = delay_of s d.last_publish_at now in
      if is_some d.timer
      then d
      else if ltb 0 delay
      then record d { timer = some (now + timeout delay) }
      else publish

  -- scheduleNext
  unfoldable pub schedule_next : Settings → ℕ → Dispatcher C V → Dispatcher C V
  unfolding schedule_from
  schedule_next s now d = schedule_from s now d.queue d

  publish_from : Settings → ℕ → List (QueuedNotification C V) → Dispatcher C V → Dispatcher C V
  unfolding publish_head
  publish_from s now [] d = record d { timer = none }
  publish_from s now (next ∷ rest) d = publish_head (schedule_next s now) now next rest d

  -- publishNext
  unfoldable pub publish_next : Settings → ℕ → Dispatcher C V → Dispatcher C V
  unfolding publish_from
  publish_next s now d = publish_from s now d.queue d

  -- `queue.findIndex(...)`, and the item put there or behind the others
  unfoldable pub place :
      QueuedNotification C V → List (QueuedNotification C V) → List (QueuedNotification C V)
  unfolding same_property
  place queued [] = queued ∷ []
  place queued (other ∷ queue) =
      if same_property other.payload queued.payload
      then queued ∷ queue
      else other ∷ place queued queue

  -- enqueue
  unfoldable pub enqueue : Settings → ℕ → QueuedNotification C V → Dispatcher C V → Dispatcher C V
  unfolding place schedule_next
  enqueue s now queued d = schedule_next s now (record d { queue = place queued d.queue })

  -- receive, called in a tracing context
  unfoldable pub receive : Settings → ℕ → C → Observation V → Dispatcher C V → Dispatcher C V
  unfolding payload_of enqueue
  receive s now context event d =
      if s.enabled && s.has_client
      then enqueue s now (record { payload = payload_of event; context = context }) d
      else d

  -- onReconnect
  unfoldable pub on_reconnect : Settings → ℕ → Dispatcher C V → Dispatcher C V
  unfolding clear_timer schedule_next
  on_reconnect s now d = schedule_next s now (record (clear_timer d) { last_publish_at = some now })

  -- the client's `connect` event
  unfoldable pub on_connect : Settings → ℕ → Dispatcher C V → Dispatcher C V
  unfolding on_reconnect
  on_connect s now d =
      let up = record d { connected = true } in if d.listening then on_reconnect s now up else up

  -- the client lost its connection
  unfoldable pub on_close : Dispatcher C V → Dispatcher C V
  on_close d = record d { connected = false }

  -- $onDestroy
  unfoldable pub on_destroy : Dispatcher C V → Dispatcher C V
  unfolding clear_timer
  on_destroy d = record (clear_timer d) { listening = false; queue = [] }

  -- the constructor, with the client as it is then
  unfoldable pub new_dispatcher : Settings → Bool → Dispatcher C V
  new_dispatcher s connected = record {
    queue = [];
    timer = none;
    last_publish_at = none;
    connected = s.has_client && connected;
    listening = s.has_client;
    sent = [];
  }
