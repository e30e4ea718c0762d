-- ===== src/Miot/Device.antt =====
-- The client of one device (packages/miot-device/src/MiotDevice.ts). Log lines are left out. A call of
-- the transport is an action that takes the device id; the stamp store answers from the world's script.
pub mod Commands
pub mod Retry
use homelab_apps.Prelude.{
  ℕ, ◌+◌, Bool, true, false, not, ◌&&◌, ◌||◌, Option, none, some, String, List, [], ◌∷◌, ◌++◌, map,
  if◌then◌else◌,
}
use homelab_apps.Miot.Error.{
  Thrown, Attempt, returned, threw, miot_error, plain_error, value, reason_of, new_miot_error,
  MiotError, MiotMethod, get_properties, set_properties, action, transport_error, caused_by,
  after_stamp_refresh,
}
use homelab_apps.Miot.Clock
use homelab_apps.Miot.Clock.{Now, DeviceClock, StampState}
use homelab_apps.Miot.Packet.{Bytes, Crypto, Token, Value}
use homelab_apps.Miot.Io.{World, Io, pure, raise, ◌>>=◌, ◌>>◌, try_catch, next_store_reply, rest}
use homelab_apps.Miot.Transport
use homelab_apps.Miot.Transport.{
  MiotPropertyResult, MiotResponse, DiscoverResult, ActionResult, Args, send_hello, get_property,
  get_all, set_property, call_action,
}

-- requireDeviceId
unfoldable pub require_device_id : Io ℕ
require_device_id w = elim w.device_id [
  | none ↦ (threw (plain_error "Device not connected. Call connect() or discover() first."), w)
  | some d ↦ (returned d, w)
]

-- `this.clock.sync(stamp)` and `this.clock.reset()`
unfoldable pub sync_clock : ℕ → Io (Unit {0})
sync_clock s w = (returned tt, record w { clock = Clock.sync s w.now w.clock })

unfoldable pub reset_clock : Io (Unit {0})
reset_clock w = (returned tt, record w { clock = Clock.reset w.clock })

-- `stampStore.getStamp()`
unfoldable pub read_store : Io (Option StampState)
read_store w =
    let reply = next_store_reply w in
    (reply.result, record w { now = reply.back; store = rest w.store })

-- `stampStore.setStamp(state)`: what it wrote counts when it does not throw
unfoldable pub write_store : StampState → Io (Unit {0})
write_store state w =
    let reply = next_store_reply w in
    let w' = record w { now = reply.back; store = rest w.store } in
    elim reply.result [
      | returned ignored ↦ (returned tt, record w' { stored = w.stored ++ state ∷ [] })
      | threw e ↦ (threw e, w')
    ]

-- persistStamp
unfoldable pub persist_stamp : Io (Unit {0})
unfolding write_store
persist_stamp w = elim (Clock.snapshot w.clock) [
  | none ↦ (returned tt, w)
  | some state ↦ if w.has_store then write_store state w else (returned tt, w)
]

-- persistStampSafely
unfoldable pub persist_stamp_safely : Io (Unit {0})
unfolding persist_stamp
persist_stamp_safely = try_catch persist_stamp (λ _. pure tt)

-- `if (stored) { this.clock.restore(stored); }`
unfoldable pub restore_clock : Option StampState → Io (Unit {0})
restore_clock none w = (returned tt, w)
restore_clock (some state) w = (returned tt, record w { clock = Clock.restore state w.now w.clock })

-- The clock reading from the external store, where there is one and no reading yet.
unfoldable pub load_stamp : Io (Unit {0})
unfolding read_store restore_clock
load_stamp w =
    if w.has_store && not (Clock.synced w.clock)
    then (do stored ← read_store; restore_clock stored) w
    else (returned tt, w)

module _ {A : Type 0} (handshake : Io DiscoverResult) (method : MiotMethod) (fn : ℕ → Io A) where
  -- the failure that runWithFreshStamp throws
  unfoldable pub failure_of : Bool → ℕ → Thrown → MiotError
  unfolding new_miot_error after_stamp_refresh
  failure_of true device_id retry_error = after_stamp_refresh retry_error method device_id
  failure_of false device_id (miot_error e) = e
  failure_of false device_id retry_error = new_miot_error (reason_of retry_error) (record {
    kind = transport_error;
    method = method;
    code = none;
    cause = caused_by retry_error;
    stamp_refreshed = none;
  })

  -- `const result = await fn(deviceId); await this.persistStampSafely(); return result;`
  unfoldable pub attempt : ℕ → Io A
  attempt device_id = do result ← fn device_id; persisted ← persist_stamp_safely; pure result

  -- runWithFreshStamp
  unfoldable pub run_with_fresh_stamp : ℕ → Bool → Io A
  run_with_fresh_stamp device_id retried = do
    found ← handshake
    synced ← sync_clock found.stamp
    try_catch (attempt device_id) (λ e. raise (miot_error (failure_of retried device_id e)))

  -- the end of runWithStampExclusive: with no reading a handshake first, else the cached reading, and
  -- after any failure the handshake and the retry
  unfoldable pub run_cached : ℕ → Io A
  run_cached device_id w =
      if not (Clock.synced w.clock)
      then run_with_fresh_stamp device_id false w
      else try_catch (attempt device_id)
          (λ _. do forgotten ← reset_clock; run_with_fresh_stamp device_id true) w

  -- runWithStampExclusive
  unfoldable pub run_with_stamp_exclusive : Io A
  run_with_stamp_exclusive = do
    device_id ← require_device_id
    loaded ← load_stamp
    run_cached device_id

-- runWithStamp: the calls of one device queue behind one another, whatever the earlier ones end in
unfoldable pub run_queue : {A : Type 0} → List (Io A) → World → List (Attempt A) × World
run_queue [] w = ([], w)
run_queue (call ∷ calls) w =
    let later = run_queue calls (call w).1 in ((call w).0 ∷ later.0, later.1)

module _ (c : Crypto) (parse : Bytes → Attempt (Option MiotResponse)) (address : String)
    (token : Token) where
  abbrev hello : Io DiscoverResult
  hello = send_hello c parse address token

  -- discover
  unfoldable pub discover : Io DiscoverResult
  discover = do
    found ← hello
    known ← (λ w. (returned (tt), record w { device_id = some found.device_id }))
    synced ← sync_clock found.stamp
    persisted ← persist_stamp
    pure found

  -- connect
  unfoldable pub connect : Io (Unit {0})
  connect = do found ← discover; pure tt

  -- getProperty
  unfoldable pub device_get_property : ℕ → ℕ → Io (Option Value)
  device_get_property siid piid =
      run_with_stamp_exclusive hello get_properties
        (λ d. get_property c parse address token d siid piid)

  -- setProperty
  unfoldable pub device_set_property : ℕ → ℕ → Value → Io (Unit {0})
  device_set_property siid piid v =
      run_with_stamp_exclusive hello set_properties
        (λ d. set_property c parse address token d siid piid v)

  -- callAction
  unfoldable pub device_call_action : ℕ → ℕ → Args → Io ActionResult
  device_call_action siid aiid args =
      run_with_stamp_exclusive hello action
        (λ d. call_action c parse address token d siid aiid args)

  -- getProperties
  unfoldable pub device_get_properties : List (ℕ × ℕ) → Io (List MiotPropertyResult)
  device_get_properties props =
      run_with_stamp_exclusive hello get_properties (λ d. get_all c parse address token d props)
