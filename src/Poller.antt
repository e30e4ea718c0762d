-- ===== src/Poller.antt =====
-- The poller of device properties: its subscriptions, the devices due in a tick, and what a read of one
-- of them does (apis/miot-bridge-api/src/services/DevicePropertyPollerService.ts). Its maps are an
-- association list in the order of insertion where the code walks through them, and functions elsewhere.
pub mod Changes
pub mod Backoff
use homelab_apps.Prelude.{
  ℕ, zero, suc, ◌+◌, ◌-◌, Bool, true, false, not, ◌&&◌, ◌||◌, Option, none, some, List, [], ◌∷◌,
  ◌++◌, if◌then◌else◌, ◌==◌, ltb, leb, or_else,
}
use homelab_apps.Prelude.Int.{ℤ, pos, eqb_ℤ}
use homelab_apps.Prelude.Decimal.{Decimal, same_number}
use homelab_apps.Prelude.Text.{Units, units_eq, contains}

-- A value that a device reports; `undefined` is `none`. Numbers are decimals.
pub data PropertyValue : Type 0 where
  text : Units → PropertyValue
  number : Decimal → PropertyValue

-- `===`
unfoldable pub same_value : Option PropertyValue → Option PropertyValue → Bool
same_value none none = true
same_value (some (text a)) (some (text b)) = units_eq a b
same_value (some (number a)) (some (number b)) = same_number a b
same_value _ _ = false

-- PropertyChangeEvent, but for the device's own id and the time
pub record PropertyChangeEvent : Type 0 where
  pub device_id : Units
  pub property : Units
  pub old_value : Option PropertyValue
  pub new_value : Option PropertyValue

-- One item of a read.
pub record PropertyResult : Type 0 where
  pub key : Units
  pub value : Option PropertyValue
  pub code : ℤ

-- `config.polling`, with its defaults
pub record PollingConfig : Type 0 where
  pub enabled : Bool
  pub dispatch_on_change : Bool
  pub max_error_count : ℕ
  pub error_skip_cycles : ℕ

-- PollTarget
pub record PollTarget : Type 0 where
  pub device_id : Units
  pub properties : List Units

-- `_subscriptions`, `_lastValues`, `_errorCounts`, `_skipCycles`
pub record Poller : Type 0 where
  pub subscriptions : List (Units × List Units)
  pub last_values : Units → Option PropertyValue
  pub error_counts : Units → Option ℕ
  pub skip_cycles : Units → ℕ

-- `map.set(key, value)` of a map that is a function
unfoldable pub put : {A : Type 0} → Units → A → (Units → A) → Units → A
put key value old k = if units_eq key k then value else old k

-- `_subscriptions.get(deviceId)`
unfoldable pub subscribed : Units → List (Units × List Units) → Option (List Units)
subscribed device_id [] = none
subscribed device_id ((d, set) ∷ rest) =
    let later = subscribed device_id rest in if units_eq d device_id then some set else later

-- `_subscriptions.set(deviceId, set)`
unfoldable pub subscribe :
    Units → List Units → List (Units × List Units) → List (Units × List Units)
subscribe device_id set [] = (device_id, set) ∷ []
subscribe device_id set ((d, old) ∷ rest) =
    let later = subscribe device_id set rest in
    if units_eq d device_id then (d, set) ∷ rest else (d, old) ∷ later

-- `_subscriptions.delete(deviceId)`
unfoldable pub unsubscribe : Units → List (Units × List Units) → List (Units × List Units)
unsubscribe device_id [] = []
unsubscribe device_id ((d, set) ∷ rest) =
    let later = unsubscribe device_id rest in
    if units_eq d device_id then later else (d, set) ∷ later

-- `set.add(p)` of each
unfoldable pub add_all : List Units → List Units → List Units
add_all set [] = set
add_all set (p ∷ properties) = add_all (if contains set p then set else set ++ p ∷ []) properties

-- `set.delete(property)`
unfoldable pub delete : Units → List Units → List Units
delete p [] = []
delete p (q ∷ set) = let rest = delete p set in if units_eq q p then rest else q ∷ rest

-- `${deviceId}:${key}`
unfoldable pub cache_key : Units → Units → Units
cache_key device_id key = device_id ++ (b':' ∷ key)

-- addSubscriptions
unfoldable pub add_subscriptions : Units → List Units → Poller → Poller
add_subscriptions device_id properties s = record s {
  subscriptions =
      subscribe device_id (add_all (or_else (subscribed device_id s.subscriptions) []) properties)
        s.subscriptions;
}

-- The subscriptions without one property of a device whose set is known.
unfoldable pub drop_property :
    Units → Units → Option (List Units) → List (Units × List Units) → List (Units × List Units)
drop_property device_id p none subscriptions = subscriptions
drop_property device_id p (some set) subscriptions = elim (delete p set) [
  | [] ↦ unsubscribe device_id subscriptions
  | q ∷ rest ↦ subscribe device_id (q ∷ rest) subscriptions
]

-- removeSubscription
unfoldable pub remove_subscription : Units → Units → Poller → Poller
remove_subscription device_id p s = record s {
  subscriptions = drop_property device_id p (subscribed device_id s.subscriptions) s.subscriptions;
  last_values = put (cache_key device_id p) none s.last_values;
}

-- `text.startsWith(front)`
unfoldable pub starts_with : Units → Units → Bool
starts_with [] rest = true
starts_with (c ∷ front) [] = false
starts_with (c ∷ front) (d ∷ rest) = c == d && starts_with front rest

-- removeAllSubscriptions
unfoldable pub remove_all_subscriptions : Units → Poller → Poller
remove_all_subscriptions device_id s = record s {
  subscriptions = unsubscribe device_id s.subscriptions;
  last_values = λ k. if starts_with (device_id ++ b':' ∷ []) k then none else s.last_values k;
}

-- The loop of dueDevices: the devices that are due, and the cycles that the others have left.
unfoldable pub due_from : List (Units × List Units) → (Units → ℕ) → List PollTarget × (Units → ℕ)
due_from [] skips = ([], skips)
due_from ((d, set) ∷ rest) skips =
    let waits = ltb 0 (skips d) in
    let (due, left) = due_from rest (if waits then put d (skips d - 1) skips else skips) in
    (if waits then due else record { device_id = d; properties = set } ∷ due, left)

-- dueDevices
unfoldable pub due_devices : Poller → List PollTarget × Poller
due_devices s =
    let (due, left) = due_from s.subscriptions s.skip_cycles in
    (due, record s { skip_cycles = left })

-- `this._subscriptions.get(deviceId)?.has(key)`
unfoldable pub is_subscribed : Units → Units → Poller → Bool
is_subscribed device_id key s = contains (or_else (subscribed device_id s.subscriptions) []) key

-- The value of one item, cached and emitted.
unfoldable pub dispatch :
    PollingConfig → Units → PropertyResult → Poller → List PropertyChangeEvent × Poller
dispatch config device_id r s =
    let old = s.last_values (cache_key device_id r.key) in
    let changed = not (same_value old r.value) in
    if changed || not config.dispatch_on_change
    then (
      record {
        device_id = device_id;
        property = r.key;
        old_value = if changed then old else r.value;
        new_value = r.value;
      }
          ∷ [],
      record s { last_values = put (cache_key device_id r.key) r.value s.last_values },
    )
    else ([], s)

-- The body of the loop over the items.
unfoldable pub take_result :
    PollingConfig → Units → PropertyResult → Poller → List PropertyChangeEvent × Poller
take_result config device_id r s =
    if eqb_ℤ r.code (pos 0) && is_subscribed device_id r.key s
    then dispatch config device_id r s
    else ([], s)

-- The loop over the items of a read.
unfoldable pub take_results :
    PollingConfig → Units → List PropertyResult → Poller → List PropertyChangeEvent × Poller
take_results config device_id [] s = ([], s)
take_results config device_id (r ∷ results) s =
    let (now, next) = take_result config device_id r s in
    let (later, last) = take_results config device_id results next in (now ++ later, last)

-- The `catch` of readDevice: back-off after `maxErrorCount` failures in a row.
unfoldable pub fail_read : PollingConfig → Units → Poller → Poller
fail_read config device_id s =
    let count = or_else (s.error_counts device_id) 0 + 1 in
    if leb config.max_error_count count
    then record s {
      error_counts = put device_id none s.error_counts;
      skip_cycles = put device_id config.error_skip_cycles s.skip_cycles;
    }
    else record s { error_counts = put device_id (some count) s.error_counts }

-- readDevice, of what getProperties comes to; none is a failure
unfoldable pub read_device :
    PollingConfig
    → Units
    → Option (List PropertyResult)
    → Poller
    → List PropertyChangeEvent × Poller
read_device config device_id none s = ([], fail_read config device_id s)
read_device config device_id (some results) s =
    let (events, next) = take_results config device_id results s in
    if config.enabled
    then (events, record next { error_counts = put device_id none next.error_counts })
    else ([], s)
