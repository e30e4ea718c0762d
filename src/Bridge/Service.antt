-- ===== src/Bridge/Service.antt =====
-- What the commands of the MIoT bridge share: requests, failures, the pool of devices
-- (apis/miot-bridge-api/src/services/MiotDeviceRegistry.ts), and what a command leaves behind.
use homelab_apps.Prelude.{ℕ, Bool, Option, none, some, List, [], ◌∷◌, ◌++◌, ◌==◌, if◌then◌else◌}
use homelab_apps.Prelude.Text.{Units}
use homelab_apps.Miot.Error.{Thrown, Attempt, returned, threw, MiotMethod}
use homelab_apps.Bridge.Spec.{MiotSpec, MiotPropertySource, ModelPropertyOverride}
use homelab_apps.Prelude.Int.{ℤ}
use homelab_apps.Prelude.Decimal.{Decimal}

-- A value of a request or of a device, as it comes out of JSON; its numbers are decimals.
pub data JsonValue : Type 0 where
  undefined : JsonValue
  text : Units → JsonValue
  number : Decimal → JsonValue
  boolean : Bool → JsonValue
  texts : List Units → JsonValue
  numbers : List Decimal → JsonValue

-- DeviceCommandOperation, and any other text at run time
pub data Operation : Type 0 where
  get_property set_property action : Operation
  unsupported : Units → Operation

-- DeviceCommandRequest
pub record DeviceCommandRequest : Type 0 where
  pub device_id : ℕ
  pub command : Units
  pub operation : Operation
  pub value : JsonValue

-- RawCommandRequest
pub record RawCommandRequest : Type 0 where
  pub device_id : ℕ
  pub operation : Operation
  pub siid : ℕ
  pub piid : Option ℕ
  pub aiid : Option ℕ
  pub value : JsonValue

-- DeviceCache, as far as commands read it
pub record DeviceCache : Type 0 where
  pub id : Units
  pub device_id : ℕ
  pub model : Units
  pub address : Units
  pub token : Units
  pub raw_spec : MiotSpec

-- The messages of BadRequest.
pub data Refusal : Type 0 where
  property_not_found not_readable not_writable value_not_allowed action_not_found : Refusal
  unsupported_operation piid_required aiid_required : Refusal

pub data Failure : Type 0 where
  not_found : Failure
  bad_request : Refusal → Failure
  thrown : Thrown → Failure

pub data Result {ℓ} (A : Type ℓ) : Type ℓ where
  ok : A → Result A
  err : Failure → Result A

-- One item of GetPropertiesResult.
pub record PropertyItem : Type 0 where
  pub siid : ℕ
  pub piid : ℕ
  pub value : JsonValue
  pub code : Option ℤ

-- What a MiotDevice was built from.
pub record Instance : Type 0 where
  pub device_id : ℕ
  pub address : Units
  pub token : Units

-- The calls of a MiotDevice.
pub data Call : Type 0 where
  read : ℕ → ℕ → Call
  read_all : List (ℕ × ℕ) → Call
  write : ℕ → ℕ → JsonValue → Call
  act : ℕ → ℕ → JsonValue → Call

-- MiotDevice, for a state `W` of everything behind it; the result of an action is only recorded.
pub record Device (W : Type 0) : Type 0 where
  pub get_property : ℕ → ℕ → W → Attempt JsonValue × W
  pub get_properties : List (ℕ × ℕ) → W → Attempt (List PropertyItem) × W
  pub set_property : ℕ → ℕ → JsonValue → W → Attempt (Unit {0}) × W
  pub call_action : ℕ → ℕ → JsonValue → W → Attempt (Unit {0}) × W

-- What a command leaves behind besides its result: the call sent to a device, the notification, the
-- metrics, and the one log line that is written once.
pub data Effect : Type 0 where
  called : Instance → Call → Effect
  observed : ℕ → Units → JsonValue → Effect
  rejected_locally : MiotMethod → Effect
  unresolved : ℕ → Effect
  warned : Units → Units → Effect
  refused : Units → MiotPropertySource → Option ℤ → Effect

-- MiotDeviceRegistry and DeviceCommandService; `effects` is newest first.
pub record Service (W : Type 0) : Type 0 where
  pub registry : List Instance
  pub unresolved_logged : List Units
  pub world : W
  pub effects : List Effect

-- DeviceStorageService and ModelPropertyOverrideService, as their calls answer
pub record Storage : Type 0 where
  pub get_by_id : Units → Attempt (Option DeviceCache)
  pub get_by_device_id : ℕ → Attempt (Option DeviceCache)
  pub get_by_model : Units → Attempt (List ModelPropertyOverride)

abbrev pub Act : Type 0 → Type 0 → Type 0
Act W A = Service W → Result A × Service W

abbrev pub pure : {W A : Type 0} → A → Act W A
pure a s = (ok a, s)

abbrev pub fail : {W A : Type 0} → Failure → Act W A
fail e s = (err e, s)

module _ {W A B : Type 0} where
  abbrev pub continue : Result A → (A → Act W B) → Act W B
  continue (ok a) f s = f a s
  continue (err e) f s = (err e, s)

infixl 5 ◌>>=◌ ◌>>◌
abbrev pub ◌>>=◌ : {W A B : Type 0} → Act W A → (A → Act W B) → Act W B
◌>>=◌ m f s = continue (m s).0 f (m s).1

abbrev pub ◌>>◌ : {W A B : Type 0} → Act W A → Act W B → Act W B
m >> k = m >>= λ _. k

abbrev pub from_attempt : {A : Type 0} → Attempt A → Result A
from_attempt (returned a) = ok a
from_attempt (threw e) = err (thrown e)

-- the end of a call that touches nothing of the service
abbrev pub await : {W A : Type 0} → Attempt A → Act W A
await r s = (from_attempt r, s)

abbrev pub leave : {W : Type 0} → Effect → Act W (Unit {0})
leave e s = (ok tt, record s { effects = e ∷ s.effects })

-- `_registry.get(deviceId)`
unfoldable pub find_instance : ℕ → List Instance → Option Instance
find_instance device_id [] = none
find_instance device_id (i ∷ registry) =
    let later = find_instance device_id registry in
    if i.device_id == device_id then some i else later

-- getOrCreate
unfoldable pub get_or_create : {W : Type 0} → DeviceCache → Act W Instance
unfolding find_instance
get_or_create device s = elim (find_instance device.device_id s.registry) [
  | some existing ↦ (ok existing, s)
  | none ↦
      let instance_of : Instance = record {
        device_id = device.device_id;
        address = device.address;
        token = device.token;
      } in
      (ok instance_of, record s { registry = s.registry ++ instance_of ∷ [] })
]

-- `_registry.delete(deviceId)`
unfoldable pub without : ℕ → List Instance → List Instance
without device_id [] = []
without device_id (i ∷ registry) =
    let later = without device_id registry in if i.device_id == device_id then later else i ∷ later

-- remove
unfoldable pub remove : {W : Type 0} → ℕ → Service W → Service W
remove device_id s = record s { registry = without device_id s.registry }
