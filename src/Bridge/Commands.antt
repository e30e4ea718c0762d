-- ===== src/Bridge/Commands.antt =====
-- The commands of the MIoT bridge (apis/miot-bridge-api/src/services/DeviceCommandService.ts): execute
-- and executeRaw, with the check of a request against the spec of its device. Log lines and spans are
-- left out, and so are the texts of the errors.
pub mod Allowed
pub mod Resolve
pub mod Outcome
use homelab_apps.Prelude.Decimal.{Decimal, same_number, to_places}
use homelab_apps.Prelude.{
  ℕ, zero, suc, ◌-◌, ◌*◌, ◌%◌, min, Bool, true, false, not, ◌&&◌, ◌||◌, Option, none, some, List,
  [], ◌∷◌, ltb, leb, if◌then◌else◌, max,
}
use homelab_apps.Prelude.Text.{Units, units, units_eq}
use homelab_apps.Miot.Error.{Thrown, Attempt, MiotMethod, get_properties, set_properties}
use homelab_apps.Miot.Error
use homelab_apps.Bridge.Spec.{
  PropertyAccess, MiotPropertyValue, MiotProperty, MiotAction, SimplifiedMiotSpec, read, write,
  notify, get, map_spec,
}
use homelab_apps.Bridge.Service.{
  JsonValue, undefined, text, number, boolean, texts, numbers, Operation, get_property,
  set_property, action, unsupported, DeviceCommandRequest, RawCommandRequest, DeviceCache, Refusal,
  property_not_found, not_readable, not_writable, value_not_allowed, action_not_found,
  unsupported_operation, piid_required, aiid_required, Failure, not_found, bad_request, Result, ok,
  err, Instance, Call, act, Device, Effect, called, observed, rejected_locally, Service, Storage,
  Act, pure, fail, ◌>>=◌, ◌>>◌, from_attempt, await, leave, get_or_create,
}
use homelab_apps.Bridge.Service
use homelab_apps.Prelude.Int.{ℤ, eqb_ℤ, pos_part, leb_ℤ, ◌-ℤ◌}

-- ResolvedCommand
pub data ResolvedCommand : Type 0 where
  reading : MiotProperty → ResolvedCommand
  writing : MiotProperty → ResolvedCommand
  acting : MiotAction → ResolvedCommand

unfoldable pub same_access : PropertyAccess → PropertyAccess → Bool
same_access read read = true
same_access write write = true
same_access notify notify = true
same_access _ _ = false

-- `property.access.includes(...)`
unfoldable pub includes : List PropertyAccess → PropertyAccess → Bool
unfolding same_access
includes [] access = false
includes (a ∷ list) access = same_access a access || includes list access

-- `allowedVal.value === value`
unfoldable pub is_value : Decimal → JsonValue → Bool
is_value n (number m) = same_number n m
is_value n _ = false

-- `property.values.some(...)`
unfoldable pub some_value : List MiotPropertyValue → JsonValue → Bool
unfolding is_value
some_value [] v = false
some_value (a ∷ values) v = is_value a.value v || some_value values v

-- `Math.abs(steps - Math.round(steps)) > 1e-9` for `steps` the quotient of the two numbers, of which the
-- second is above 0: the distance to the next whole number is that of the remainder to its ends. Both are
-- given in units of one place behind the point; that a quotient of doubles is rounded is left out.
unfoldable pub off_step : ℕ → ℕ → Bool
off_step distance zero = false
off_step distance (suc s) =
    ltb (suc s) (min (distance % suc s) (suc s - distance % suc s) * 1000000000)

-- `step` in units of the `w`-th place behind the point, or 0 where there is none above 0
unfoldable pub step_of : ℕ → List Decimal → ℕ
step_of w [] = 0
step_of w (step ∷ rest) = pos_part (to_places w step)

abbrev pub step_places : List Decimal → ℕ
step_places [] = 0
step_places (step ∷ rest) = step.places

-- The places behind the point that the numbers of the check have.
abbrev pub common_places : Decimal → Decimal → List Decimal → Decimal → ℕ
common_places low high rest v = max (max low.places high.places) (max v.places (step_places rest))

-- The check, its numbers in units of one place.
unfoldable pub off_range : ℤ → ℤ → ℕ → ℤ → Bool
unfolding off_step
off_range low high step v = not (leb_ℤ low v && leb_ℤ v high) || off_step (pos_part (v -ℤ low)) step

-- the check of a ranged number: whether it is refused
unfoldable pub out_of_range : Decimal → Decimal → List Decimal → JsonValue → Bool
unfolding off_range step_of
out_of_range low high rest (number v) =
    let w = common_places low high rest v in
    off_range (to_places w low) (to_places w high) (step_of w rest) (to_places w v)
out_of_range low high rest _ = true

upper : Units → Units
upper [] = []
upper (c ∷ s) = (if leb b'a' c && leb c b'z' then c - 32 else c) ∷ upper s

-- `property.format?.toUpperCase() === 'BOOL'`
unfoldable pub is_bool : Option Units → Bool
unfolding upper
is_bool none = false
is_bool (some format) = units_eq (upper format) (units "BOOL")

unfoldable pub is_boolean : JsonValue → Bool
is_boolean (boolean b) = true
is_boolean _ = false

-- validatePropertyValue behind its first test: the value range, where it has two members, or the format
unfoldable pub refuses_unlisted : Option (List Decimal) → Option Units → JsonValue → Bool
unfolding out_of_range is_bool is_boolean
refuses_unlisted (some (low ∷ high ∷ rest)) format v = out_of_range low high rest v
refuses_unlisted range format v = is_bool format && not (is_boolean v)

-- validatePropertyValue: whether it throws
unfoldable pub refuses : List MiotPropertyValue → MiotProperty → JsonValue → Bool
unfolding some_value refuses_unlisted
refuses [] property v = refuses_unlisted property.value_range property.format v
refuses (a ∷ values) property v = not (some_value (a ∷ values) v)

unfoldable pub resolve_read : Option MiotProperty → Result ResolvedCommand
unfolding includes
resolve_read none = err (bad_request property_not_found)
resolve_read (some property) =
    if not (includes property.access read) && not (includes property.access notify)
    then err (bad_request not_readable)
    else ok (reading property)

unfoldable pub resolve_write : Option MiotProperty → JsonValue → Result ResolvedCommand
unfolding includes refuses
resolve_write none v = err (bad_request property_not_found)
resolve_write (some property) v =
    if not (includes property.access write)
    then err (bad_request not_writable)
    else if refuses property.values property v
    then err (bad_request value_not_allowed)
    else ok (writing property)

unfoldable pub resolve_action : Option MiotAction → Result ResolvedCommand
resolve_action none = err (bad_request action_not_found)
resolve_action (some a) = ok (acting a)

-- resolveCommand
unfoldable pub resolve_command :
    Operation → Units → JsonValue → SimplifiedMiotSpec → Result ResolvedCommand
unfolding resolve_read resolve_write resolve_action get
resolve_command get_property command v spec = resolve_read (get command spec.properties)
resolve_command set_property command v spec = resolve_write (get command spec.properties) v
resolve_command action command v spec = resolve_action (get command spec.actions)
resolve_command (unsupported name) command v spec = err (bad_request unsupported_operation)

-- miotMethodOf
unfoldable pub miot_method_of : Operation → MiotMethod
miot_method_of set_property = set_properties
miot_method_of action = Error.action
miot_method_of _ = get_properties

-- CommandResponseModel, but for the device id and the command of the request
pub record CommandResponse : Type 0 where
  pub operation : Operation
  pub value : JsonValue

module _ {W : Type 0} (miot : Instance → Device W) where
  -- A call of a device that its span wraps, and its end.
  unfoldable pub reach : {A : Type 0} → Instance → Call → (Device W → W → Attempt A × W) → Act W A
  reach i call run s =
      let after = run (miot i) s.world in
      (from_attempt after.0, record s { world = after.1; effects = called i call ∷ s.effects })

  abbrev pub send_read : Instance → ℕ → ℕ → Act W JsonValue
  send_read i siid piid = reach i (Service.Call.read siid piid) (λ d. d.get_property siid piid)

  abbrev pub send_write : Instance → ℕ → ℕ → JsonValue → Act W (Unit {0})
  send_write i siid piid v =
      reach i (Service.Call.write siid piid v) (λ d. d.set_property siid piid v)

  abbrev pub send_action : Instance → ℕ → ℕ → JsonValue → Act W (Unit {0})
  send_action i siid aiid v = reach i (act siid aiid v) (λ d. d.call_action siid aiid v)

  -- resolveOrRecordRejection
  unfoldable pub resolve_or_record_rejection :
      DeviceCommandRequest → SimplifiedMiotSpec → Act W ResolvedCommand
  unfolding resolve_command miot_method_of
  resolve_or_record_rejection r spec = elim (resolve_command r.operation r.command r.value spec) [
    | ok resolved ↦ pure resolved
    | err e ↦ leave (rejected_locally (miot_method_of r.operation)) >> fail e
  ]

  -- `notificationDispatch.receive(...)`
  abbrev pub notify_of : DeviceCache → DeviceCommandRequest → JsonValue → Act W (Unit {0})
  notify_of device r v = leave (observed device.device_id r.command v)

  -- the switch of execute
  unfoldable pub dispatch :
      DeviceCache → DeviceCommandRequest → Instance → ResolvedCommand → Act W JsonValue
  unfolding reach
  dispatch device r i (reading p) = do
    v ← send_read i p.siid p.piid
    noted ← notify_of device r v
    pure v
  dispatch device r i (writing p) = do
    done ← send_write i p.siid p.piid r.value
    noted ← notify_of device r r.value
    pure undefined
  dispatch device r i (acting a) = do done ← send_action i a.siid a.aiid r.value; pure undefined

  -- execute, once its device is known
  unfoldable pub execute_on : Storage → DeviceCommandRequest → DeviceCache → Act W CommandResponse
  unfolding resolve_or_record_rejection dispatch get_or_create map_spec
  execute_on storage r device = do
    overrides ← await (storage.get_by_model device.model)
    spec ← await (map_spec device.raw_spec overrides)
    resolved ← resolve_or_record_rejection r spec
    i ← get_or_create device
    v ← dispatch device r i resolved
    pure (record { operation = r.operation; value = v })

  unfoldable pub found_or : {A : Type 0} → Option A → Act W A
  found_or none = fail not_found
  found_or (some a) = pure a

  -- execute
  unfoldable pub execute : Storage → DeviceCommandRequest → Act W CommandResponse
  unfolding execute_on found_or
  execute storage r = do
    cached ← await (storage.get_by_device_id r.device_id)
    device ← found_or cached
    execute_on storage r device

  -- the switch of executeRaw, behind its checks
  unfoldable pub dispatch_raw :
      RawCommandRequest → Instance → Operation → Option ℕ → Option ℕ → Act W JsonValue
  unfolding reach
  dispatch_raw r i get_property (some piid) aiid = send_read i r.siid piid
  dispatch_raw r i set_property (some piid) aiid = do
    done ← send_write i r.siid piid r.value
    pure undefined
  dispatch_raw r i action piid (some aiid) = do
    done ← send_action i r.siid aiid r.value
    pure undefined
  dispatch_raw r i _ _ _ = fail (bad_request unsupported_operation)

  -- the checks of executeRaw
  unfoldable pub check_raw : Operation → Option ℕ → Option ℕ → Act W (Unit {0})
  check_raw get_property none aiid = fail (bad_request piid_required)
  check_raw set_property none aiid = fail (bad_request piid_required)
  check_raw action piid none = fail (bad_request aiid_required)
  check_raw _ _ _ = pure tt

  -- executeRaw
  unfoldable pub execute_raw : Storage → RawCommandRequest → Act W CommandResponse
  unfolding found_or check_raw dispatch_raw get_or_create
  execute_raw storage r = do
    cached ← await (storage.get_by_device_id r.device_id)
    device ← found_or cached
    checked ← check_raw r.operation r.piid r.aiid
    i ← get_or_create device
    v ← dispatch_raw r i r.operation r.piid r.aiid
    pure (record { operation = r.operation; value = v })
