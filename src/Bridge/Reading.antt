-- ===== src/Bridge/Reading.antt =====
-- The bulk read of a device (getProperties of apis/miot-bridge-api/src/services/DeviceCommandService.ts),
-- with what it reports of keys that the spec does not know and of properties that the device refuses.
pub mod Warnings
use homelab_apps.Prelude.{
  ℕ, ◌&&◌, Option, none, some, List, [], ◌∷◌, ◌++◌, map, ◌==◌, if◌then◌else◌, or_else, length,
}
use homelab_apps.Prelude.Text.{Units, contains}
use homelab_apps.Bridge.Spec.{MiotProperty, MiotPropertySource, Entries, get, colon, map_spec}
use homelab_apps.Bridge.Service.{
  JsonValue, undefined, DeviceCache, Result, PropertyItem, Instance, read_all, Device, unresolved,
  warned, refused, Service, Storage, Act, pure, ◌>>=◌, await, get_or_create,
}
use homelab_apps.Bridge.Commands.{reach, found_or}
use homelab_apps.Prelude.Int.{ℤ, eqb_ℤ, negsuc, pos}

-- the members of `props`
pub record WantedProperty : Type 0 where
  pub key : Units
  pub siid : ℕ
  pub piid : ℕ
  pub source : MiotPropertySource

-- KeyedPropertyResult
pub record KeyedPropertyResult : Type 0 where
  pub key : Units
  pub siid : ℕ
  pub piid : ℕ
  pub source : MiotPropertySource
  pub value : JsonValue
  pub code : ℤ

-- GetPropertiesResponse
pub record GetPropertiesResponse : Type 0 where
  pub miot_device_id : ℕ
  pub results : List KeyedPropertyResult

-- MIOT_PROPERTY_CODE_MISSING
abbrev pub property_code_missing : ℤ
property_code_missing = negsuc 0

-- `props`, and the keys that did not resolve
unfoldable pub resolve_keys : Entries MiotProperty → List Units → List WantedProperty × List Units
unfolding get
resolve_keys properties [] = ([], [])
resolve_keys properties (key ∷ keys) =
    let later = resolve_keys properties keys in
    elim (get key properties) [
      | some p ↦
          (record { key = key; siid = p.siid; piid = p.piid; source = p.source } ∷ later.0, later.1)
      | none ↦ (later.0, key ∷ later.1)
    ]

-- `rawResults.find(...)`
unfoldable pub find_item : WantedProperty → List PropertyItem → Option PropertyItem
find_item p [] = none
find_item p (x ∷ items) =
    let later = find_item p items in if x.siid == p.siid && x.piid == p.piid then some x else later

unfoldable pub value_of : Option PropertyItem → JsonValue
value_of none = undefined
value_of (some x) = x.value

unfoldable pub code_of : Option PropertyItem → ℤ
code_of none = property_code_missing
code_of (some x) = or_else x.code property_code_missing

-- one member of `mapped`
unfoldable pub keyed : List PropertyItem → WantedProperty → KeyedPropertyResult
unfolding find_item value_of code_of
keyed items p = record {
  key = p.key;
  siid = p.siid;
  piid = p.piid;
  source = p.source;
  value = value_of (find_item p items);
  code = code_of (find_item p items);
}

-- MIOT_STATUS_CODE_VALUE_MISSING is `none`
unfoldable pub status_code : ℤ → Option ℤ
status_code code = if eqb_ℤ code property_code_missing then none else some code

module _ {W : Type 0} where
  -- the loop of reportUnresolvedProperties
  unfoldable pub warn_each : Units → List Units → Service W → Service W
  warn_each storage_id [] s = s
  warn_each storage_id (key ∷ keys) s =
      let seen = colon storage_id key in
      warn_each storage_id keys (
        if contains s.unresolved_logged seen then s else record s {
          unresolved_logged = s.unresolved_logged ++ seen ∷ [];
          effects = warned storage_id key ∷ s.effects;
        })

  -- reportUnresolvedProperties
  unfoldable pub report_unresolved_properties : Units → List Units → Act W (Unit {0})
  unfolding warn_each
  report_unresolved_properties storage_id [] s = (Result.ok tt, s)
  report_unresolved_properties storage_id (key ∷ keys) s = (
    Result.ok tt,
    warn_each storage_id (key ∷ keys)
        (record s { effects = unresolved (length (key ∷ keys)) ∷ s.effects }),
  )

  -- reportRejectedProperties
  unfoldable pub report_rejected_properties : List KeyedPropertyResult → Act W (Unit {0})
  unfolding status_code
  report_rejected_properties [] s = (Result.ok tt, s)
  report_rejected_properties (r ∷ results) s = report_rejected_properties results (
      if eqb_ℤ r.code (pos 0)
      then s
      else record s { effects = refused r.key r.source (status_code r.code) ∷ s.effects })

module _ {W : Type 0} (miot : Instance → Device W) where
  -- the call of the device and what is made of its answer
  unfoldable pub read_wanted : DeviceCache → List WantedProperty → Act W GetPropertiesResponse
  unfolding get_or_create reach keyed report_rejected_properties
  read_wanted device props = do
    i ← get_or_create device
    raw ←
        (let pairs = map (λ (p : WantedProperty). (p.siid, p.piid)) props in
          reach miot i (read_all pairs) (λ d. d.get_properties pairs))
    reported ← report_rejected_properties (map (keyed raw) props)
    pure (record { miot_device_id = device.device_id; results = map (keyed raw) props })

  -- getProperties once its keys are resolved
  unfoldable pub read_resolved :
      Units → DeviceCache → List WantedProperty × List Units → Act W GetPropertiesResponse
  unfolding report_unresolved_properties read_wanted
  read_resolved storage_id device ([], missing) = do
    reported ← report_unresolved_properties storage_id missing
    pure (record { miot_device_id = device.device_id; results = [] })
  read_resolved storage_id device (p ∷ props, missing) = do
    reported ← report_unresolved_properties storage_id missing
    read_wanted device (p ∷ props)

  -- getProperties of a device that is known
  unfoldable pub get_properties_of :
      Storage → Units → List Units → DeviceCache → Act W GetPropertiesResponse
  unfolding map_spec resolve_keys read_resolved
  get_properties_of storage storage_id keys device = do
    overrides ← await (storage.get_by_model device.model)
    spec ← await (map_spec device.raw_spec overrides)
    read_resolved storage_id device (resolve_keys spec.properties keys)

  -- getProperties
  unfoldable pub get_properties : Storage → Units → List Units → Act W GetPropertiesResponse
  unfolding found_or get_properties_of
  get_properties storage storage_id keys = do
    cached ← await (storage.get_by_id storage_id)
    device ← found_or miot cached
    get_properties_of storage storage_id keys device
