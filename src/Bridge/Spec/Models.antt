-- ===== src/Bridge/Spec/Models.antt =====
-- The published spec of a device, the overrides of its model, and the simplified spec that these come to
-- (apis/miot-bridge-api/src/models: miot-spec-v2, model-property-override and simplified-miot-spec).
use homelab_apps.Prelude.{ℕ, Option, none, some, List, [], ◌∷◌, if◌then◌else◌}
use homelab_apps.Prelude.Text.{Units, units_eq}
use homelab_apps.Prelude.Decimal.{Decimal}

-- PropertyAccess and MiotSpecV2PropertyAccess
pub data PropertyAccess : Type 0 where
  read write notify : PropertyAccess

-- MIOT_PROPERTY_SOURCE_VALUE_SPEC and MIOT_PROPERTY_SOURCE_VALUE_OVERRIDE
pub data MiotPropertySource : Type 0 where
  published override : MiotPropertySource

-- MiotPropertyValue and MiotSpecV2PropertyValue
pub record MiotPropertyValue : Type 0 where
  pub value : Decimal
  pub description : Units

-- MiotSpecV2ServiceProperty
pub record SpecProperty : Type 0 where
  pub iid : ℕ
  pub type : Units
  pub access : List PropertyAccess
  pub format : Option Units
  pub value_list : Option (List MiotPropertyValue)
  pub value_range : Option (List Decimal)

-- MiotSpecV2ServiceAction, but for its output
pub record SpecAction : Type 0 where
  pub iid : ℕ
  pub type : Units
  pub inputs : List ℕ

-- MiotSpecV2Service, but for its events
pub record SpecService : Type 0 where
  pub iid : ℕ
  pub type : Units
  pub properties : Option (List SpecProperty)
  pub actions : Option (List SpecAction)

-- MiotSpecV2
pub record MiotSpec : Type 0 where
  pub type : Units
  pub description : Units
  pub services : List SpecService

-- ModelPropertyOverride, but for its model
pub record ModelPropertyOverride : Type 0 where
  pub siid : ℕ
  pub piid : ℕ
  pub key : Units
  pub access : List PropertyAccess
  pub values : List MiotPropertyValue

-- MiotProperty
pub record MiotProperty : Type 0 where
  pub siid : ℕ
  pub piid : ℕ
  pub access : List PropertyAccess
  pub values : List MiotPropertyValue
  pub source : MiotPropertySource
  pub format : Option Units
  pub value_range : Option (List Decimal)

-- MiotAction
pub record MiotAction : Type 0 where
  pub siid : ℕ
  pub aiid : ℕ
  pub inputs : List Units

-- A Map by text, in the order of insertion.
abbrev pub Entries : Type 0 → Type 0
Entries A = List (Units × A)

-- SimplifiedMiotSpec
pub record SimplifiedMiotSpec : Type 0 where
  pub name : Units
  pub type : Units
  pub properties : Entries MiotProperty
  pub actions : Entries MiotAction

module _ {A : Type 0} where
  -- `map.get(key)`
  unfoldable pub get : Units → Entries A → Option A
  get key [] = none
  get key ((k, a) ∷ entries) = if units_eq k key then some a else get key entries

  -- `map.set(key, a)`
  unfoldable pub set : Units → A → Entries A → Entries A
  set key a [] = (key, a) ∷ []
  set key a ((k, b) ∷ entries) =
      if units_eq k key then (k, a) ∷ entries else (k, b) ∷ set key a entries
