-- ===== src/Bridge/Spec.antt =====
-- The simplified spec of a device (apis/miot-bridge-api/src/mappers/SimplifiedMiotSpecV2Mapper.ts; the
-- models that it reads and makes are in Spec/Models). Numbers of a spec are decimals. Its arrays are mapped in order, and the
-- access modes of the two layers, which have the same names, are one type.
mod Models
use homelab_apps.Prelude.{
  ℕ, zero, suc, ◌+◌, Bool, true, false, Option, none, some, List, [], ◌∷◌, ◌++◌, map, ltb, ◌==◌,
  if◌then◌else◌, or_else,
}
use homelab_apps.Prelude.Text.{Units, units, units_eq, show}
use homelab_apps.Miot.Error.{Attempt, returned, threw, plain_error}
unfoldable pub use Models.*

-- `text.split(':')`, behind the units of its first part that were read
split_from : Units → Units → List Units
split_from part [] = part ∷ []
split_from part (c ∷ text) =
    let later = split_from [] text in
    if c == b':' then part ∷ later else split_from (part ++ c ∷ []) text

part_at : ℕ → List Units → Option Units
part_at n [] = none
part_at zero (part ∷ parts) = some part
part_at (suc n) (part ∷ parts) = part_at n parts

-- `type.split(':')[3]`
unfoldable pub type_name : Units → Option Units
unfolding split_from part_at
type_name type = part_at 3 (split_from [] type)

-- the keys of the Map of counts, of which one may be `undefined`
unfoldable pub same_name : Option Units → Option Units → Bool
same_name none none = true
same_name (some a) (some b) = units_eq a b
same_name _ _ = false

-- `counts.get(name) ?? 0`, the members having been counted
unfoldable pub count_name : Option Units → List Units → ℕ
unfolding type_name same_name
count_name name [] = 0
count_name name (type ∷ types) =
    (if same_name (type_name type) name then 1 else 0) + count_name name types

-- buildServiceKeyResolver and buildMemberKeyResolver, over the types of all and one of them
unfoldable pub key_of : List Units → Units → ℕ → Units
unfolding type_name count_name show
key_of types type iid =
    let name = or_else (type_name type) (units "undefined") in
    if ltb 1 (count_name (type_name type) types)
    then name ++ (units "-" ++ units (show iid))
    else name

abbrev pub colon : Units → Units → Units
colon a b = a ++ (b':' ∷ b)

abbrev property_types : List SpecProperty → List Units
property_types properties = map (λ (p : SpecProperty). p.type) properties

-- the property that the mapper makes of one of the spec
unfoldable pub published_property : ℕ → SpecProperty → MiotProperty
published_property siid p = record {
  siid = siid;
  piid = p.iid;
  access = p.access;
  values = or_else p.value_list [];
  source = published;
  format = p.format;
  value_range = p.value_range;
}

-- the properties of one service
unfoldable pub add_properties :
    Units → ℕ → List Units → List SpecProperty → Entries MiotProperty → Entries MiotProperty
unfolding published_property set
add_properties service_key siid types [] entries = entries
add_properties service_key siid types (p ∷ properties) entries =
    add_properties service_key siid types properties
      (set (colon service_key (key_of types p.type p.iid)) (published_property siid p) entries)

-- `svc.properties?.find(p => p.iid === piid)`
unfoldable pub find_property : ℕ → List SpecProperty → Option SpecProperty
find_property piid [] = none
find_property piid (p ∷ properties) =
    let later = find_property piid properties in if p.iid == piid then some p else later

-- `a.in.map(...)`
unfoldable pub input_keys : Units → List Units → List SpecProperty → List ℕ → Attempt (List Units)
unfolding find_property key_of
input_keys service_key types properties [] = returned []
input_keys service_key types properties (piid ∷ piids) = elim (find_property piid properties) [
  | none ↦ threw (plain_error "Action references non-existent input property.")
  | some p ↦ elim (input_keys service_key types properties piids) [
    | threw e ↦ threw e
    | returned keys ↦ returned (colon service_key (key_of types p.type p.iid) ∷ keys)
  ]
]

-- the actions of one service; `types` are those of its actions
unfoldable pub add_actions :
    Units
    → SpecService
    → List Units
    → List SpecAction
    → Entries MiotAction
    → Attempt (Entries MiotAction)
unfolding input_keys set
add_actions service_key svc types [] entries = returned entries
add_actions service_key svc types (a ∷ actions) entries =
    let properties = or_else svc.properties [] in
    elim (input_keys service_key (property_types properties) properties a.inputs) [
      | threw e ↦ threw e
      | returned keys ↦ add_actions service_key svc types actions (
          set (colon service_key (key_of types a.type a.iid))
            (record { siid = svc.iid; aiid = a.iid; inputs = keys }) entries)
    ]

-- `mapArray(validServices, ...)`
unfoldable pub add_services :
    List Units
    → List SpecService
    → Entries MiotProperty × Entries MiotAction
    → Attempt (Entries MiotProperty × Entries MiotAction)
unfolding add_properties add_actions key_of
add_services types [] maps = returned maps
add_services types (svc ∷ services) maps =
    let service_key = key_of types svc.type svc.iid in
    let properties = or_else svc.properties [] in
    let actions = or_else svc.actions [] in
    let found = add_properties service_key svc.iid (property_types properties) properties maps.0 in
    elim (add_actions service_key svc (map (λ (a : SpecAction). a.type) actions) actions maps.1) [
      | threw e ↦ threw e
      | returned acts ↦ add_services types services (found, acts)
    ]

-- `data.services.find(s => s.iid === override.siid)`
unfoldable pub find_service : ℕ → List SpecService → Option SpecService
find_service siid [] = none
find_service siid (svc ∷ services) =
    let later = find_service siid services in if svc.iid == siid then some svc else later

-- the property that the mapper makes of an override
unfoldable pub overridden_property : ModelPropertyOverride → MiotProperty
overridden_property o = record {
  siid = o.siid;
  piid = o.piid;
  access = o.access;
  values = o.values;
  source = override;
  format = none;
  value_range = none;
}

-- `for (const override of overrides)`
unfoldable pub add_overrides :
    List SpecService → List ModelPropertyOverride → Entries MiotProperty → Entries MiotProperty
unfolding find_service overridden_property key_of set
add_overrides services [] entries = entries
add_overrides services (o ∷ overrides) entries =
    add_overrides services overrides (elim (find_service o.siid services) [
      | none ↦ entries
      | some svc ↦
          set (colon (key_of (map (λ (s : SpecService). s.type) services) svc.type svc.iid) o.key)
            (overridden_property o) entries
    ])

-- map
unfoldable pub map_spec : MiotSpec → List ModelPropertyOverride → Attempt SimplifiedMiotSpec
unfolding add_services add_overrides
map_spec spec overrides =
    elim (add_services (map (λ (s : SpecService). s.type) spec.services) spec.services ([], [])) [
      | threw e ↦ threw e
      | returned maps ↦ returned (record {
        name = spec.description;
        type = spec.type;
        properties = add_overrides spec.services overrides maps.0;
        actions = maps.1;
      })
    ]
