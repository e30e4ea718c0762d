-- ===== src/Tests/BridgeCommands.antt =====
-- Runs of the commands of the bridge on concrete inputs.
use homelab_apps.Prelude.Decimal.{Decimal}
use homelab_apps.Prelude.{
  ℕ, zero, suc, ◌+◌, ◌-◌, ◌*◌, ◌/◌, ◌%◌, ◌^◌, ◌≤◌, ◌<◌, max, min, String, ◌≡◌, refl, sym, ap, ◌∙◌,
  ◌≢◌, ◌⊎◌, inl, inr, Bool, true, false, not, ◌&&◌, ◌||◌, Option, none, some, List, [], ◌∷◌, ◌++◌,
  map, ltb, leb, ◌==◌, if◌then◌else◌, ltb→lt, lt→ltb, ltb-false→le, le→ltb-false, Bool-cases,
  Option-cases, or_else, is_some, first_of, or_cases, or_left, or_right, length, take, drop,
  replicate, length-append, All, All-append,
}
use homelab_apps.Prelude.Text.{units, Distinct}
use homelab_apps.Prelude.Int.{pos, ℤ, negsuc}
use homelab_apps.Miot.Error.{returned}
use homelab_apps.Bridge.Spec.{
  MiotSpec, SpecService, SpecProperty, MiotProperty, SimplifiedMiotSpec, read, write, published,
  map_spec,
}
use homelab_apps.Bridge.Service.{
  number, set_property, DeviceCommandRequest, DeviceCache, Instance, Device, Storage, ok,
}
use homelab_apps.Bridge.Commands.{ResolvedCommand, writing, resolve_command, execute}
use homelab_apps.Bridge.Commands.Outcome.{Outcome, execute-Outcome}
use homelab_apps.Bridge.Reading.{get_properties}
use homelab_apps.Bridge.Reading.Warnings.{
  Request, bulk_read, command, serve_all, warned_keys, fresh, serve_all-warned,
}

abbrev whole : ℤ → Decimal
whole n = record { digits = n; places = 0 }

abbrev tenth : Decimal
tenth = record { digits = pos 1; places = 1 }

abbrev suction : SpecProperty
suction = record {
  iid = 4;
  type = units "urn:x:property:suction:1";
  access = read ∷ write ∷ [];
  format = some (units "UINT8");
  value_list = none;
  value_range = some (whole (negsuc 29) ∷ whole (pos 100) ∷ tenth ∷ []);
}

abbrev vacuum : SpecService
vacuum = record {
  iid = 2;
  type = units "urn:x:service:vacuum:1";
  properties = some (suction ∷ []);
  actions = none;
}

abbrev raw : MiotSpec
raw = record { type = units "t"; description = units "d"; services = vacuum ∷ [] }

abbrev suction_property : MiotProperty
suction_property = record {
  siid = 2;
  piid = 4;
  access = read ∷ write ∷ [];
  values = [];
  source = published;
  format = some (units "UINT8");
  value_range = some (whole (negsuc 29) ∷ whole (pos 100) ∷ tenth ∷ []);
}

abbrev simplified : SimplifiedMiotSpec
simplified = record {
  name = units "d";
  type = units "t";
  properties = (units "vacuum:suction", suction_property) ∷ [];
  actions = [];
}

simplified_of_raw : map_spec raw [] ≡ returned simplified
unfolding map_spec
simplified_of_raw = refl

abbrev device : DeviceCache
device = record {
  id = units "a";
  device_id = 77;
  model = units "m";
  address = units "10.0.0.9";
  token = units "00";
  raw_spec = raw;
}

abbrev storage : Storage
storage = record {
  get_by_id = λ id. returned (some device);
  get_by_device_id = λ id. returned (some device);
  get_by_model = λ model. returned [];
}

-- A device that counts its calls and takes everything.
abbrev obliging : Instance → Device ℕ
obliging i = record {
  get_property = λ siid piid n. (returned (number (whole (pos 6))), n + 1);
  get_properties = λ pairs n. (returned [], n + 1);
  set_property = λ siid piid v n. (returned tt, n + 1);
  call_action = λ siid aiid v n. (returned tt, n + 1);
}

abbrev half_more : DeviceCommandRequest
half_more = record {
  device_id = 77;
  command = units "vacuum:suction";
  operation = set_property;
  value = number (record { digits = pos 505; places = 1 });
}

half_resolves :
    resolve_command half_more.operation half_more.command half_more.value simplified
    ≡ ok (writing suction_property)
unfolding resolve_command homelab_apps.Prelude.Int.◌-ℤ◌
half_resolves = refl

execute-Outcome_example :
    let after = execute obliging storage half_more (fresh 0) in
    Outcome obliging storage half_more (fresh 0) after.0 after.1
execute-Outcome_example = execute-Outcome obliging storage half_more (fresh 0)

half_sent : (execute obliging storage half_more (fresh 0)).1.world ≡ 1
unfolding execute homelab_apps.Prelude.Int.◌-ℤ◌
half_sent = refl

abbrev requests : List (Request obliging)
requests =
    bulk_read storage (units "a") (units "vacuum:mode" ∷ units "vacuum:suction" ∷ [])
    ∷ command storage half_more
    ∷ bulk_read storage (units "a") (units "vacuum:mode" ∷ [])
    ∷ []

serve_all-warned_example : Distinct (warned_keys (serve_all obliging requests (fresh 0)).effects)
serve_all-warned_example = serve_all-warned obliging requests 0

warned_once :
    warned_keys (serve_all obliging requests (fresh 0)).effects ≡ units "a:vacuum:mode" ∷ []
unfolding get_properties execute homelab_apps.Prelude.Int.◌-ℤ◌
warned_once = refl
