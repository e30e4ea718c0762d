-- ===== src/Miot/Transport/Responses.antt =====
-- The responses of a device as the transport reads them, and the errors it makes of them
-- (packages/miot-device/src/MiotTransport.ts).
use homelab_apps.Prelude.{
  ℕ, Bool, true, not, Option, none, some, String, List, [], ◌∷◌, suc, replicate,
}
use homelab_apps.Prelude.Int.{ℤ, pos, eqb_ℤ}
use homelab_apps.Prelude.Text.{◌<>◌, show_ℤ}
use homelab_apps.Miot.Error.{
  Thrown, Attempt, returned, threw, plain_error, reason_of, new_miot_error, MiotError, MiotMethod,
  timeout, device_error, transport_error, handshake, get_properties, set_properties, action,
  no_cause, caused_by,
}
use homelab_apps.Miot.Packet.{Value}

-- MiotPropertyResult: an item of a `result` array; a member that is missing or of another type
-- is `none`
pub record MiotPropertyResult : Type 0 where
  pub siid : Option ℕ
  pub piid : Option ℕ
  pub value : Option Value
  pub code : Option ℤ

-- The `result` member of a response, by what the calls ask of it: undefined or null, a string with
-- its number of characters, a number, an array, a plain object with its numeric `code`.
pub data Answer : Type 0 where
  missing : Answer
  string : String → ℕ → Answer
  scalar : ℤ → Answer
  array : List MiotPropertyResult → Answer
  object : Option ℤ → Answer

pub record ErrorBody : Type 0 where
  pub code : ℤ
  pub message : String

-- MiotResponse
pub record MiotResponse : Type 0 where
  pub id : ℕ
  pub result : Answer
  pub error : Option ErrorBody

-- DiscoverResult of types.ts
pub record DiscoverResult : Type 0 where
  pub device_id : ℕ
  pub stamp : ℕ

-- ActionResult of types.ts
pub record ActionResult : Type 0 where
  pub code : Option ℤ
  pub result : Answer

-- `args` of callAction: left out, an array, or a single value
pub data Args : Type 0 where
  undefined : Args
  list : List Value → Args
  single : Value → Args

-- transportError
unfoldable pub wrap_transport_error : MiotMethod → Thrown → MiotError
unfolding new_miot_error
wrap_transport_error w cause = new_miot_error (reason_of cause) (record {
  kind = transport_error;
  method = w;
  code = none;
  cause = caused_by cause;
  stamp_refreshed = none;
})

method_name : MiotMethod → String
method_name handshake = "handshake"
method_name get_properties = "get_properties"
method_name set_properties = "set_properties"
method_name action = "action"

code_text : Option ℤ → String
code_text none = "unknown"
code_text (some n) = show_ℤ n

-- propertyError
unfoldable pub property_error : MiotMethod → Option ℤ → MiotError
unfolding new_miot_error method_name code_text
property_error w code =
    new_miot_error (method_name w <> " failed: code " <> code_text code) (record {
      kind = device_error;
      method = w;
      code = code;
      cause = no_cause;
      stamp_refreshed = none;
    })

unfoldable pub timeout_error : String → MiotMethod → MiotError
unfolding new_miot_error
timeout_error message w =
    new_miot_error message
      (record { kind = timeout; method = w; code = none; cause = no_cause; stamp_refreshed = none })

-- `reject` of a device's error envelope
unfoldable pub envelope_error : MiotMethod → ErrorBody → MiotError
unfolding new_miot_error
envelope_error w e =
    new_miot_error ("Device error " <> show_ℤ e.code <> ": " <> e.message) (record {
      kind = device_error;
      method = w;
      code = some e.code;
      cause = no_cause;
      stamp_refreshed = none;
    })

unfoldable pub empty_error : MiotMethod → MiotError
unfolding new_miot_error
empty_error w = new_miot_error "Empty response from device" (record {
  kind = transport_error;
  method = w;
  code = none;
  cause = no_cause;
  stamp_refreshed = none;
})

-- `item.code !== 0` of an item, or no item at all
unfoldable pub is_refused : Option MiotPropertyResult → Bool
is_refused none = true
is_refused (some item) = elim item.code [ none ↦ true | some n ↦ not (eqb_ℤ n (pos 0)) ]

unfoldable pub item_code : Option MiotPropertyResult → Option ℤ
item_code none = none
item_code (some item) = item.code

unfoldable pub item_value : Option MiotPropertyResult → Option Value
item_value none = none
item_value (some item) = item.value

abbrev pub blank : MiotPropertyResult
blank = record { siid = none; piid = none; value = none; code = none }

-- `results?.[0]`; of a non-empty string it is a character, which has none of the members
unfoldable pub first_item : Answer → Option MiotPropertyResult
first_item (array (item ∷ items)) = some item
first_item (string s (suc n)) = some blank
first_item _ = none

-- `for (const item of raw ?? [])`; a number or an object is not iterable
unfoldable pub all_items : Answer → Attempt (List MiotPropertyResult)
all_items missing = returned []
all_items (string s n) = returned (replicate n blank)
all_items (scalar n) = threw (plain_error "raw is not iterable")
all_items (array items) = returned items
all_items (object code) = threw (plain_error "raw is not iterable")

-- the numeric `code` of a plain object
unfoldable pub object_code : Answer → Option ℤ
object_code (object code) = code
object_code _ = none

unfoldable pub action_args : Args → List Value
action_args undefined = []
action_args (list vs) = vs
action_args (single v) = v ∷ []
