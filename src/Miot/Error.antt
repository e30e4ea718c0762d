-- ===== src/Miot/Error.antt =====
-- The failures of a miIO call (packages/miot-device/src/MiotError.ts).
use homelab_apps.Prelude.{
  ℕ, Bool, true, false, Option, none, some, String, or_else, ◌≡◌, refl, ◌⊎◌, inl, inr,
}
use homelab_apps.Prelude.Int.{ℤ}
use homelab_apps.Prelude.Text.{◌<>◌, show}

-- MiotErrorKind
pub data MiotErrorKind : Type 0 where
  timeout device_error transport_error : MiotErrorKind

-- MiotMethod
pub data MiotMethod : Type 0 where
  handshake get_properties set_properties action : MiotMethod

-- What JavaScript can throw, as the package tells it apart: an Error that carries `kind` and `method`
-- (for which `MiotError.is` answers true), any other Error with its message, and a value that is no
-- Error, with its text.
mutual
  pub data Thrown : Type 0 where
    miot_error : MiotError → Thrown
    plain_error : String → Thrown
    value : String → Thrown

  pub data Cause : Type 0 where
    no_cause : Cause
    caused_by : Thrown → Cause

  -- the fields of class MiotError: message, kind, method, code, cause, stampRefreshed
  pub data MiotError : Type 0 where
    failure : String → MiotErrorKind → MiotMethod → Option ℤ → Cause → Bool → MiotError

-- MiotErrorOptions
pub record MiotErrorOptions : Type 0 where
  pub kind : MiotErrorKind
  pub method : MiotMethod
  pub code : Option ℤ
  pub cause : Cause
  pub stamp_refreshed : Option Bool

-- the constructor of class MiotError
unfoldable pub new_miot_error : String → MiotErrorOptions → MiotError
new_miot_error message options =
    failure message options.kind options.method options.code options.cause
      (or_else options.stamp_refreshed false)

abbrev pub message : MiotError → String
message (failure m k w c a r) = m

abbrev pub kind : MiotError → MiotErrorKind
kind (failure m k w c a r) = k

abbrev pub method : MiotError → MiotMethod
method (failure m k w c a r) = w

abbrev pub code : MiotError → Option ℤ
code (failure m k w c a r) = c

abbrev pub stamp_refreshed : MiotError → Bool
stamp_refreshed (failure m k w c a r) = r

-- `value instanceof Error ? value.message : String(value)`
abbrev pub reason_of : Thrown → String
reason_of (miot_error e) = message e
reason_of (plain_error m) = m
reason_of (value s) = s

-- the options that MiotError.afterStampRefresh passes on, MiotError.is being the match
refreshed_options : Thrown → MiotMethod → MiotErrorOptions
refreshed_options (miot_error e) w = record {
  kind = kind e;
  method = method e;
  code = code e;
  cause = caused_by (miot_error e);
  stamp_refreshed = some true;
}
refreshed_options thrown w = record {
  kind = transport_error;
  method = w;
  code = none;
  cause = caused_by thrown;
  stamp_refreshed = some true;
}

-- MiotError.afterStampRefresh
unfoldable pub after_stamp_refresh : Thrown → MiotMethod → ℕ → MiotError
unfolding new_miot_error refreshed_options
after_stamp_refresh thrown w device_id =
    new_miot_error
      ("Operation failed after stamp refresh for device "
        <> show device_id
        <> ": "
        <> reason_of thrown)
      (refreshed_options thrown w)

-- A call that returns or throws.
pub data Attempt {ℓ} (A : Type ℓ) : Type ℓ where
  returned : A → Attempt A
  threw : Thrown → Attempt A

infixl 5 ◌>>=◌
abbrev pub ◌>>=◌ {ℓ κ} : {A : Type ℓ} {B : Type κ} → Attempt A → (A → Attempt B) → Attempt B
returned a >>= f = f a
threw e >>= f = threw e

pub Attempt-cases {ℓ} :
    {A : Type ℓ} (r : Attempt A) → ((a : A) × (r ≡ returned a)) ⊎ ((e : Thrown) × (r ≡ threw e))
Attempt-cases (returned a) = inl (a, refl)
Attempt-cases (threw e) = inr (e, refl)
