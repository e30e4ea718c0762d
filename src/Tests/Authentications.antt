-- ===== src/Tests/Authentications.antt =====
-- Requests at a guarded route on concrete inputs.
use homelab_apps.Prelude.{
  ◌≡◌, refl, Bool, true, false, Option, none, some, List, [], ◌∷◌, if◌then◌else◌,
}
use homelab_apps.Auth.{
  missing, indeterminate, human, Principal, verified, refused, CredentialSource, Verifier,
  Verifiers,
}
use homelab_apps.Auth.Guard.{
  AuthGuardOptions, Answer, passes, service_unavailable, forbidden, use_guard,
}
use homelab_apps.Auth.Admission.{Justified, use_guard-Justified}
use homelab_apps.Prelude.Text.{units, units_eq, Units}

abbrev ada : Principal
ada = record {
  subject = units "ada";
  kind = human;
  display_name = none;
  roles = units "reader" ∷ [];
  issuer = units "idp";
}

-- One verifier cannot say, one finds no credential, and one knows its key.
abbrev down : Verifier
down = record {
  extract = λ source. source (units "authorization");
  verify = λ credential. refused (record { reason = indeterminate; detail = none });
}

abbrev keyed : Verifier
keyed = record {
  extract = λ source. source (units "x-api-key");
  verify = λ credential.
      if units_eq credential (units "k")
      then verified ada
      else refused (record { reason = missing; detail = none });
}

abbrev verifiers : Verifiers
verifiers = (units "IDP", down) ∷ (units "KEY", keyed) ∷ []

abbrev with_key : CredentialSource
with_key name = if units_eq name (units "x-api-key") then some (units "k") else none

abbrev without_key : CredentialSource
without_key name = none

abbrev is_not_empty : Units → Bool
is_not_empty [] = false
is_not_empty (c ∷ text) = true

-- Every text is read as the array of both methods.
abbrev parse : Units → Option (List (Option Units))
parse text = some (some (units "IDP") ∷ none ∷ some (units "KEY") ∷ [])

abbrev route : Units → AuthGuardOptions
route role = record {
  anonymous = false;
  methods = some (units "[...]");
  roles = some ((units "writer" ∷ role ∷ []) ∷ [] ∷ []);
}

abbrev asked : CredentialSource → Units → Option Principal × Answer
asked source role = use_guard is_not_empty parse verifiers source (some (route role))

admitted : asked with_key (units "reader") ≡ (some ada, passes)
unfolding use_guard
admitted = refl

lacks_role : asked with_key (units "admin") ≡ (some ada, forbidden)
unfolding use_guard
lacks_role = refl

outage_told : asked without_key (units "reader") ≡ (none, service_unavailable)
unfolding use_guard
outage_told = refl

use_guard-Justified_example :
    Justified verifiers without_key is_not_empty parse
      (some (route (units "reader")))
      (asked without_key (units "reader"))
use_guard-Justified_example =
    use_guard-Justified verifiers without_key is_not_empty parse (some (route (units "reader")))
