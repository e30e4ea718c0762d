-- ===== src/Tests/Tokens.antt =====
-- Tokens on concrete inputs: a source with two keys that fit, and a library that takes the second.
use homelab_apps.Prelude.{
  ◌≡◌, refl, Bool, true, false, ◌&&◌, none, some, List, [], ◌∷◌, if◌then◌else◌, Option,
}
use homelab_apps.Auth.{human, Principal, verified, CredentialSource}
use homelab_apps.Auth.Build.{VerifierConfig, bearer_jwt, unauthenticated, build_verifiers}
use homelab_apps.Auth.Guard.{AuthGuardOptions, passes, use_guard}
use homelab_apps.Auth.Vouched.{Welcome, use_guard-Welcome}
use homelab_apps.Auth.Bearer.{trim_end, trim, words}
use homelab_apps.Auth.Jwt.{
  TrustedIssuer, jwks, Payload, gives, valid, bad_signature, ambiguous, Library, extract, verify,
}
use homelab_apps.Auth.Trust.{Told, verify-Told}
use homelab_apps.Prelude.Text.{Units, units, units_eq}

abbrev is_not_empty : Units → Bool
is_not_empty [] = false
is_not_empty (c ∷ text) = true

abbrev payload : Payload
payload = record {
  sub = some (units "ada");
  preferred_username = none;
  claim = λ name. some (some (units "reader") ∷ none ∷ []);
}

abbrev library : Library Bool
library = record {
  decode_issuer = λ token. gives (some (units "idp"));
  decode_header = λ token. gives (some (units "RS256"), none);
  jwt_verify = λ token key issuer audience algorithms required.
      if key && units_eq audience (units "api") then valid payload else bad_signature (units "no");
  get_key = λ issuer kid algorithm. ambiguous (false ∷ true ∷ []);
}

abbrev trusted : List TrustedIssuer
trusted =
    record {
      issuer = units "idp";
      audience = units "api";
      key = jwks (units "ES256" ∷ units "RS256" ∷ []);
      subject_kind = human;
      roles_claim = units "roles";
    }
    ∷ []

abbrev ada : Principal
ada = record {
  subject = units "ada";
  kind = human;
  display_name = none;
  roles = units "reader" ∷ [];
  issuer = units "idp";
}

second_key_verifies : verify is_not_empty library trusted (units "t") ≡ verified ada
unfolding verify trim trim_end
second_key_verifies = refl

abbrev headers : CredentialSource
headers name = some (units "  BEARER   a b ")

token_found : extract is_not_empty library trusted headers ≡ some (units "a b")
unfolding extract words trim trim_end homelab_apps.Chunker.Table.add_unit
token_found = refl

verify-Told_example :
    Told is_not_empty library trusted (units "t") (verify is_not_empty library trusted (units "t"))
verify-Told_example = verify-Told is_not_empty library trusted (units "t")

abbrev config : List (Units × VerifierConfig)
config =
    (units "API", bearer_jwt trusted)
    ∷ (
      units "DEV",
      unauthenticated (record {
        subject_header = none;
        default_subject = units "dev";
        subject_kind = human;
        roles = units "reader" ∷ [];
      }),
    )
    ∷ []

abbrev parse : Units → Option (List (Option Units))
parse text = some (some text ∷ [])

abbrev route : AuthGuardOptions
route = record {
  anonymous = false;
  methods = some (units "API");
  roles = some ((units "reader" ∷ []) ∷ []);
}

abbrev key_source : List TrustedIssuer → Library Bool
key_source issuers = library

admitted :
    use_guard is_not_empty parse
      (build_verifiers is_not_empty key_source config)
      headers
      (some route)
    ≡ (some ada, passes)
unfolding use_guard build_verifiers verify trim trim_end extract words
    homelab_apps.Chunker.Table.add_unit
admitted = refl

use_guard-Welcome_example : Welcome is_not_empty key_source parse config headers route ada
use_guard-Welcome_example =
    use_guard-Welcome is_not_empty key_source parse config headers route ada admitted
