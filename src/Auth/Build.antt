-- ===== src/Auth/Build.antt =====
-- The verifiers of a configuration (buildVerifiers of packages/auth/src/Authenticator.ts), and the one that admits
-- everybody (packages/auth/src/verifiers/UnauthenticatedVerifier.ts). createKeySource is a parameter, with what
-- jose and the source answer.
use homelab_apps.Prelude.{
  ℕ, Bool, true, ◌&&◌, ◌||◌, Option, none, some, List, [], ◌∷◌, leb, ◌==◌, if◌then◌else◌, length,
}
use homelab_apps.Auth.{
  PrincipalKind, Outcome, verified, CredentialSource, Verifier, Verifiers, Units, units,
}
use homelab_apps.Auth.Bearer.{trim}
use homelab_apps.Auth.Jwt.{TrustedIssuer, Library, jwt_verifier}
use homelab_apps.Prelude.Text.{Units, units}

-- UnauthenticatedVerifierConfig
pub record UnauthenticatedConfig : Type 0 where
  pub subject_header : Option Units
  pub default_subject : Units
  pub subject_kind : PrincipalKind
  pub roles : List Units

-- VerifierConfig
pub data VerifierConfig : Type 0 where
  bearer_jwt : List TrustedIssuer → VerifierConfig
  unauthenticated : UnauthenticatedConfig → VerifierConfig

-- `[\w.@+-]`
unfoldable pub is_subject_unit : ℕ → Bool
is_subject_unit c =
    leb 48 c && leb c 57
    || leb 65 c && leb c 90
    || leb 97 c && leb c 122
    || c == 95
    || c == 46
    || c == 64
    || c == 43
    || c == 45

unfoldable pub all_subject_units : Units → Bool
unfolding is_subject_unit
all_subject_units [] = true
all_subject_units (c ∷ text) = is_subject_unit c && all_subject_units text

-- UNAUTHENTICATED_SUBJECT_PATTERN
unfoldable pub is_subject : Units → Bool
unfolding all_subject_units
is_subject label = leb 1 (length label) && leb (length label) 150 && all_subject_units label

-- extract
unfoldable pub label_of : UnauthenticatedConfig → CredentialSource → Option Units
label_of config source = elim config.subject_header [ none ↦ none | some header ↦ source header ]

-- UNAUTHENTICATED_ISSUER
abbrev pub unauthenticated_issuer : Units
unauthenticated_issuer = units "unauthenticated"

module _ {Key : Type 0} (is_not_empty : Units → Bool)
    (key_source : List TrustedIssuer → Library Key) where
  -- verify
  unfoldable pub admit : UnauthenticatedConfig → Units → Outcome
  unfolding trim is_subject
  admit config credential =
      let label = trim credential in
      verified (record {
        subject = if is_not_empty label && is_subject label then label else config.default_subject;
        kind = config.subject_kind;
        display_name = none;
        roles = config.roles;
        issuer = unauthenticated_issuer;
      })

  -- the `switch` over the type of an entry
  unfoldable pub verifier_of : VerifierConfig → Verifier
  unfolding label_of admit
  verifier_of (bearer_jwt issuers) = jwt_verifier is_not_empty (key_source issuers) issuers
  verifier_of (unauthenticated config) = record { extract = label_of config; verify = admit config }

  -- buildVerifiers
  unfoldable pub build_verifiers : List (Units × VerifierConfig) → Verifiers
  unfolding verifier_of
  build_verifiers [] = []
  build_verifiers ((method, entry) ∷ config) = (method, verifier_of entry) ∷ build_verifiers config
