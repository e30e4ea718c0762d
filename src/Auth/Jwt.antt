-- ===== src/Auth/Jwt.antt =====
-- The verifier of JSON web tokens (packages/auth/src/verifiers/JwtVerifier.ts). `is_not_empty` is
-- StringUtils.isNotEmpty of a string. The jose library and the source of keys are parameters, with what they answer
-- while one token is verified; the iteration over candidate keys itself does not fail.
use homelab_apps.Prelude.{
  Bool, ◌&&◌, Option, none, some, List, [], ◌∷◌, ◌++◌, if◌then◌else◌, first_of,
}
use homelab_apps.Auth.Bearer.{trim, words, bearer_of}
use homelab_apps.Auth.{
  Reason, missing, invalid, wrong_audience, unknown_issuer, indeterminate, PrincipalKind, Principal,
  Outcome, verified, refused, CredentialSource, Verifier, Units, units_eq, units,
}
use homelab_apps.Prelude.Text.{Units, units_eq, units, contains}

-- KeySchema, as far as the verifier reads it
pub data IssuerKey : Type 0 where
  value : Units → IssuerKey
  jwks : List Units → IssuerKey

-- TrustedIssuer
pub record TrustedIssuer : Type 0 where
  pub issuer : Units
  pub audience : Units
  pub key : IssuerKey
  pub subject_kind : PrincipalKind
  pub roles_claim : Units

-- JWTPayload: `sub` and `preferred_username` where they are strings, and a claim where it is an array, with none for
-- a member that is no string
pub record Payload : Type 0 where
  pub sub : Option Units
  pub preferred_username : Option Units
  pub claim : Units → Option (List (Option Units))

-- A result, or an error with its message.
pub data Tried (A : Type 0) : Type 0 where
  gives : A → Tried A
  fails : Units → Tried A

-- What `jwtVerify` comes to: a payload, JWSSignatureVerificationFailed, JWTClaimValidationFailed with its claim, or
-- another error.
pub data Checked : Type 0 where
  valid : Payload → Checked
  bad_signature : Units → Checked
  bad_claim : Units → Units → Checked
  failed : Units → Checked

-- What `getKey` comes to: a key, UnresolvableKeyError, AmbiguousKeyError with its candidates, or another error.
pub data Found (Key : Type 0) : Type 0 where
  found : Key → Found Key
  unresolvable : Units → Found Key
  ambiguous : List Key → Found Key
  unreachable : Units → Found Key

-- `decodeJwt(...).iss`, `alg` and `kid` of decodeProtectedHeader, jwtVerify with the issuer, the audience, the
-- algorithms and the required claims that it is told, and getKey of IKeySource with the issuer, `kid` and the algorithm.
pub record Library (Key : Type 0) : Type 0 where
  pub decode_issuer : Units → Tried (Option Units)
  pub decode_header : Units → Tried (Option Units × Option Units)
  pub jwt_verify : Units → Key → Units → Units → List Units → List Units → Checked
  pub get_key : Units → Option Units → Units → Found Key

-- algorithmsFor
unfoldable pub algorithms_for : TrustedIssuer → List Units
algorithms_for row = elim row.key [
  | value algorithm ↦ algorithm ∷ []
  | jwks algorithms ↦ algorithms
]

unfoldable pub only_strings : List (Option Units) → List Units
only_strings [] = []
only_strings (none ∷ entries) = only_strings entries
only_strings (some entry ∷ entries) = entry ∷ only_strings entries

-- rolesFrom
unfoldable pub roles_from : Payload → Units → List Units
unfolding only_strings
roles_from payload claim = elim (payload.claim claim) [
  | none ↦ []
  | some entries ↦ only_strings entries
]

-- toPrincipal
unfoldable pub to_principal : Payload → Units → TrustedIssuer → Principal
unfolding roles_from
to_principal payload subject row = record {
  subject = subject;
  kind = row.subject_kind;
  display_name = payload.preferred_username;
  roles = roles_from payload row.roles_claim;
  issuer = row.issuer;
}

abbrev pub refuse : Reason → Option Units → Outcome
refuse reason detail = refused (record { reason = reason; detail = detail })

-- `new Map(issuers.map(...)).get(issuer)`: the last row of the issuer
unfoldable pub find_issuer : Units → List TrustedIssuer → Option TrustedIssuer
find_issuer issuer [] = none
find_issuer issuer (row ∷ issuers) =
    let later = find_issuer issuer issuers in
    first_of later (if units_eq row.issuer issuer then some row else none)

-- `requiredClaims`
abbrev pub required_claims : List Units
required_claims = units "exp" ∷ []

module _ {Key : Type 0} (is_not_empty : Units → Bool) (library : Library Key)
    (issuers : List TrustedIssuer) where
  -- extract
  unfoldable pub extract : CredentialSource → Option Units
  unfolding trim words bearer_of
  extract source = elim (source (units "authorization")) [
    | none ↦ none
    | some header ↦ if is_not_empty header then bearer_of (words (trim header)) else none
  ]

  -- a token that a key verifies, and that is to carry a subject
  unfoldable pub accept : TrustedIssuer → Payload → Option Units → Outcome
  unfolding to_principal
  accept row payload none = refuse invalid (some (units "token carries no sub claim"))
  accept row payload (some subject) =
      if is_not_empty subject
      then verified (to_principal payload subject row)
      else refuse invalid (some (units "token carries no sub claim"))

  -- one candidate key; `next` tries the others behind a signature that is not its own
  unfoldable pub after_check : (Units → Outcome) → TrustedIssuer → Checked → Outcome
  unfolding accept
  after_check next row (valid payload) = accept row payload payload.sub
  after_check next row (bad_signature message) = next message
  after_check next row (bad_claim claim message) =
      refuse (if units_eq claim (units "aud") then wrong_audience else invalid) (some message)
  after_check next row (failed message) = refuse invalid (some message)

  -- the loop over the candidates, behind the refusal so far
  unfoldable pub try_keys : Units → TrustedIssuer → List Key → Units → Outcome
  unfolding after_check algorithms_for
  try_keys credential row [] refusal = refuse invalid (some refusal)
  try_keys credential row (key ∷ keys) refusal = after_check (try_keys credential row keys) row (
      library.jwt_verify credential key row.issuer row.audience (algorithms_for row)
        required_claims)

  abbrev pub no_candidate : Units
  no_candidate = units "no candidate key verifies the signature"

  unfoldable pub after_key : Units → TrustedIssuer → Found Key → Outcome
  unfolding try_keys
  after_key credential row (found key) = try_keys credential row (key ∷ []) no_candidate
  after_key credential row (ambiguous keys) = try_keys credential row keys no_candidate
  after_key credential row (unresolvable message) = refuse invalid (some message)
  after_key credential row (unreachable message) = refuse indeterminate (some message)

  abbrev pub not_allowed : Units → Units → Outcome
  not_allowed algorithm issuer =
      refuse invalid
        (some (units "token algorithm " ++ algorithm ++ units " is not allowed for " ++ issuer))

  -- the algorithm against the allowlist, and the keys of the issuer
  unfoldable pub with_row : Units → Units → TrustedIssuer → Option Units → Option Units → Outcome
  unfolding algorithms_for after_key
  with_row credential issuer row none kid = not_allowed (units "(none)") issuer
  with_row credential issuer row (some algorithm) kid =
      if is_not_empty algorithm && contains (algorithms_for row) algorithm
      then after_key credential row (library.get_key issuer kid algorithm)
      else not_allowed algorithm issuer

  unfoldable pub with_issuer :
      Units → Units → Option TrustedIssuer → Option Units → Option Units → Outcome
  unfolding with_row
  with_issuer credential issuer none algorithm kid =
      refuse unknown_issuer (some (units "no trusted issuer matches " ++ issuer))
  with_issuer credential issuer (some row) algorithm kid =
      with_row credential issuer row algorithm kid

  -- the claims that are read before anything is verified
  unfoldable pub after_read :
      Units → Tried (Option Units) → Tried (Option Units × Option Units) → Outcome
  unfolding with_issuer find_issuer
  after_read credential (fails message) header = refuse invalid (some message)
  after_read credential (gives issuer) (fails message) = refuse invalid (some message)
  after_read credential (gives none) (gives header) =
      refuse invalid (some (units "token carries no iss claim"))
  after_read credential (gives (some issuer)) (gives (algorithm, kid)) =
      with_issuer credential issuer (find_issuer issuer issuers) algorithm kid

  -- verify
  unfoldable pub verify : Units → Outcome
  unfolding trim after_read
  verify credential =
      if is_not_empty (trim credential)
      then after_read credential (library.decode_issuer credential)
          (library.decode_header credential)
      else refuse missing none

  -- the verifier, as the authenticator takes it
  abbrev pub jwt_verifier : Verifier
  jwt_verifier = record { extract = extract; verify = verify }
