-- ===== src/Auth/Guard.antt =====
-- The guard of a route (packages/tsed-auth/src/AuthGuard.ts): what it throws, and the principal that it leaves on the
-- context of the request. `is_not_empty` is StringUtils.isNotEmpty of a string, and `parse` is JSON.parse of a
-- text that holds an array, with none for a member that is no string.
use homelab_apps.Prelude.{
  Bool, true, false, ◌&&◌, ◌||◌, Option, none, some, List, [], ◌∷◌, if◌then◌else◌,
}
use homelab_apps.Auth.{
  Reason, Principal, CredentialSource, Verifiers, allowed, denied, Authentication, decided,
  misconfigured, no_failure, is_indeterminate, authenticate, Units, units,
}
use homelab_apps.Prelude.Text.{Units, contains, units}

-- AuthGuardOptions, as far as the guard reads them
pub record AuthGuardOptions : Type 0 where
  pub anonymous : Bool
  pub methods : Option Units
  pub roles : Option (List (List Units))

-- How the guard ends: it lets the request pass, or throws.
pub data Answer : Type 0 where
  passes service_unavailable unauthorized forbidden unexpected : Answer
  configuration_error : Units → Answer

-- `anyOf.some((role) => principal.roles.includes(role))`
unfoldable pub has_any : List Units → List Units → Bool
has_any roles [] = false
has_any roles (role ∷ any_of) = contains roles role || has_any roles any_of

unfoldable pub satisfies_one : List Units → List Units → Bool
unfolding has_any
satisfies_one roles [] = true
satisfies_one roles (role ∷ any_of) = has_any roles (role ∷ any_of)

-- satisfies
unfoldable pub satisfies : Principal → List (List Units) → Bool
unfolding satisfies_one
satisfies principal [] = true
satisfies principal (any_of ∷ requirements) =
    satisfies_one principal.roles any_of && satisfies principal requirements

-- exceptionFor
unfoldable pub exception_for : Reason → Answer
exception_for reason = if is_indeterminate reason then service_unavailable else unauthorized

-- the roles that an endpoint asks for; none are asked for where there are no `roles`
unfoldable pub check_roles : Principal → Option (List (List Units)) → Answer
unfolding satisfies
check_roles principal none = passes
check_roles principal (some requirements) =
    if satisfies principal requirements then passes else forbidden

-- `use` behind `authenticate`: the principal of the context, and the end
unfoldable pub after_authentication :
    Option (List (List Units)) → Authentication → Option Principal × Answer
unfolding exception_for check_roles
after_authentication roles (decided (allowed p)) = (some p, check_roles p roles)
after_authentication roles (decided (denied reason status detail)) = (none, exception_for reason)
after_authentication roles (misconfigured message) = (none, configuration_error message)
after_authentication roles no_failure = (none, unexpected)

module _ (is_not_empty : Units → Bool) (parse : Units → Option (List (Option Units))) where
  unfoldable pub only_filled : List (Option Units) → List Units
  only_filled [] = []
  only_filled (none ∷ items) = only_filled items
  only_filled (some m ∷ items) =
      let later = only_filled items in if is_not_empty m then m ∷ later else later

  abbrev pub parsed : Option (List (Option Units)) → List Units
  parsed none = []
  parsed (some items) = only_filled items

  -- decodeMethods
  unfoldable pub decode_methods : Option Units → List Units
  unfolding only_filled
  decode_methods none = []
  decode_methods (some encoded) = if is_not_empty encoded then parsed (parse encoded) else []

  -- the guard of the methods of an endpoint
  unfoldable pub guard :
      Verifiers
      → CredentialSource
      → Option (List (List Units))
      → List Units
      → Option Principal × Answer
  unfolding authenticate after_authentication
  guard verifiers source roles [] = (
    none,
    configuration_error (
        units
          "AuthGuard ran on an endpoint with no auth method; use @Authenticate(method) or @Anonymous()."),
  )
  guard verifiers source roles (method ∷ methods) =
      after_authentication roles (authenticate verifiers source (method ∷ methods))

  -- use
  unfoldable pub use_guard :
      Verifiers → CredentialSource → Option AuthGuardOptions → Option Principal × Answer
  unfolding decode_methods guard
  use_guard verifiers source none = guard verifiers source none []
  use_guard verifiers source (some options) =
      if options.anonymous
      then (none, passes)
      else guard verifiers source options.roles (decode_methods options.methods)
