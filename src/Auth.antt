-- ===== src/Auth.antt =====
-- Who may call (packages/auth/src/Authenticator.ts, VerificationOutcome.ts, Principal.ts, CredentialSource.ts and
-- ITokenVerifier.ts): the methods that a route admits, tried in their order. A verifier is given by what it answers
-- while the request is served. Metrics are left out.
pub mod Chain
pub mod Guard
pub mod Admission
pub mod Bearer
pub mod Jwt
pub mod Issuers
pub mod Trust
pub mod Build
pub mod Vouched
use homelab_apps.Prelude.{
  ℕ, zero, suc, ◌+◌, ◌-◌, ◌*◌, ◌/◌, ◌%◌, ◌^◌, ◌≤◌, ◌<◌, max, min, String, ◌≡◌, refl, sym, ap, ◌∙◌,
  ◌≢◌, ◌⊎◌, inl, inr, ◌↔◌, Bool, true, false, not, ◌&&◌, ◌||◌, Option, none, some, List, [], ◌∷◌,
  ◌++◌, map, arith, ltb, leb, ◌==◌, if◌then◌else◌, ltb→lt, lt→ltb, ltb-false→le, le→ltb-false,
  Bool-cases, Option-cases, or_else, is_some, first_of, or_cases, or_left, or_right, length, take,
  drop, replicate, length-append, All, All-append,
}
use homelab_apps.Prelude.Text.{Units, units_eq, units}

-- VerificationReason, but for `Ok`
pub data Reason : Type 0 where
  missing invalid wrong_audience unknown_issuer indeterminate : Reason

-- PrincipalKind
pub data PrincipalKind : Type 0 where
  human service device : PrincipalKind

-- Principal
pub record Principal : Type 0 where
  pub subject : Units
  pub kind : PrincipalKind
  pub display_name : Option Units
  pub roles : List Units
  pub issuer : Units

-- RefusedOutcome
pub record Refused : Type 0 where
  pub reason : Reason
  pub detail : Option Units

-- VerificationOutcome
pub data Outcome : Type 0 where
  verified : Principal → Outcome
  refused : Refused → Outcome

-- CredentialSource: the header of a name
abbrev pub CredentialSource : Type 0
CredentialSource = Units → Option Units

-- ITokenVerifier
pub record Verifier : Type 0 where
  pub extract : CredentialSource → Option Units
  pub verify : Units → Outcome

-- AuthVerifiers
abbrev pub Verifiers : Type 0
Verifiers = List (Units × Verifier)

-- AuthDecision
pub data Decision : Type 0 where
  allowed : Principal → Decision
  denied : Reason → ℕ → Option Units → Decision

-- What `authenticate` comes to: a decision, an AuthConfigurationError with its message, or the TypeError of a read
-- of `failures[0]` where there is none.
pub data Authentication : Type 0 where
  decided : Decision → Authentication
  misconfigured : Units → Authentication
  no_failure : Authentication

-- `verifiers.get(method)`
unfoldable pub find_verifier : Units → Verifiers → Option Verifier
find_verifier method [] = none
find_verifier method ((name, verifier) ∷ verifiers) =
    if units_eq name method then some verifier else find_verifier method verifiers

-- one method in front of what the others come to
unfoldable pub after_found : Units → Option Verifier → Units ⊎ List Verifier → Units ⊎ List Verifier
after_found method none later = inl method
after_found method (some verifier) (inl other) = inl other
after_found method (some verifier) (inr chain) = inr (verifier ∷ chain)

-- `methods.map(...)`: the verifiers of the methods, or the first method that has none
unfoldable pub resolve_chain : Verifiers → List Units → Units ⊎ List Verifier
unfolding find_verifier after_found
resolve_chain verifiers [] = inr []
resolve_chain verifiers (method ∷ methods) =
    after_found method (find_verifier method verifiers) (resolve_chain verifiers methods)

-- statusForReason
unfoldable pub status_for_reason : Reason → ℕ
status_for_reason indeterminate = 503
status_for_reason _ = 401

abbrev pub is_indeterminate : Reason → Bool
is_indeterminate indeterminate = true
is_indeterminate _ = false

abbrev pub is_missing : Reason → Bool
is_missing missing = true
is_missing _ = false

-- `failures.find(...)`
unfoldable pub find_failure : (Reason → Bool) → List Refused → Option Refused
find_failure test [] = none
find_failure test (f ∷ failures) = if test f.reason then some f else find_failure test failures

abbrev pub head : List Refused → Option Refused
head [] = none
head (f ∷ failures) = some f

-- mostTelling
unfoldable pub most_telling : List Refused → Option Refused
unfolding find_failure
most_telling failures =
    first_of (find_failure is_indeterminate failures)
      (first_of (find_failure (λ r. not (is_missing r)) failures) (head failures))

-- the decision over the worst failure
unfoldable pub deny : Option Refused → Authentication
unfolding status_for_reason
deny none = no_failure
deny (some worst) = decided (denied worst.reason (status_for_reason worst.reason) worst.detail)

-- `await verifier.verify(credential ?? '')`
unfoldable pub outcome_of : CredentialSource → Verifier → Outcome
outcome_of source verifier = verifier.verify (or_else (verifier.extract source) [])

-- the loop over the chain, behind the failures of the verifiers before
unfoldable pub try_chain : CredentialSource → List Refused → List Verifier → Authentication
unfolding outcome_of most_telling deny
try_chain source failures [] = deny (most_telling failures)
try_chain source failures (verifier ∷ chain) = elim (outcome_of source verifier) [
  | verified p ↦ decided (allowed p)
  | refused f ↦ try_chain source (failures ++ (f ∷ [])) chain
]

-- the loop, where every method has a verifier
unfoldable pub run_chain : CredentialSource → Units ⊎ List Verifier → Authentication
unfolding try_chain
run_chain source (inl method) =
    misconfigured (units "No verifier is configured for auth method '" ++ method ++ units "'.")
run_chain source (inr chain) = try_chain source [] chain

-- authenticate
unfoldable pub authenticate : Verifiers → CredentialSource → List Units → Authentication
unfolding resolve_chain run_chain
authenticate verifiers source [] = misconfigured (units "A guarded endpoint named no auth method.")
authenticate verifiers source (method ∷ methods) =
    run_chain source (resolve_chain verifiers (method ∷ methods))
