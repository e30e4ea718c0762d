-- ===== src/Auth/Admission.antt =====
-- Whom the guard of a route lets pass, and how it answers the others
-- (packages/tsed-auth/src/AuthGuard.ts over packages/auth/src/Authenticator.ts).
use homelab_apps.Prelude.{
  ◌≡◌, refl, sym, ap, ◌≢◌, ◌⊎◌, inl, inr, Bool, true, false, Option, none, some, List, [], ◌∷◌,
  arith, if◌then◌else◌, Bool-cases, or_cases, or_left, or_right, All, Some, here, there,
}
use homelab_apps.Auth.{
  Principal, Outcome, CredentialSource, Verifier, Verifiers, decided, allowed, denied,
  misconfigured, no_failure, Authentication, is_indeterminate, resolve_chain, run_chain,
  authenticate, Units,
}
use homelab_apps.Auth.Chain.{
  Admits, Refuses, Chosen, outcomes, try_chain-Chosen, Resolved, Unconfigured, Resolution,
  resolve_chain-Resolution,
}
use homelab_apps.Auth.Guard.{
  AuthGuardOptions, Answer, passes, service_unavailable, unauthorized, forbidden,
  configuration_error, has_any, satisfies_one, satisfies, exception_for, check_roles,
  after_authentication, decode_methods, guard, use_guard,
}
use homelab_apps.Prelude.Text.{Units, contains}
use mathlib.Core.Path.{subst}

-- The principal holds one role at least of every list that is not empty.
abbrev Requirement : Principal → List Units → Type 0
Requirement p any_of = (any_of ≡ []) ⊎ Some (λ role. contains p.roles role ≡ true) any_of

abbrev pub Required : Principal → Option (List (List Units)) → Type 0
Required p none = Unit
Required p (some requirements) = All (Requirement p) requirements

has_any→Some :
    (roles any_of : List Units)
    → has_any roles any_of ≡ true
    → Some (λ role. contains roles role ≡ true) any_of
unfolding has_any
has_any→Some roles [] h = absurd (cc)
has_any→Some roles (role ∷ any_of) h =
    elim (or_cases (contains roles role) (has_any roles any_of) h) [
      | inl holds ↦ here holds
      | inr later ↦ there (has_any→Some roles any_of later)
    ]

Some→has_any :
    (roles : List Units) {any_of : List Units}
    → Some (λ role. contains roles role ≡ true) any_of
    → has_any roles any_of ≡ true
unfolding has_any
Some→has_any roles (here h) = or_left _ _ h
Some→has_any roles (there {x = role} h) = or_right (contains roles role) _ (Some→has_any roles h)

satisfies_one→Requirement :
    (p : Principal) (any_of : List Units)
    → satisfies_one p.roles any_of ≡ true
    → Requirement p any_of
unfolding satisfies_one
satisfies_one→Requirement p [] h = inl refl
satisfies_one→Requirement p (role ∷ any_of) h = inr (has_any→Some p.roles (role ∷ any_of) h)

Requirement→satisfies_one :
    (p : Principal) (any_of : List Units)
    → Requirement p any_of
    → satisfies_one p.roles any_of ≡ true
unfolding satisfies_one
Requirement→satisfies_one p [] h = refl
Requirement→satisfies_one p (role ∷ any_of) (inl none_asked) = absurd (cc)
Requirement→satisfies_one p (role ∷ any_of) (inr h) = Some→has_any p.roles h

satisfies→All :
    (p : Principal) (requirements : List (List Units))
    → satisfies p requirements ≡ true
    → All (Requirement p) requirements
unfolding satisfies
satisfies→All p [] h = tt
satisfies→All p (any_of ∷ requirements) h =
    (satisfies_one→Requirement p any_of (ground arith), satisfies→All p requirements (ground arith))

All→satisfies :
    (p : Principal) (requirements : List (List Units))
    → All (Requirement p) requirements
    → satisfies p requirements ≡ true
unfolding satisfies
All→satisfies p [] h = refl
All→satisfies p (any_of ∷ requirements) (h, hs) =
    rw (Requirement→satisfies_one p any_of h) (All→satisfies p requirements hs)

module _ (roles : Option (List (List Units))) where
  -- What the outcomes of the chain of a route say of the principal on the context and of the end.
  abbrev pub Judged : List Outcome → Option Principal × Answer → Type 0
  Judged os (some p, passes) = Admits p os × Required p roles
  Judged os (some p, forbidden) = Admits p os × (¬ Required p roles)
  Judged os (none, service_unavailable) = Refuses true os
  Judged os (none, unauthorized) = Refuses false os
  Judged os _ = ⊥

  checked-Judged :
      (os : List Outcome) (p : Principal) (asked : Option (List (List Units)))
      → roles ≡ asked
      → Admits p os
      → Judged os (some p, check_roles p asked)
  unfolding check_roles
  checked-Judged os p none e a = (a, rw e tt)
  checked-Judged os p (some requirements) e a = elim (Bool-cases (satisfies p requirements)) [
    | inl holds ↦ rw (holds, check_roles) (a, rw e (satisfies→All p requirements holds))
    | inr fails ↦
        rw (fails, check_roles)
          (a, rw e (λ all. ground (arith, All→satisfies p requirements all, fails)))
  ]

  refused-Judged :
      (os : List Outcome) (b : Bool)
      → Refuses b os
      → Judged os (none, if b then service_unavailable else unauthorized)
  refused-Judged os true h = h
  refused-Judged os false h = h

  after-Judged :
      (os : List Outcome) (a : Authentication)
      → os ≢ []
      → Chosen os a
      → Judged os (after_authentication roles a)
  unfolding after_authentication exception_for
  after-Judged os (decided (allowed p)) some_one h = checked-Judged os p roles refl h
  after-Judged os (decided (denied reason status detail)) some_one h =
      refused-Judged os (is_indeterminate reason) h
  after-Judged os (misconfigured message) some_one h = absurd h
  after-Judged os no_failure some_one h = absurd (some_one h)

module _ (verifiers : Verifiers) (source : CredentialSource) where
  -- A route names no method, or one that has no verifier.
  abbrev pub Misconfigured : List Units → Type 0
  Misconfigured methods = (methods ≡ []) ⊎ Some (Unconfigured verifiers) methods

  abbrev pub Guarded : Option (List (List Units)) → List Units → Option Principal × Answer → Type 0
  Guarded roles methods a =
      (Misconfigured methods × ((message : Units) × (a ≡ (none, configuration_error message))))
      ⊎ ((¬ Misconfigured methods)
          × ((chain : List Verifier) × Resolved verifiers methods chain
              × Judged roles (outcomes source chain) a))

  all_configured :
      (methods : List Units) (chain : List Verifier)
      → Resolved verifiers methods chain
      → Some (Unconfigured verifiers) methods
      → ⊥
  all_configured [] chain e h = elim h [ ]
  all_configured (method ∷ methods) [] e h = cc
  all_configured (method ∷ methods) (v ∷ chain) e (here h) = cc
  all_configured (method ∷ methods) (v ∷ chain) e (there h) = all_configured methods chain (cc) h

  configured :
      (method : Units) (methods : List Units) (chain : List Verifier)
      → Resolved verifiers (method ∷ methods) chain
      → ¬ Misconfigured (method ∷ methods)
  configured method methods chain e (inl none_named) = cc
  configured method methods chain e (inr h) = all_configured (method ∷ methods) chain e h

  some_outcome :
      (method : Units) (methods : List Units) (chain : List Verifier)
      → Resolved verifiers (method ∷ methods) chain
      → outcomes source chain ≢ []
  some_outcome method methods [] e none_there = cc
  some_outcome method methods (v ∷ chain) e none_there = cc

  resolved-Guarded :
      (roles : Option (List (List Units))) (method : Units) (methods : List Units)
      (resolved : Units ⊎ List Verifier)
      → Resolution verifiers (method ∷ methods) resolved
      → Guarded roles (method ∷ methods) (after_authentication roles (run_chain source resolved))
  unfolding run_chain after_authentication
  resolved-Guarded roles method methods (inl other) missing = inl (inr missing, (_, refl))
  resolved-Guarded roles method methods (inr chain) resolved = inr (
    configured method methods chain resolved,
    (
      chain,
      resolved,
      after-Judged roles (outcomes source chain) _ (some_outcome method methods chain resolved)
          (try_chain-Chosen source [] chain (outcomes source chain) refl),
    ),
  )

  module _ (is_not_empty : Units → Bool) (parse : Units → Option (List (Option Units))) where
    guard-Guarded :
        (roles : Option (List (List Units))) (methods : List Units)
        → Guarded roles methods (guard is_not_empty parse verifiers source roles methods)
    unfolding guard authenticate
    guard-Guarded roles [] = inl (inl refl, (_, refl))
    guard-Guarded roles (method ∷ methods) =
        resolved-Guarded roles method methods (resolve_chain verifiers (method ∷ methods))
          (resolve_chain-Resolution verifiers (method ∷ methods))

    abbrev pub Justified : Option AuthGuardOptions → Option Principal × Answer → Type 0
    Justified none a = Guarded none [] a
    Justified (some options) a =
        ((options.anonymous ≡ true) × (a ≡ (none, passes)))
        ⊎ ((options.anonymous ≡ false)
            × Guarded options.roles (decode_methods is_not_empty parse options.methods) a)

    -- The guard of a route lets a request pass without a principal exactly where the route is anonymous, and
    -- answers with a configuration error exactly where the route names no method or one that has no verifier.
    -- Else the verifiers of its methods are asked in their order. If one of them verifies, then the first of these
    -- gives the principal, and the request passes if that holds one role of each list that is asked for, and is
    -- forbidden if not. If all of them refuse, then the service is unavailable if one of them could not say, and
    -- the request is unauthorized if none of them could not.
    pub use_guard-Justified :
        (endpoint : Option AuthGuardOptions)
        → Justified endpoint (use_guard is_not_empty parse verifiers source endpoint)
    unfolding use_guard
    use_guard-Justified none = guard-Guarded none []
    use_guard-Justified (some options) = elim (Bool-cases options.anonymous) [
      | inl let_in ↦ inl (
        let_in,
        ap
            (λ b.
              if b
              then (none, passes)
              else guard is_not_empty parse verifiers source options.roles
                  (decode_methods is_not_empty parse options.methods))
            let_in,
      )
      | inr closed ↦ inr (
        closed,
        subst
            (λ b. Guarded options.roles (decode_methods is_not_empty parse options.methods) (
              if b
              then (none, passes)
              else guard is_not_empty parse verifiers source options.roles
                  (decode_methods is_not_empty parse options.methods)))
            (sym closed)
            (guard-Guarded options.roles (decode_methods is_not_empty parse options.methods)),
      )
    ]
