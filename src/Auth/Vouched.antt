-- ===== src/Auth/Vouched.antt =====
-- Who vouches for a request that passes the guard of a route
-- (packages/tsed-auth/src/AuthGuard.ts, packages/auth/src/Authenticator.ts and its verifiers).
use homelab_apps.Prelude.{
  ◌≡◌, refl, ap, ◌∙◌, inl, inr, Bool, true, Option, some, List, [], ◌∷◌, arith, Bool-cases, or_else,
  or_left, or_right, Some, here, there,
}
use mathlib.Core.Path.{subst}
use homelab_apps.Auth.{
  Principal, Outcome, verified, refused, CredentialSource, Verifier, Verifiers, find_verifier,
  outcome_of, Units, units_eq,
}
use homelab_apps.Auth.Jwt.{TrustedIssuer, Library, extract}
use homelab_apps.Auth.Build.{
  VerifierConfig, bearer_jwt, unauthenticated, unauthenticated_issuer, admit, verifier_of,
  build_verifiers,
}
use homelab_apps.Auth.Chain.{Admits, first, next, outcomes, Resolved}
use homelab_apps.Auth.Guard.{AuthGuardOptions, passes, decode_methods, use_guard}
use homelab_apps.Auth.Admission.{Required, Judged, Justified, use_guard-Justified}
use homelab_apps.Auth.Trust.{Trusted, Told, verify-Told}
use homelab_apps.Prelude.Text.{Units, contains, units_eq, units_eq_refl, eq_of_units_eq}

first-or-later :
    (p : Principal) (source : CredentialSource) (v : Verifier) (chain : List Verifier) (o : Outcome)
    → outcome_of source v ≡ o
    → (Admits p (outcomes source chain) → Some (λ w. outcome_of source w ≡ verified p) chain)
    → Admits p (o ∷ outcomes source chain)
    → Some (λ w. outcome_of source w ≡ verified p) (v ∷ chain)
first-or-later p source v chain (verified q) e on first = here e
first-or-later p source v chain (refused f) e on (next later) = there (on later)

Admits→Some :
    (p : Principal) (source : CredentialSource) (chain : List Verifier)
    → Admits p (outcomes source chain)
    → Some (λ v. outcome_of source v ≡ verified p) chain
Admits→Some p source [] a = elim a [ ]
Admits→Some p source (v ∷ chain) a =
    first-or-later p source v chain (outcome_of source v) refl (Admits→Some p source chain) a

Resolved-method :
    (P : Verifier → Type 0) (verifiers : Verifiers) (methods : List Units) {chain : List Verifier}
    → Resolved verifiers methods chain
    → Some P chain
    → (m : Units) × (v : Verifier) × (contains methods m ≡ true)
      × (find_verifier m verifiers ≡ some v)
      × P v
Resolved-method P verifiers [] e (here h) = absurd (cc)
Resolved-method P verifiers [] e (there h) = absurd (cc)
Resolved-method P verifiers (m ∷ methods) e (here {x = v} h) =
    (m, v, or_left (units_eq m m) _ (units_eq_refl m), cc, h)
Resolved-method P verifiers (m ∷ methods) e (there h) =
    let (m', v, listed, found, holds) = Resolved-method P verifiers methods (cc) h in
    (m', v, or_right (units_eq m m') _ listed, found, holds)

module _ {Key : Type 0} (is_not_empty : Units → Bool)
    (key_source : List TrustedIssuer → Library Key) where
  configured_entry :
      (m : Units) (v : Verifier) (config : List (Units × VerifierConfig))
      → find_verifier m (build_verifiers is_not_empty key_source config) ≡ some v
      → Some
          (λ (entry : Units × VerifierConfig).
            (entry.0 ≡ m) × (verifier_of is_not_empty key_source entry.1 ≡ v))
          config
  unfolding find_verifier build_verifiers
  configured_entry m v [] e = absurd (cc)
  configured_entry m v ((name, entry) ∷ config) e = elim (Bool-cases (units_eq name m)) [
    | inl same ↦ here (eq_of_units_eq name m same, ground arith)
    | inr other ↦ there (configured_entry m v config (ground arith))
  ]

  -- A token that is trusted, or an entry of the configuration that admits everybody.
  abbrev pub Vouched : CredentialSource → Principal → VerifierConfig → Type 0
  Vouched source p (bearer_jwt issuers) =
      Trusted is_not_empty (key_source issuers) issuers
        (or_else (extract is_not_empty (key_source issuers) issuers source) []) p
  Vouched source p (unauthenticated config) =
      (p.issuer ≡ unauthenticated_issuer)
      × (p.kind ≡ config.subject_kind)
      × (p.roles ≡ config.roles)

  outcome-Vouched :
      (source : CredentialSource) (p : Principal) (entry : VerifierConfig)
      → outcome_of source (verifier_of is_not_empty key_source entry) ≡ verified p
      → Vouched source p entry
  unfolding outcome_of verifier_of admit
  outcome-Vouched source p (bearer_jwt issuers) e =
      subst
        (Told is_not_empty (key_source issuers) issuers
          (or_else (extract is_not_empty (key_source issuers) issuers source) []))
        e
        (verify-Told is_not_empty (key_source issuers) issuers
          (or_else (extract is_not_empty (key_source issuers) issuers source) []))
  outcome-Vouched source p (unauthenticated config) e = (cc, cc, cc)

  entry-Vouched :
      (source : CredentialSource) (p : Principal) (m : Units) (v : Verifier) (methods : List Units)
      {config : List (Units × VerifierConfig)}
      → contains methods m ≡ true
      → outcome_of source v ≡ verified p
      → Some
          (λ (entry : Units × VerifierConfig).
            (entry.0 ≡ m) × (verifier_of is_not_empty key_source entry.1 ≡ v))
          config
      → Some
          (λ (entry : Units × VerifierConfig).
            (contains methods entry.0 ≡ true) × Vouched source p entry.1)
          config
  entry-Vouched source p m v methods listed e (here {x = entry} (named, built)) = here (
    ap (contains methods) named ∙ listed,
    outcome-Vouched source p entry.1 (ap (outcome_of source) built ∙ e),
  )
  entry-Vouched source p m v methods listed e (there h) =
      there (entry-Vouched source p m v methods listed e h)

  module _ (parse : Units → Option (List (Option Units))) (config : List (Units × VerifierConfig))
      (source : CredentialSource) where
    abbrev verifiers : Verifiers
    verifiers = build_verifiers is_not_empty key_source config

    -- One of the methods of the route vouches for the principal, who has the roles that the route asks for.
    abbrev pub Welcome : AuthGuardOptions → Principal → Type 0
    Welcome options p =
        Some
          (λ (entry : Units × VerifierConfig).
            (contains (decode_methods is_not_empty parse options.methods) entry.0 ≡ true)
            × Vouched source p entry.1)
          config
        × Required p options.roles

    admitted-Welcome :
        (options : AuthGuardOptions) (p : Principal) (chain : List Verifier)
        → Resolved verifiers (decode_methods is_not_empty parse options.methods) chain
        → Judged options.roles (outcomes source chain) (some p, passes)
        → Welcome options p
    admitted-Welcome options p chain resolved (admits, required) =
        let (m, v, listed, found, holds) =
          Resolved-method (λ v. outcome_of source v ≡ verified p) verifiers
            (decode_methods is_not_empty parse options.methods) resolved
            (Admits→Some p source chain admits) in
        (entry-Vouched source p m v _ listed holds (configured_entry m v config found), required)

    Justified-Welcome :
        (options : AuthGuardOptions) (p : Principal)
        → Justified verifiers source is_not_empty parse (some options) (some p, passes)
        → Welcome options p
    Justified-Welcome options p (inl (anonymous, e)) = absurd (cc)
    Justified-Welcome options p (inr (closed, inl (broken, (message, e)))) = absurd (cc)
    Justified-Welcome options p (inr (closed, inr (fine, (chain, resolved, judged)))) =
        admitted-Welcome options p chain resolved judged

    -- A request that the guard of a route lets pass with a principal was vouched for by an entry of the
    -- configuration that the route names: by a token that is trusted, or by an entry that admits everybody, whose
    -- principals have the issuer `unauthenticated`. The principal has one role of each list that the route asks for.
    pub use_guard-Welcome :
        (options : AuthGuardOptions) (p : Principal)
        → use_guard is_not_empty parse verifiers source (some options) ≡ (some p, passes)
        → Welcome options p
    use_guard-Welcome options p e = Justified-Welcome options p (
        subst (Justified verifiers source is_not_empty parse (some options)) e
          (use_guard-Justified verifiers source is_not_empty parse (some options)))
