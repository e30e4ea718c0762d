-- ===== src/Auth/Chain.antt =====
-- Which decision the outcomes of a chain of verifiers come to (packages/auth/src/Authenticator.ts).
use homelab_apps.Prelude.{
  Some, here, there, ◌≡◌, refl, sym, ap, ◌∙◌, ◌≢◌, ◌⊎◌, inl, inr, Bool, true, false, not, Option,
  none, some, List, [], ◌∷◌, ◌++◌, map, arith, Bool-cases, Option-cases, All,
}
use mathlib.Core.List.{append-nil, append_assoc, map-append}
use mathlib.Core.Path.{subst}
use homelab_apps.Auth.{
  Reason, indeterminate, Principal, Refused, Outcome, verified, refused, CredentialSource, Verifier,
  Verifiers, allowed, denied, Authentication, decided, misconfigured, no_failure, find_verifier,
  after_found, resolve_chain, is_indeterminate, is_missing, find_failure, most_telling, deny,
  outcome_of, try_chain, Units,
}
use homelab_apps.Prelude.Text.{Units}

-- The first outcome that verifies is one of this principal.
pub data Admits (p : Principal) : List Outcome → Type 0 where
  first : {rest : List Outcome} → Admits p (verified p ∷ rest)
  next : {f : Refused} {rest : List Outcome} → Admits p rest → Admits p (refused f ∷ rest)

abbrev pub CannotSay : Refused → Type 0
CannotSay f = f.reason ≡ indeterminate

-- All of them refuse, with these failures, and whether one of them could not say.
abbrev pub Refuses : Bool → List Outcome → Type 0
Refuses true os = (fs : List Refused) × (os ≡ map refused fs) × Some CannotSay fs
Refuses false os =
    (fs : List Refused) × (os ≡ map refused fs) × All (λ f. f.reason ≢ indeterminate) fs

abbrev pub Chosen : List Outcome → Authentication → Type 0
Chosen os (decided (allowed p)) = Admits p os
Chosen os (decided (denied reason status detail)) = Refuses (is_indeterminate reason) os
Chosen os (misconfigured message) = ⊥
Chosen os no_failure = os ≡ []

cannot_say : (r : Reason) → is_indeterminate r ≡ true → r ≡ indeterminate
cannot_say indeterminate h = refl
cannot_say r h = absurd (ground arith)

can_say : (r : Reason) → is_indeterminate r ≡ false → r ≡ indeterminate → ⊥
can_say r h e = ground (arith, ap is_indeterminate e)

find_failure-some :
    (test : Reason → Bool) (fs : List Refused) (w : Refused)
    → find_failure test fs ≡ some w
    → (test w.reason ≡ true) × Some (λ f. test f.reason ≡ true) fs
unfolding find_failure
find_failure-some test [] w e = absurd (cc)
find_failure-some test (f ∷ fs) w e = elim (Bool-cases (test f.reason)) [
  | inl holds ↦ (ground arith, here holds)
  | inr fails ↦ let (t, later) = find_failure-some test fs w (ground arith) in (t, there later)
]

find_failure-none :
    (test : Reason → Bool) (fs : List Refused)
    → find_failure test fs ≡ none
    → All (λ f. test f.reason ≡ false) fs
unfolding find_failure
find_failure-none test [] e = tt
find_failure-none test (f ∷ fs) e = elim (Bool-cases (test f.reason)) [
  | inl holds ↦ absurd (ground arith)
  | inr fails ↦ (fails, find_failure-none test fs (ground arith))
]

find_failure-All :
    (P : Refused → Type 0) (test : Reason → Bool) (fs : List Refused) (w : Refused)
    → All P fs
    → find_failure test fs ≡ some w
    → P w
unfolding find_failure
find_failure-All P test [] w a e = absurd (cc)
find_failure-All P test (f ∷ fs) w (p, ps) e = elim (Bool-cases (test f.reason)) [
  | inl holds ↦ subst P (ground arith) p
  | inr fails ↦ find_failure-All P test fs w ps (ground arith)
]

Some-map :
    {A : Type 0} (P Q : A → Type 0) {xs : List A} → ((x : A) → P x → Q x) → Some P xs → Some Q xs
Some-map P Q f (here h) = here (f _ h)
Some-map P Q f (there h) = there (Some-map P Q f h)

All-map :
    {A : Type 0} (P Q : A → Type 0) (xs : List A) → ((x : A) → P x → Q x) → All P xs → All Q xs
All-map P Q [] f h = tt
All-map P Q (x ∷ xs) f (h, hs) = (f x h, All-map P Q xs f hs)

module _ (os : List Outcome) (fs : List Refused) (same : os ≡ map refused fs) where
  worst-Chosen :
      (w : Refused) (b : Bool)
      → is_indeterminate w.reason ≡ b
      → Refuses b os
      → most_telling fs ≡ some w
      → Chosen os (deny (most_telling fs))
  unfolding deny
  worst-Chosen w b e h found =
      subst (λ m. Chosen os (deny m)) (sym found) (subst (λ c. Refuses c os) (sym e) h)

  -- The first failure is taken where all of them are missing credentials.
  head-Chosen :
      (gs : List Refused)
      → fs ≡ gs
      → All (λ f. is_indeterminate f.reason ≡ false) gs
      → Refuses false os
      → find_failure is_indeterminate fs ≡ none
      → find_failure (λ r. not (is_missing r)) fs ≡ none
      → Chosen os (deny (most_telling fs))
  unfolding most_telling deny
  head-Chosen [] e calm refuses nothing none_else =
      let nothing_told : none ≡ most_telling fs = ground arith in
      subst (λ m. Chosen os (deny m)) nothing_told (same ∙ ap (map refused) e)
  head-Chosen (g ∷ gs) e (h, calm) refuses nothing none_else =
      worst-Chosen g false h refuses (ground arith)

  -- No failure says that it cannot say.
  calm-Chosen : find_failure is_indeterminate fs ≡ none → Chosen os (deny (most_telling fs))
  unfolding most_telling deny
  calm-Chosen nothing =
      let calm = find_failure-none is_indeterminate fs nothing in
      let refuses : Refuses false os =
        (fs, same, All-map _ _ fs (λ f h. can_say f.reason h) calm) in
      elim (Option-cases (find_failure (λ r. not (is_missing r)) fs)) [
        | inr (w, found) ↦
            worst-Chosen w false (find_failure-All _ _ fs w calm found) refuses (ground arith)
        | inl none_else ↦ head-Chosen fs refl calm refuses nothing none_else
      ]

  deny_most-Chosen : Chosen os (deny (most_telling fs))
  unfolding most_telling
  deny_most-Chosen = elim (Option-cases (find_failure is_indeterminate fs)) [
    | inr (w, found) ↦
        let (t, some_one) = find_failure-some is_indeterminate fs w found in
        worst-Chosen w true t (fs, same, Some-map _ _ (λ f h. cannot_say f.reason h) some_one)
          (ground arith)
    | inl nothing ↦ calm-Chosen nothing
  ]

Admits-after :
    (p : Principal) (fs : List Refused) (os : List Outcome)
    → Admits p os
    → Admits p (map refused fs ++ os)
Admits-after p [] os a = a
Admits-after p (f ∷ fs) os a = next (Admits-after p fs os a)

-- The outcomes of the verifiers of a chain.
abbrev pub outcomes : CredentialSource → List Verifier → List Outcome
outcomes source chain = map (outcome_of source) chain

step-Chosen :
    (source : CredentialSource) (failures : List Refused) (v : Verifier) (chain : List Verifier)
    (os : List Outcome) (o : Outcome)
    → os ≡ map refused failures ++ (o ∷ outcomes source chain)
    → ((fs : List Refused)
        → os ≡ map refused fs ++ outcomes source chain
        → Chosen os (try_chain source fs chain))
    → Chosen os (elim o [
      | verified p ↦ decided (allowed p)
      | refused f ↦ try_chain source (failures ++ (f ∷ [])) chain
    ])
step-Chosen source failures v chain os (verified p) e on =
    subst (Admits p) (sym e) (Admits-after p failures _ first)
step-Chosen source failures v chain os (refused f) e on = on (failures ++ (f ∷ [])) (
    e
    ∙ sym (append_assoc (map refused failures) (refused f ∷ []) (outcomes source chain))
    ∙ ap (λ t. t ++ outcomes source chain) (sym (map-append refused failures (f ∷ []))))

pub try_chain-Chosen :
    (source : CredentialSource) (failures : List Refused) (chain : List Verifier)
    (os : List Outcome)
    → os ≡ map refused failures ++ outcomes source chain
    → Chosen os (try_chain source failures chain)
unfolding try_chain
try_chain-Chosen source failures [] os e =
    deny_most-Chosen os failures (e ∙ append-nil (map refused failures))
try_chain-Chosen source failures (v ∷ chain) os e =
    step-Chosen source failures v chain os (outcome_of source v) e
      (λ fs e. try_chain-Chosen source fs chain os e)

module _ (verifiers : Verifiers) where
  -- The verifiers of the methods, in their order.
  abbrev pub Resolved : List Units → List Verifier → Type 0
  Resolved methods chain = map (λ m. find_verifier m verifiers) methods ≡ map some chain

  abbrev pub Unconfigured : Units → Type 0
  Unconfigured m = find_verifier m verifiers ≡ none

  abbrev pub Resolution : List Units → Units ⊎ List Verifier → Type 0
  Resolution methods (inl method) = Some Unconfigured methods
  Resolution methods (inr chain) = Resolved methods chain

  after_found-Resolution :
      (method : Units) (methods : List Units) (found : Option Verifier)
      (later : Units ⊎ List Verifier)
      → find_verifier method verifiers ≡ found
      → Resolution methods later
      → Resolution (method ∷ methods) (after_found method found later)
  unfolding after_found
  after_found-Resolution method methods none later e r = here e
  after_found-Resolution method methods (some v) (inl other) e r = there r
  after_found-Resolution method methods (some v) (inr chain) e r = cc

  pub resolve_chain-Resolution :
      (methods : List Units) → Resolution methods (resolve_chain verifiers methods)
  unfolding resolve_chain
  resolve_chain-Resolution [] = refl
  resolve_chain-Resolution (method ∷ methods) =
      after_found-Resolution method methods (find_verifier method verifiers) _ refl
        (resolve_chain-Resolution methods)
