-- ===== src/Auth/Trust.antt =====
-- What a verified token rests on, and what a refusal of the verifier says
-- (verify of packages/auth/src/verifiers/JwtVerifier.ts).
use homelab_apps.Prelude.{
  ◌≡◌, refl, sym, ap, ◌∙◌, inl, inr, Bool, true, false, ◌&&◌, Option, none, some, List, [], ◌∷◌,
  arith, Bool-cases, All, Some,
}
use homelab_apps.Auth.{
  missing, invalid, wrong_audience, unknown_issuer, indeterminate, Principal, Outcome, verified,
  refused, Units, units_eq, units, Reason,
}
use homelab_apps.Auth.Issuers.{find_issuer-some, find_issuer-none}
use homelab_apps.Auth.Bearer.{trim}
use homelab_apps.Auth.Jwt.{
  TrustedIssuer, Payload, Tried, gives, fails, Checked, valid, bad_signature, bad_claim, failed,
  Found, found, unresolvable, ambiguous, unreachable, Library, algorithms_for, to_principal,
  find_issuer, accept, after_check, try_keys, after_key, no_candidate, with_row, with_issuer,
  after_read, verify,
}
use homelab_apps.Prelude.Text.{Units, contains, units, units_eq, eq_of_units_eq}
use mathlib.Core.Path.{subst}

-- The keys that the source of keys answers with.
abbrev pub Offers : {Key : Type 0} → Found Key → List Key → Type 0
Offers (found key) keys = keys ≡ key ∷ []
Offers (ambiguous candidates) keys = keys ≡ candidates
Offers (unresolvable message) keys = ⊥
Offers (unreachable message) keys = ⊥

module _ {Key : Type 0} (is_not_empty : Units → Bool) (library : Library Key)
    (issuers : List TrustedIssuer) (credential : Units) where
  -- The token claims an issuer that is trusted, and one of the algorithms that are allowed for it.
  pub record Claimed : Type 0 where
    pub filled : is_not_empty (trim credential) ≡ true
    pub row : TrustedIssuer
    pub algorithm : Units
    pub kid : Option Units
    pub listed : Some (λ r. r ≡ row) issuers
    pub issuer : library.decode_issuer credential ≡ gives (some row.issuer)
    pub header : library.decode_header credential ≡ gives (some algorithm, kid)
    pub permitted : contains (algorithms_for row) algorithm ≡ true

  abbrev pub key_answer : Claimed → Found Key
  key_answer c = library.get_key c.row.issuer c.kid c.algorithm

  -- A key's check of the token, which is to carry an expiry.
  abbrev pub check : TrustedIssuer → Key → Checked
  check row key =
      library.jwt_verify credential key row.issuer row.audience (algorithms_for row)
        (units "exp" ∷ [])

  -- The signature is not the key's.
  abbrev pub Differs : TrustedIssuer → Key → Type 0
  Differs row key = (message : Units) × (check row key ≡ bad_signature message)

  -- The key is one of the list, and the signature is of none before it.
  pub data Next (row : TrustedIssuer) (key : Key) : List Key → Type 0 where
    first : (keys : List Key) → Next row key (key ∷ keys)
    behind :
        (other : Key) (keys : List Key)
        → Differs row other
        → Next row key keys
        → Next row key (other ∷ keys)

  -- The key comes to be asked, of those that the source of keys has for the token.
  pub record Asked (c : Claimed) (key : Key) : Type 0 where
    pub keys : List Key
    pub offered : Offers (key_answer c) keys
    pub next : Next c.row key keys

  -- One of the keys of that issuer verifies the token, which names its subject.
  pub record Trusted (p : Principal) : Type 0 where
    pub claimed : Claimed
    pub key : Key
    pub payload : Payload
    pub subject : Units
    pub asked : Asked claimed key
    pub accepted : check claimed.row key ≡ valid payload
    pub named : payload.sub ≡ some subject
    pub filled : is_not_empty subject ≡ true
    pub principal : p ≡ to_principal payload subject claimed.row

  -- One of the keys verifies a token that is for somebody else.
  pub record Misdirected : Type 0 where
    pub claimed : Claimed
    pub key : Key
    pub message : Units
    pub asked : Asked claimed key
    pub rejected : check claimed.row key ≡ bad_claim (units "aud") message

  -- What is wrong with a token that is invalid: it does not parse, it claims no issuer, no algorithm or
  -- one that its issuer is not allowed, it asks for a key that there is none of, no key fits its
  -- signature, or one fits it and the token is refused, but not for its audience, or names no subject.
  pub data Invalid : Type 0 where
    unreadable_claims :
        (message : Units) → library.decode_issuer credential ≡ fails message → Invalid
    unreadable_header :
        (message : Units) → library.decode_header credential ≡ fails message → Invalid
    no_issuer : library.decode_issuer credential ≡ gives none → Invalid
    no_algorithm :
        (kid : Option Units) → library.decode_header credential ≡ gives (none, kid) → Invalid
    other_algorithm :
        (row : TrustedIssuer) (algorithm : Units) (kid : Option Units)
        → Some (λ r. r ≡ row) issuers
        → library.decode_issuer credential ≡ gives (some row.issuer)
        → library.decode_header credential ≡ gives (some algorithm, kid)
        → (is_not_empty algorithm && contains (algorithms_for row) algorithm) ≡ false
        → Invalid
    no_such_key : (c : Claimed) (message : Units) → key_answer c ≡ unresolvable message → Invalid
    no_key_fits :
        (c : Claimed) (keys : List Key)
        → Offers (key_answer c) keys
        → All (λ key. Differs c.row key) keys
        → Invalid
    other_claim :
        (c : Claimed) (key : Key) (claim message : Units)
        → Asked c key
        → check c.row key ≡ bad_claim claim message
        → units_eq claim (units "aud") ≡ false
        → Invalid
    otherwise_refused :
        (c : Claimed) (key : Key) (message : Units)
        → Asked c key
        → check c.row key ≡ failed message
        → Invalid
    no_subject :
        (c : Claimed) (key : Key) (payload : Payload)
        → Asked c key
        → check c.row key ≡ valid payload
        → payload.sub ≡ none
        → Invalid
    empty_subject :
        (c : Claimed) (key : Key) (payload : Payload) (subject : Units)
        → Asked c key
        → check c.row key ≡ valid payload
        → payload.sub ≡ some subject
        → is_not_empty subject ≡ false
        → Invalid

  -- What a refusal says of the token and of the source of keys.
  abbrev pub Says : Reason → Type 0
  Says missing = is_not_empty (trim credential) ≡ false
  Says invalid = (is_not_empty (trim credential) ≡ true) × Invalid
  Says wrong_audience = Misdirected
  Says unknown_issuer =
      (is_not_empty (trim credential) ≡ true)
      × (issuer : Units) × (library.decode_issuer credential ≡ gives (some issuer))
      × All (λ (r : TrustedIssuer). units_eq r.issuer issuer ≡ false) issuers
  Says indeterminate = (c : Claimed) × (message : Units) × (key_answer c ≡ unreachable message)

  abbrev pub Told : Outcome → Type 0
  Told (verified p) = Trusted p
  Told (refused f) = Says f.reason

  module _ (c : Claimed) where
    accept-Told :
        (key : Key) (payload : Payload) (sub : Option Units)
        → Asked c key
        → check c.row key ≡ valid payload
        → payload.sub ≡ sub
        → Told (accept is_not_empty library issuers c.row payload sub)
    unfolding accept
    accept-Told key payload none at accepted named =
        (c.filled, no_subject c key payload at accepted named)
    accept-Told key payload (some subject) at accepted named =
        elim (Bool-cases (is_not_empty subject)) [
          | inr empty ↦
              rw (empty, accept)
                (c.filled, empty_subject c key payload subject at accepted named empty)
          | inl filled ↦
              rw (filled, accept)
                (record {
                  claimed = c;
                  key = key;
                  payload = payload;
                  subject = subject;
                  asked = at;
                  accepted = accepted;
                  named = named;
                  filled = filled;
                  principal = refl;
                })
        ]

    check-Told :
        (next : Units → Outcome) (key : Key) (checked : Checked)
        → ((message : Units) → check c.row key ≡ bad_signature message → Told (next message))
        → Asked c key
        → check c.row key ≡ checked
        → Told (after_check is_not_empty library issuers next c.row checked)
    unfolding after_check
    check-Told next key (valid payload) told at e = accept-Told key payload payload.sub at e refl
    check-Told next key (bad_signature message) told at e = told message e
    check-Told next key (bad_claim claim message) told at e =
        elim (Bool-cases (units_eq claim (units "aud"))) [
          | inr other ↦
              rw (other, after_check) (c.filled, other_claim c key claim message at e other)
          | inl aud ↦
              rw (aud, after_check)
                (record {
                  claimed = c;
                  key = key;
                  message = message;
                  asked = at;
                  rejected =
                      e
                      ∙ ap (λ name. bad_claim name message)
                          (eq_of_units_eq claim (units "aud") aud);
                })
        ]
    check-Told next key (failed message) told at e =
        (c.filled, otherwise_refused c key message at e)

    -- `all` are the keys of the source, and `keys` those of them that are still to be tried.
    try_keys-Told :
        (all keys : List Key) (refusal : Units)
        → Offers (key_answer c) all
        → ((key : Key) → Next c.row key keys → Next c.row key all)
        → (All (λ key. Differs c.row key) keys → All (λ key. Differs c.row key) all)
        → Told (try_keys is_not_empty library issuers credential c.row keys refusal)
    unfolding try_keys
    try_keys-Told all [] refusal offered reach spent =
        (c.filled, no_key_fits c all offered (spent tt))
    try_keys-Told all (key ∷ keys) refusal offered reach spent =
        check-Told _ key (check c.row key)
          (λ message differs.
            try_keys-Told all keys message offered
              (λ k at. reach k (behind key keys (message, differs) at))
              (λ rest. spent ((message, differs), rest)))
          (record { keys = all; offered = offered; next = reach key (first keys) }) refl

    after_key-Told :
        (answer : Found Key)
        → key_answer c ≡ answer
        → Told (after_key is_not_empty library issuers credential c.row answer)
    unfolding after_key
    after_key-Told (found key) e =
        try_keys-Told (key ∷ []) (key ∷ []) (no_candidate is_not_empty library issuers)
          (subst (λ answer. Offers answer (key ∷ [])) (sym e) refl) (λ k at. at) (λ spent. spent)
    after_key-Told (ambiguous keys) e =
        try_keys-Told keys keys (no_candidate is_not_empty library issuers)
          (subst (λ answer. Offers answer keys) (sym e) refl) (λ k at. at) (λ spent. spent)
    after_key-Told (unresolvable message) e = (c.filled, no_such_key c message e)
    after_key-Told (unreachable message) e = (c, message, e)

  with_row-Told :
      is_not_empty (trim credential) ≡ true
      → (row : TrustedIssuer) (algorithm kid : Option Units) → Some (λ r. r ≡ row) issuers
      → library.decode_issuer credential ≡ gives (some row.issuer)
      → library.decode_header credential ≡ gives (algorithm, kid)
      → Told (with_row is_not_empty library issuers credential row.issuer row algorithm kid)
  unfolding with_row
  with_row-Told filled row none kid listed issuer header = (filled, no_algorithm kid header)
  with_row-Told filled row (some algorithm) kid listed issuer header =
      elim (Bool-cases (is_not_empty algorithm && contains (algorithms_for row) algorithm)) [
        | inr other ↦
            rw (other, with_row)
              (filled, other_algorithm row algorithm kid listed issuer header other)
        | inl fits ↦
            rw (fits, with_row)
              (after_key-Told
                (record {
                  filled = filled;
                  row = row;
                  algorithm = algorithm;
                  kid = kid;
                  listed = listed;
                  issuer = issuer;
                  header = header;
                  permitted = ground arith;
                })
                (library.get_key row.issuer kid algorithm) refl)
      ]

  with_issuer-Told :
      is_not_empty (trim credential) ≡ true
      → (issuer : Units) (algorithm kid : Option Units) (row : Option TrustedIssuer)
      → find_issuer issuer issuers ≡ row
      → library.decode_issuer credential ≡ gives (some issuer)
      → library.decode_header credential ≡ gives (algorithm, kid)
      → Told (with_issuer is_not_empty library issuers credential issuer row algorithm kid)
  unfolding with_issuer
  with_issuer-Told filled issuer algorithm kid none none_found claimed header =
      (filled, issuer, claimed, find_issuer-none issuer issuers none_found)
  with_issuer-Told filled issuer algorithm kid (some row) row_found claimed header =
      let (listed, same) = find_issuer-some issuer issuers row row_found in
      subst (λ i. Told (with_row is_not_empty library issuers credential i row algorithm kid)) same
        (with_row-Told filled row algorithm kid listed
          (claimed ∙ ap (λ i. gives (some i)) (sym same)) header)

  after_read-Told :
      is_not_empty (trim credential) ≡ true
      → (issuer : Tried (Option Units)) (header : Tried (Option Units × Option Units))
      → library.decode_issuer credential ≡ issuer
      → library.decode_header credential ≡ header
      → Told (after_read is_not_empty library issuers credential issuer header)
  unfolding after_read
  after_read-Told filled (fails message) header e h = (filled, unreadable_claims message e)
  after_read-Told filled (gives issuer) (fails message) e h = (filled, unreadable_header message h)
  after_read-Told filled (gives none) (gives header) e h = (filled, no_issuer e)
  after_read-Told filled (gives (some issuer)) (gives (algorithm, kid)) e h =
      with_issuer-Told filled issuer algorithm kid (find_issuer issuer issuers) refl e h

  -- A token is verified only if it claims an issuer of the configuration and an algorithm that is allowed for
  -- that, a key that the source of keys has for these verifies it under the issuer, the audience and the
  -- algorithms of the configuration and with its expiry required, no key that comes before that one fits its
  -- signature, and it names a subject; the principal is then made of its claims and of that issuer. It is called
  -- missing only if there is no text, of an unknown issuer only if the one that it claims is not configured, of a
  -- wrong audience only if the first key that fits its signature says so, and its verification indeterminate only
  -- if the source of keys could not be asked for a key of a trusted issuer. It is called invalid only if it does
  -- not parse, claims no issuer, no algorithm or one that its issuer is not allowed, asks for a key that there is
  -- none of, fits none of the keys, is refused by the first key that it fits for something other than its
  -- audience, or names no subject.
  pub verify-Told : Told (verify is_not_empty library issuers credential)
  unfolding verify
  verify-Told = elim (Bool-cases (is_not_empty (trim credential))) [
    | inl filled ↦
        rw (filled, verify)
          (after_read-Told filled (library.decode_issuer credential)
            (library.decode_header credential) refl refl)
    | inr empty ↦ rw (empty, verify) empty
  ]
