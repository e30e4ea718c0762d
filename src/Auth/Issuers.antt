-- ===== src/Auth/Issuers.antt =====
-- The lookup of the issuer of a token (packages/auth/src/verifiers/JwtVerifier.ts), and lists of candidates.
use homelab_apps.Prelude.{
  ◌≡◌, refl, sym, ap, ◌∙◌, inl, inr, false, none, some, List, [], ◌∷◌, arith, Bool-cases,
  Option-cases, All, Some, here, there,
}
use homelab_apps.Auth.Jwt.{TrustedIssuer, find_issuer}
use homelab_apps.Prelude.Text.{Units, units_eq, eq_of_units_eq}

pub find_issuer-some :
    (issuer : Units) (issuers : List TrustedIssuer) (row : TrustedIssuer)
    → find_issuer issuer issuers ≡ some row
    → Some (λ r. r ≡ row) issuers × (row.issuer ≡ issuer)
unfolding find_issuer
find_issuer-some issuer [] row e = absurd (cc)
find_issuer-some issuer (r ∷ issuers) row e = elim (Option-cases (find_issuer issuer issuers)) [
  | inr (later, h) ↦
      let (listed, same) = find_issuer-some issuer issuers row (ground arith) in
      (there listed, same)
  | inl none_later ↦ elim (Bool-cases (units_eq r.issuer issuer)) [
    | inl same ↦
        let this : r ≡ row = ground arith in
        (
          here this,
          ap (λ (x : TrustedIssuer). x.issuer) (sym this) ∙ eq_of_units_eq r.issuer issuer same,
        )
    | inr other ↦ absurd (ground arith)
  ]
]

pub find_issuer-none :
    (issuer : Units) (issuers : List TrustedIssuer)
    → find_issuer issuer issuers ≡ none
    → All (λ (r : TrustedIssuer). units_eq r.issuer issuer ≡ false) issuers
unfolding find_issuer
find_issuer-none issuer [] e = tt
find_issuer-none issuer (r ∷ issuers) e = elim (Option-cases (find_issuer issuer issuers)) [
  | inr (later, h) ↦ absurd (ground arith)
  | inl none_later ↦ (ground arith, find_issuer-none issuer issuers none_later)
]

All-weaken :
    {A : Type 0} (x : A) (xs ys : List A)
    → All (λ y. Some (λ z. z ≡ y) xs) ys
    → All (λ y. Some (λ z. z ≡ y) (x ∷ xs)) ys
All-weaken x xs [] h = tt
All-weaken x xs (y ∷ ys) (h, hs) = (there h, All-weaken x xs ys hs)

pub All-listed : {A : Type 0} (xs : List A) → All (λ y. Some (λ z. z ≡ y) xs) xs
All-listed [] = tt
All-listed (x ∷ xs) = (here refl, All-weaken x xs xs (All-listed xs))
