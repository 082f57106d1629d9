-- ===== src/Auth/Trusted.antt =====
-- Whom the verifier of NewVerifier trusts.
use linea_server.Prelude.{
  ◌≡◌, ◌≤◌, refl, subst, inl, inr, String, str_eq, false, none, List, [], ◌∷◌, length, ◌==◌, arith,
  Bool-cases,
}
use linea_server.Result.{Result, ok, ok-inj, Result-cases}
use linea_server.Auth.{IssuerVerifier, Verifier, Token, default_role_map}
use linea_server.Auth.Discovery.{
  Discover, discover_all, new_verifier, or_single, default_claim, default_map,
}

-- The verifiers of the issuers, each with the audience in the same place: what the discovery of the
-- issuer gives, for that audience.
pub data Trusts (discover : Discover)
    : List String → List String → List IssuerVerifier → Type 0 where
  nobody : Trusts discover [] [] []
  also :
      (iss aud : String) (isss auds : List String) (verifier : String → String → Result Token)
      (vs : List IssuerVerifier)
      → discover iss ≡ ok verifier
      → Trusts discover isss auds vs
      → Trusts discover
          (iss ∷ isss)
          (aud ∷ auds)
          (record { issuer_url = iss; verify = verifier aud } ∷ vs)

discover_all-Trusts :
    (discover : Discover) (isss auds : List String) {vs : List IssuerVerifier}
    → length auds ≡ length isss
    → discover_all discover isss auds ≡ ok vs
    → Trusts discover isss auds vs
unfolding discover_all
discover_all-Trusts discover [] [] same h = subst (Trusts discover [] []) (ok-inj h) nobody
discover_all-Trusts discover [] (aud ∷ auds) same h = absurd (omega (arith, same))
discover_all-Trusts discover (iss ∷ isss) [] same h = absurd (omega (arith, same))
discover_all-Trusts discover (iss ∷ isss) (aud ∷ auds) same h = elim (Result-cases (discover iss)) [
  | inr (e, p) ↦ absurd (cc (rw (discover_all, p) at h))
  | inl (verifier, p) ↦ elim (Result-cases (discover_all discover isss auds)) [
    | inr (e, q) ↦ absurd (cc (rw (discover_all, p, q) at h))
    | inl (rest, q) ↦
        subst (Trusts discover (iss ∷ isss) (aud ∷ auds)) (ok-inj (rw (discover_all, p, q) at h)) (
          also iss aud isss auds verifier rest p
            (discover_all-Trusts discover isss auds (omega (arith, same)) q))
  ]
]

-- The verifier trusts the issuers, one at least, and reads the roles of the claim by the table of
-- the defaults.
pub record Verifies (discover : Discover) (isss auds : List String) (claim : String) (v : Verifier)
    : Type 0 where
  pub trusted : Trusts discover isss auds v.verifiers
  pub some_issuer : 1 ≤ length isss
  pub role_claim : v.role_claim ≡ claim
  pub role_map : v.role_map ≡ default_role_map

pub new_verifier-Verifies :
    (discover : Discover) (to_lower : String → String) (isss auds : List String) (claim : String)
    (v : Verifier)
    → str_eq claim "" ≡ false
    → new_verifier discover to_lower (record {
      issuer_urls = isss;
      audiences = auds;
      role_claim = claim;
      role_map = none;
      issuer_url = "";
      audience = "";
    })
      ≡ ok v
    → Verifies discover isss auds claim v
unfolding new_verifier or_single default_claim default_map
new_verifier-Verifies discover to_lower [] auds claim v named h = absurd (cc (h))
new_verifier-Verifies discover to_lower (iss ∷ isss) [] claim v named h =
    let apart : (length {A = String} [] == length (iss ∷ isss)) ≡ false = ground arith in
    let some_issuer : (length (iss ∷ isss) == 0) ≡ false = ground arith in
    absurd (cc (rw (some_issuer, apart) at h))
new_verifier-Verifies discover to_lower (iss ∷ isss) (aud ∷ auds) claim v named h =
    let some_issuer : (length (iss ∷ isss) == 0) ≡ false = ground arith in
    elim (Bool-cases (length (aud ∷ auds) == length (iss ∷ isss))) [
      | inr apart ↦ absurd (cc (rw (some_issuer, apart) at h))
      | inl paired ↦ elim (Result-cases (discover_all discover (iss ∷ isss) (aud ∷ auds))) [
        | inr (e, p) ↦ absurd (cc (rw (some_issuer, paired, p) at h))
        | inl (vs, p) ↦
            let same = ok-inj (rw (some_issuer, paired, p, named) at h) in
            subst (Verifies discover (iss ∷ isss) (aud ∷ auds) claim) same (record {
              trusted = discover_all-Trusts discover (iss ∷ isss) (aud ∷ auds) (ground arith) p;
              some_issuer = omega arith;
              role_claim = refl;
              role_map = refl;
            })
      ]
    ]
