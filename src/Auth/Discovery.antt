-- ===== src/Auth/Discovery.antt =====
-- NewVerifier of internal/auth/auth.go. The discovery of an issuer, and its verifier for an
-- audience, are go-oidc's: `discover` is an argument.
use linea_server.Prelude.{
  String, str_eq, ◌⧺◌, not, Option, none, some, List, [], ◌∷◌, length, ◌==◌, if◌then◌else◌,
}
use linea_server.Result.{Result, ok, err, plain, panic, bind_result}
use linea_server.Auth.{Role, IssuerVerifier, Verifier, Token, default_role_map}

pub record Config : Type 0 where
  pub issuer_urls : List String
  pub audiences : List String
  pub role_claim : String
  pub role_map : Option (List (String × Role))
  pub issuer_url : String
  pub audience : String

-- oidc.NewProvider, and the Verify of the provider's verifier for an audience.
abbrev pub Discover : Type 0
Discover = String → Result (String → String → Result Token)

-- A single value stands in for an empty list.
unfoldable pub or_single : String → List String → List String
or_single single [] = if str_eq single "" then [] else single ∷ []
or_single single (x ∷ xs) = x ∷ xs

unfoldable pub default_claim : String → String
default_claim claim = if str_eq claim "" then "groups" else claim

unfoldable pub default_map : Option (List (String × Role)) → List (String × Role)
default_map none = default_role_map
default_map (some m) = m

-- The loop over the issuers; `auds[i]` panics out of range.
unfoldable pub discover_all : Discover → List String → List String → Result (List IssuerVerifier)
discover_all discover [] auds = ok []
discover_all discover (iss ∷ issuers) auds = elim (discover iss) [
  | err e ↦ err (plain ("auth: discover issuer " ⧺ iss))
  | ok verifier ↦ elim auds [
    | [] ↦ err (panic "index out of range")
    | aud ∷ rest ↦
        bind_result (discover_all discover issuers rest)
          (λ vs. ok (record { issuer_url = iss; verify = verifier aud } ∷ vs))
  ]
]

unfoldable pub new_verifier : Discover → (String → String) → Config → Result Verifier
unfolding or_single discover_all default_claim default_map
new_verifier discover to_lower cfg =
    let issuers = or_single cfg.issuer_url cfg.issuer_urls in
    let auds = or_single cfg.audience cfg.audiences in
    if length issuers == 0
    then err (plain "auth: at least one issuer is required")
    else if not (length auds == length issuers)
    then err (plain "auth: issuers and audiences must be paired")
    else bind_result (discover_all discover issuers auds) (λ vs. ok (record {
      verifiers = vs;
      role_claim = default_claim cfg.role_claim;
      role_map = default_map cfg.role_map;
      to_lower = to_lower;
    }))
