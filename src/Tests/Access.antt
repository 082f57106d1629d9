-- ===== src/Tests/Access.antt =====
-- Tokens and the chain of interceptors: one issuer, which knows a curator and a viewer.
use linea_server.Prelude.{
  ℕ, ◌≤◌, ◌≡◌, ◌≢◌, refl, ap, ◌⊎◌, inl, inr, String, str_eq, false, true, none, some, List, [], ◌∷◌,
  Elem, ◌+◌, ◌⧺◌, has_prefix, trim_space, first_code, ◌∙◌, if◌then◌else◌, arith,
}
use linea_server.Result.{Code, Result, ok, err, external}
use linea_server.Auth.{
  role_viewer, role_contributor, role_curator, Claim, Claims, Token, Identity, Verifier,
  default_role_map, role_values, resolve_role, verify_token, find_role, accepted, claimed_subject,
  flatten_role_values, fields,
}
use linea_server.Auth.Identities.{mapped, resolve_role_lem, Verified, verify_token-Verified}
use linea_server.Ratelimit.{Bucket, new_bucket, allow}
use linea_server.Interceptors.{
  Call, Shared, status, unauthenticated, translate, serve, bearer_token, no_auth, legacy_role_map,
}
use linea_server.Interceptors.Chain.{
  TurnedAway, unauthenticated_call, underprivileged_call, bulk_reject_call,
}
use linea_server.Tests.Floats.{integers}

abbrev curator_claims : Claims
curator_claims = ("sub", Claim.text "ann") ∷ ("groups", Claim.text "staff,linea-curator") ∷ []

abbrev viewer_claims : Claims
viewer_claims = ("sub", Claim.text "vic") ∷ []

abbrev known : String → Result Token
known raw =
    if str_eq raw "ann-token"
    then ok (record { issuer = "https://id"; claims = ok curator_claims })
    else if str_eq raw "vic-token"
    then ok (record { issuer = "https://id"; claims = ok viewer_claims })
    else err (external "oidc")

abbrev verifier : Verifier
verifier = record {
  verifiers = record { issuer_url = "https://id"; verify = known } ∷ [];
  role_claim = "groups";
  role_map = default_role_map;
  to_lower = λ s. s;
}

abbrev ann : Identity
ann = record {
  subject = "https://id|ann";
  issuer = "https://id";
  role = role_curator;
  raw = curator_claims;
}

abbrev vic : Identity
vic = record {
  subject = "https://id|vic";
  issuer = "https://id";
  role = role_viewer;
  raw = viewer_claims;
}

ann_verified : verify_token verifier "ann-token" ≡ ok ann
unfolding verify_token accepted claimed_subject role_values flatten_role_values fields find_role
    default_role_map trim_space
ann_verified = refl

vic_verified : verify_token verifier "vic-token" ≡ ok vic
unfolding verify_token accepted claimed_subject role_values flatten_role_values fields find_role
    default_role_map trim_space
vic_verified = refl

resolve_role_lem_example :
    (role_curator ≤ resolve_role verifier curator_claims)
    × (role_viewer ≤ resolve_role verifier curator_claims)
    × ((resolve_role verifier curator_claims ≡ role_viewer)
        ⊎ ((best : String) × Elem best (role_values verifier curator_claims)
            × (mapped verifier best ≡ some (resolve_role verifier curator_claims))))
unfolding role_values flatten_role_values fields find_role default_role_map trim_space
resolve_role_lem_example =
    resolve_role_lem verifier curator_claims "linea-curator" role_curator (inr (inl refl)) refl

verify_token-Verified_example : Verified verifier verifier.verifiers "ann-token" ann
verify_token-Verified_example = verify_token-Verified verifier "ann-token" ann ann_verified

-- A handler that counts its calls.
abbrev handler : Identity → ℕ → Result String × ℕ
handler id n = (ok id.subject, n + 1)

abbrev error_text : Code → String → String
error_text c m = m

abbrev shared : Shared ℕ
shared = record {
  limiter = new_bucket (record {
    capacity = integers.of_nat 60;
    refill_per_second = integers.of_nat 60;
    idle_timeout = 0;
  });
  app = 7;
}

abbrev call : String → List String → Call
call method headers = record { full_method = method; authorization = headers; peer = none; now = 5 }

abbrev accept : String
accept = "/linea.v1.Proposals/Accept"

abbrev bulk_reject : String
bulk_reject = "/linea.v1.Proposals/BulkReject"

accept_closed : no_auth accept ≡ false
unfolding no_auth
accept_closed = refl

vic_token : bearer_token ("Bearer vic-token" ∷ []) ≡ "vic-token"
unfolding bearer_token has_prefix trim_space
vic_token = refl

no_token : bearer_token [] ≡ ""
unfolding bearer_token has_prefix trim_space
no_token = refl

unauthenticated_call_example :
    ((why : String) × ((serve error_text (some verifier) (call accept []) handler shared).0
        ≡ status unauthenticated why))
    × ((serve error_text (some verifier) (call accept []) handler shared).1 ≡ shared)
unauthenticated_call_example =
    unauthenticated_call error_text handler verifier (call accept []) shared accept_closed
      (inl no_token)

abbrev ann_call : String → Call
ann_call method = call method ("Bearer ann-token" ∷ [])

abbrev vic_call : String → Call
vic_call method = call method ("Bearer vic-token" ∷ [])

vic_presents : bearer_token (vic_call accept).authorization ≢ ""
unfolding first_code
vic_presents e = absurd (omega (arith, ap first_code vic_token, ap first_code e))

accept_role : find_role accept legacy_role_map ≡ some role_contributor
unfolding legacy_role_map find_role
accept_role = refl

underprivileged_call_example :
    TurnedAway error_text handler shared
      (serve error_text (some verifier) (vic_call accept) handler shared)
underprivileged_call_example =
    underprivileged_call error_text handler verifier (vic_call accept) shared vic role_contributor
      accept_closed vic_presents (ap (verify_token verifier) vic_token ∙ vic_verified) accept_role
      (omega arith)

vic_named : vic.subject ≢ ""
unfolding first_code
vic_named e = absurd (omega (arith, ap first_code e))

abbrev limiter_after : Bucket
limiter_after = (allow ("u:" ⧺ vic.subject) 5 shared.limiter).0

vic_granted : allow ("u:" ⧺ vic.subject) 5 shared.limiter ≡ (limiter_after, true)
unfolding allow new_bucket
vic_granted = refl

bulk_reject_call_example :
    serve error_text (some verifier) (vic_call bulk_reject) handler shared ≡ (
      translate error_text (handler vic 7).0,
      record { limiter = limiter_after; app = (handler vic 7).1 },
    )
bulk_reject_call_example =
    bulk_reject_call error_text handler verifier (vic_call bulk_reject) shared vic limiter_after
      refl vic_presents (ap (verify_token verifier) vic_token ∙ vic_verified) vic_named
      (omega arith) vic_granted
