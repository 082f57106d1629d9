-- ===== src/Interceptors.antt =====
-- internal/interceptors/interceptors.go, and from internal/server/server.go how New chains the
-- interceptors and the table of roles. A handler takes the identity of its context. `error_text` is
-- Linea-core's text of a typed error.
pub mod Chain
use linea_server.Prelude.{
  ℕ, String, str_eq, ◌⧺◌, has_prefix, Bool, true, false, Option, none, some, List, [], ◌∷◌, ltb,
  ◌==◌, trim_space, if◌then◌else◌,
}
use linea_server.Result.{
  Code, no_known_connection, person_not_found, relationship_not_found, source_not_found,
  proposal_not_found, version_not_found, forbidden_relationship, invalid_transition,
  immutable_terminal_proposal, cycle_detected, fabrication_attempt, other_code, Result, ok, err,
  Error, linea,
}
use linea_server.Auth.{
  Role, role_none, role_viewer, role_contributor, role_curator, Identity, no_identity, Verifier,
  verify_token, find_role,
}
use linea_server.Prelude.Float64.{Float64}
use linea_server.Ratelimit.{Bucket, allow}

-- The codes of gRPC that the server gives.
pub data GrpcCode : Type 0 where
  not_found invalid_argument failed_precondition unknown : GrpcCode
  unauthenticated permission_denied resource_exhausted : GrpcCode

-- What a call gives: a reply, a gRPC status, or an error that no interceptor translates.
pub data Reply (A : Type 0) : Type 0 where
  reply : A → Reply A
  status : GrpcCode → String → Reply A
  raw : Error → Reply A

module _ ⦃F : Float64⦄ where
  -- The limiter is shared by the calls, beside what the handlers change.
  pub record Shared (S : Type 0) : Type 0 where
    pub limiter : Bucket
    pub app : S

  abbrev pub Handler : Type 0 → Type 0 → Type 0
  Handler S A = Identity → Shared S → Reply A × Shared S

-- A call: its method, the values of its `authorization` header, its peer's address, and the clock as
-- the limiter reads it.
pub record Call : Type 0 where
  pub full_method : String
  pub authorization : List String
  pub peer : Option String
  pub now : ℕ

abbrev pub bearer_prefix : String
bearer_prefix = "Bearer "

-- `v[len(pfx):]`, for a text that begins with the prefix.
skip : String → String → String
skip String.[] t = t
skip (String.◌∷◌ c s) String.[] = ""
skip (String.◌∷◌ c s) (String.◌∷◌ d t) = skip s t

unfoldable pub bearer_token : List String → String
unfolding skip
bearer_token [] = ""
bearer_token (v ∷ vs) =
    let rest = bearer_token vs in
    if has_prefix bearer_prefix v then trim_space (skip bearer_prefix v) else rest

unfoldable pub code_for : Code → GrpcCode
code_for no_known_connection = not_found
code_for person_not_found = not_found
code_for relationship_not_found = not_found
code_for source_not_found = not_found
code_for proposal_not_found = not_found
code_for version_not_found = not_found
code_for Code.invalid_argument = GrpcCode.invalid_argument
code_for forbidden_relationship = GrpcCode.invalid_argument
code_for invalid_transition = failed_precondition
code_for immutable_terminal_proposal = failed_precondition
code_for cycle_detected = failed_precondition
code_for fabrication_attempt = failed_precondition
code_for other_code = unknown

-- SubjectOrPeerKey
unfoldable pub peer_key : Option String → String
peer_key none = ""
peer_key (some addr) = "ip:" ⧺ addr

unfoldable pub subject_or_peer_key : Identity → Option String → String
unfolding peer_key
subject_or_peer_key id peer = if str_eq id.subject "" then peer_key peer else "u:" ⧺ id.subject

-- buildLegacyRoleMap of internal/server/server.go.
unfoldable pub legacy_role_map : List (String × Role)
legacy_role_map =
    ("/linea.v1.Persons/GetPerson", role_viewer)
    ∷ ("/linea.v1.Persons/ListPersons", role_viewer)
    ∷ ("/linea.v1.Relationships/GetRelationship", role_viewer)
    ∷ ("/linea.v1.Relationships/ListRelationships", role_viewer)
    ∷ ("/linea.v1.Sources/GetSource", role_viewer)
    ∷ ("/linea.v1.Sources/ListSources", role_viewer)
    ∷ ("/linea.v1.Queries/FindPaths", role_viewer)
    ∷ ("/linea.v1.Queries/NKCA", role_viewer)
    ∷ ("/linea.v1.Proposals/GetProposal", role_viewer)
    ∷ ("/linea.v1.Proposals/ListProposals", role_viewer)
    ∷ ("/linea.v1.Proposals/CreateProposal", role_contributor)
    ∷ ("/linea.v1.Proposals/Submit", role_contributor)
    ∷ ("/linea.v1.Proposals/Withdraw", role_contributor)
    ∷ ("/linea.v1.Proposals/Claim", role_contributor)
    ∷ ("/linea.v1.Proposals/Accept", role_contributor)
    ∷ ("/linea.v1.Proposals/Reject", role_contributor)
    ∷ ("/linea.v1.Genealogies/ListGenealogies", role_viewer)
    ∷ ("/linea.v1.Genealogies/GetGenealogy", role_viewer)
    ∷ ("/linea.v1.Genealogies/ListMembers", role_viewer)
    ∷ ("/linea.v1.Genealogies/CreateGenealogy", role_viewer)
    ∷ ("/linea.v1.Genealogies/LeaveGenealogy", role_viewer)
    ∷ ("/linea.v1.Genealogies/UpdateVisibility", role_viewer)
    ∷ ("/linea.v1.Genealogies/DeleteGenealogy", role_viewer)
    ∷ ("/linea.v1.Genealogies/UpsertMembership", role_viewer)
    ∷ ("/linea.v1.Genealogies/RemoveMember", role_viewer)
    ∷ ("/linea.v1.Genealogies/BanUser", role_viewer)
    ∷ ("/linea.v1.Genealogies/UnbanUser", role_viewer)
    ∷ []

-- The set `noAuth` of New.
unfoldable pub no_auth : String → Bool
no_auth method = str_eq method "/linea.v1.Server/Version"

-- ErrorInterceptor: only a typed error of Linea-core gets a status.
unfoldable pub translate : {A : Type 0} → (Code → String → String) → Result A → Reply A
unfolding code_for
translate error_text (ok a) = reply a
translate error_text (err (linea c m)) = status (code_for c) (error_text c m)
translate error_text (err e) = raw e

-- Whom a server with authentication disabled takes every caller for.
abbrev pub anonymous : Identity
anonymous = record { subject = "anonymous"; issuer = ""; role = role_curator; raw = [] }

module _ ⦃F : Float64⦄ {S A : Type 0} where
  -- AuthInterceptor, once a token is verified. A refusal quotes the error; its text is left out.
  unfoldable pub with_identity : Result Identity → Handler S A → Handler S A
  with_identity (err e) h ctx s = (status unauthenticated "invalid token", s)
  with_identity (ok id) h ctx s =
      if id.role == role_none then (status permission_denied "no Linea role granted", s) else h id s

  unfoldable pub with_token : Verifier → String → Handler S A → Handler S A
  unfolding with_identity
  with_token v token h ctx s =
      if str_eq token ""
      then (status unauthenticated "missing bearer token", s)
      else with_identity (verify_token v token) h ctx s

  -- With no verifier, authentication is disabled.
  unfoldable pub authenticate : Option Verifier → Call → Handler S A → Handler S A
  unfolding with_token
  authenticate none call h ctx s = h anonymous s
  authenticate (some v) call h ctx s = with_token v (bearer_token call.authorization) h ctx s

  unfoldable pub auth_interceptor : Option Verifier → Call → Handler S A → Handler S A
  unfolding authenticate
  auth_interceptor v call h ctx s =
      if no_auth call.full_method then h ctx s else authenticate v call h ctx s

  -- RateLimitInterceptor, on what the limiter answers.
  unfoldable pub limited : Bucket × Bool → Handler S A → Handler S A
  limited (b, true) h ctx s = h ctx (record s { limiter = b })
  limited (b, false) h ctx s =
      (status resource_exhausted "rate limit exceeded", record s { limiter = b })

  unfoldable pub rate_limit_interceptor : Call → Handler S A → Handler S A
  unfolding limited
  rate_limit_interceptor call h ctx s =
      if str_eq (subject_or_peer_key ctx call.peer) ""
      then h ctx s
      else limited (allow (subject_or_peer_key ctx call.peer) call.now s.limiter) h ctx s

  -- RoleInterceptor, on what the table says of the method.
  unfoldable pub with_role : Option Role → Handler S A → Handler S A
  with_role none h ctx s = h ctx s
  with_role (some min) h ctx s =
      if ltb ctx.role min then (status permission_denied "role required", s) else h ctx s

  unfoldable pub role_interceptor : List (String × Role) → Call → Handler S A → Handler S A
  unfolding with_role
  role_interceptor roles call h = with_role (find_role call.full_method roles) h

  unfoldable pub error_interceptor :
      (Code → String → String) → (Identity → S → Result A × S) → Handler S A
  error_interceptor error_text h ctx s =
      let (r, app) = h ctx s.app in (translate error_text r, record s { app = app })

  -- The chain of New; LoggingInterceptor, which stands in front, gives what it gets.
  unfoldable pub serve :
      (Code → String → String)
      → Option Verifier
      → Call
      → (Identity → S → Result A × S)
      → Shared S
      → Reply A × Shared S
  unfolding auth_interceptor rate_limit_interceptor role_interceptor error_interceptor
  serve error_text v call h =
      auth_interceptor v call
        (rate_limit_interceptor call
          (role_interceptor legacy_role_map call (error_interceptor error_text h)))
        no_identity
