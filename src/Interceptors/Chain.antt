-- ===== src/Interceptors/Chain.antt =====
-- Which calls reach their handler.
use linea_server.Prelude.{
  ◌<◌, ◌≡◌, ◌≢◌, refl, ap, ◌⊎◌, inl, inr, String, str_eq, false, true, Bool, Option, none, some,
  ltb, ◌==◌, ◌⧺◌, str_eq_of_ne, first_code, arith, Bool-cases,
}
use linea_server.Result.{Code, Result, ok, err, Error}
use linea_server.Auth.{Role, role_none, Identity, Verifier, verify_token, find_role}
use linea_server.Prelude.Float64.{Float64}
use linea_server.Ratelimit.{Bucket, allow}
use linea_server.Interceptors.{
  GrpcCode, unauthenticated, permission_denied, resource_exhausted, Reply, status, Shared, Call,
  bearer_token, subject_or_peer_key, legacy_role_map, no_auth, translate, serve, with_token,
  with_identity, rate_limit_interceptor, role_interceptor, error_interceptor, limited, with_role,
  Handler, authenticate, auth_interceptor,
}

key_of_subject :
    (id : Identity) (peer : Option String)
    → id.subject ≢ ""
    → subject_or_peer_key id peer ≡ "u:" ⧺ id.subject
unfolding subject_or_peer_key
key_of_subject id peer named = rw (str_eq_of_ne _ _ named) refl

key_there : (s : String) → str_eq ("u:" ⧺ s) "" ≡ false
unfolding first_code
key_there s = str_eq_of_ne _ _ (λ e. ground (arith, ap first_code e))

closed_method :
    (call : Call)
    → call.full_method ≡ "/linea.v1.Proposals/BulkReject"
    → no_auth call.full_method ≡ false
unfolding no_auth
closed_method call bulk = rw bulk refl

unlisted :
    (call : Call)
    → call.full_method ≡ "/linea.v1.Proposals/BulkReject"
    → find_role call.full_method legacy_role_map ≡ none
unfolding find_role legacy_role_map
unlisted call bulk = rw bulk refl

module _ ⦃F : Float64⦄ {S A : Type 0} (error_text : Code → String → String)
    (h : Identity → S → Result A × S) where
  -- The chain behind the interceptor of authentication.
  abbrev inner : Call → Handler S A
  inner call =
      rate_limit_interceptor call
        (role_interceptor legacy_role_map call (error_interceptor error_text h))

  serve_verified :
      (v : Verifier) (call : Call) (s : Shared S) (id : Identity)
      → no_auth call.full_method ≡ false
      → bearer_token call.authorization ≢ ""
      → verify_token v (bearer_token call.authorization) ≡ ok id
      → (id.role == role_none) ≡ false
      → serve error_text (some v) call h s ≡ inner call id s
  unfolding serve auth_interceptor authenticate with_token with_identity
  serve_verified v call s id closed there p some_role =
      rw (closed, str_eq_of_ne _ _ there, p, some_role) refl

  serve_no_role :
      (v : Verifier) (call : Call) (s : Shared S) (id : Identity)
      → no_auth call.full_method ≡ false
      → bearer_token call.authorization ≢ ""
      → verify_token v (bearer_token call.authorization) ≡ ok id
      → (id.role == role_none) ≡ true
      → serve error_text (some v) call h s ≡ (status permission_denied "no Linea role granted", s)
  unfolding serve auth_interceptor authenticate with_token with_identity
  serve_no_role v call s id closed there p no_role =
      rw (closed, str_eq_of_ne _ _ there, p, no_role) refl

  -- A refusal, for the role or for the rate, that leaves the handlers' state alone.
  abbrev pub TurnedAway : Shared S → Reply A × Shared S → Type 0
  TurnedAway s r =
      ((code : GrpcCode) × (why : String) × (r.0 ≡ status code why)
        × ((code ≡ permission_denied) ⊎ (code ≡ resource_exhausted)))
      × (r.1.app ≡ s.app)

  limited-TurnedAway :
      (call : Call) (answer : Bucket × Bool) (s : Shared S) (id : Identity) (min : Role)
      → find_role call.full_method legacy_role_map ≡ some min
      → ltb id.role min ≡ true
      → TurnedAway s (
          limited answer
            (role_interceptor legacy_role_map call (error_interceptor error_text h))
            id
            s)
  unfolding limited role_interceptor with_role
  limited-TurnedAway call (b, true) s id min asks less =
      rw (asks, less) ((permission_denied, _, refl, inl refl), refl)
  limited-TurnedAway call (b, false) s id min asks less =
      ((resource_exhausted, _, refl, inr refl), refl)

  inner-TurnedAway :
      (call : Call) (s : Shared S) (id : Identity) (min : Role)
      → find_role call.full_method legacy_role_map ≡ some min
      → ltb id.role min ≡ true
      → TurnedAway s (inner call id s)
  unfolding rate_limit_interceptor role_interceptor with_role
  inner-TurnedAway call s id min asks less =
      elim (Bool-cases (str_eq (subject_or_peer_key id call.peer) "")) [
        | inl keyless ↦ rw (keyless, asks, less) ((permission_denied, _, refl, inl refl), refl)
        | inr keyed ↦ rw keyed (
            limited-TurnedAway call (allow (subject_or_peer_key id call.peer) call.now s.limiter) s
              id min asks less)
      ]

  -- While tokens are verified, a call of a method that needs authentication, whose token is
  -- missing or refused, is unauthenticated, and changes neither the handlers' state nor the
  -- limiter's.
  pub unauthenticated_call :
      (v : Verifier) (call : Call) (s : Shared S)
      → no_auth call.full_method ≡ false
      → (bearer_token call.authorization ≡ "")
        ⊎ ((e : Error) × (verify_token v (bearer_token call.authorization) ≡ err e))
      → ((why : String) × ((serve error_text (some v) call h s).0 ≡ status unauthenticated why))
        × ((serve error_text (some v) call h s).1 ≡ s)
  unfolding serve auth_interceptor authenticate with_token with_identity
  unauthenticated_call v call s closed (inl missing) = rw (closed, missing) ((_, refl), refl)
  unauthenticated_call v call s closed (inr (e, p)) =
      elim (Bool-cases (str_eq (bearer_token call.authorization) "")) [
        | inl missing ↦ rw (closed, missing) ((_, refl), refl)
        | inr there ↦ rw (closed, there, p) ((_, refl), refl)
      ]

  -- While tokens are verified, a caller of a method that needs authentication, with a verified
  -- token but a role below the one that the table asks of the method, is refused, for the role or
  -- for the rate, and the handlers' state is unchanged.
  pub underprivileged_call :
      (v : Verifier) (call : Call) (s : Shared S) (id : Identity) (min : Role)
      → no_auth call.full_method ≡ false
      → bearer_token call.authorization ≢ ""
      → verify_token v (bearer_token call.authorization) ≡ ok id
      → find_role call.full_method legacy_role_map ≡ some min
      → id.role < min
      → TurnedAway s (serve error_text (some v) call h s)
  underprivileged_call v call s id min closed there p asks less =
      elim (Bool-cases (id.role == role_none)) [
        | inl no_role ↦
            rw (serve_no_role v call s id closed there p no_role)
              ((permission_denied, _, refl, inl refl), refl)
        | inr some_role ↦
            rw (serve_verified v call s id closed there p some_role)
              (inner-TurnedAway call s id min asks (ground arith))
      ]

  -- BulkReject stands in no row of the table of roles: a verified token of a named subject with
  -- any role, a viewer's too, is served by its handler while the limiter lets the call through.
  pub bulk_reject_call :
      (v : Verifier) (call : Call) (s : Shared S) (id : Identity) (b : Bucket)
      → call.full_method ≡ "/linea.v1.Proposals/BulkReject"
      → bearer_token call.authorization ≢ ""
      → verify_token v (bearer_token call.authorization) ≡ ok id
      → id.subject ≢ ""
      → role_none < id.role
      → allow ("u:" ⧺ id.subject) call.now s.limiter ≡ (b, true)
      → serve error_text (some v) call h s
        ≡ (translate error_text (h id s.app).0, record { limiter = b; app = (h id s.app).1 })
  unfolding rate_limit_interceptor limited role_interceptor with_role error_interceptor
  bulk_reject_call v call s id b bulk there p named some_role let_through =
      rw
        (
          serve_verified v call s id (closed_method call bulk) there p (ground arith),
          key_of_subject id call.peer named,
          key_there id.subject,
          let_through,
          unlisted call bulk,
        )
        refl
