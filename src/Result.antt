-- ===== src/Result.antt =====
-- The errors of the program, functions that may fail, and handlers that change a state and may
-- fail: what a handler wrote before an error stays written, so the state comes back beside it.
pub mod Exec
use linea_server.Prelude.{◌≡◌, refl, String, Bool, Option, none, some}

-- The codes of Linea-core's typed errors, by the names that the server uses.
pub data Code : Type 0 where
  no_known_connection person_not_found relationship_not_found source_not_found : Code
  proposal_not_found version_not_found invalid_argument forbidden_relationship : Code
  invalid_transition immutable_terminal_proposal cycle_detected fabrication_attempt : Code
  other_code : Code

-- `not_found` is `platform.ErrNotFound`, `not_allowed` is `authz.ErrNotAllowed`, `quota_exceeded`
-- is `quotas.ErrQuotaExceeded`, `shutdown` is `tenants.ErrShutdown`; `linea` is an error of
-- `lerrors.New`, `plain` one of `errors.New` or `fmt.Errorf`, `external` one of a library, and `panic` a
-- run-time panic.
pub data Error : Type 0 where
  not_found not_allowed quota_exceeded shutdown : Error
  linea : Code → String → Error
  plain : String → Error
  external : String → Error
  panic : String → Error

pub data Result (A : Type 0) : Type 0 where
  ok : A → Result A
  err : Error → Result A

abbrev pub bind_result : {A B : Type 0} → Result A → (A → Result B) → Result B
bind_result (ok a) f = f a
bind_result (err e) f = err e

pub Result-cases :
    {A : Type 0} (r : Result A)
    → linea_server.Prelude.◌⊎◌ ((a : A) × (r ≡ ok a)) ((e : Error) × (r ≡ err e))
Result-cases (ok a) = linea_server.Prelude.inl (a, refl)
Result-cases (err e) = linea_server.Prelude.inr (e, refl)

pub ok-inj : {A : Type 0} {a b : A} → Result.ok a ≡ ok b → a ≡ b
ok-inj h = cc
