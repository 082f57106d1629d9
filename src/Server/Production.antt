-- ===== src/Server/Production.antt =====
-- The verifier of a server that starts in production.
use linea_server.Prelude.{
  ◌≡◌, refl, sym, subst, inl, inr, String, str_eq, true, false, ◌&&◌, Option, some, arith,
  Bool-cases,
}
use linea_server.Result.{Result, ok, err, ok-inj, Result-cases}
use linea_server.Result.Exec.{Exec}
use linea_server.Result.Exec.Triple.{Post, Triple, Triple-bind, Triple-return, Triple-weaken}
use linea_server.Prelude.Float64.{Float64}
use linea_server.Config.{
  Environment, Config, getenv, get_env, default_to, read_env, from_env, check_config, auth_disabled,
  split_csv,
}
use linea_server.Platform.Badger.{Badger}
use linea_server.Tenants.{Stores, new_manager}
use linea_server.Auth.{Verifier}
use linea_server.Auth.Trusted.{Verifies, new_verifier-Verifies}
use linea_server.Server.{
  Calls, World, Server, open_platform, close_both, or_close, verifier_of, make_verifier,
  register_handlers, new_server, start_with, start,
}

get_env_named :
    (env : Environment) (k def : String)
    → str_eq def "" ≡ false
    → str_eq (get_env env k def) "" ≡ false
unfolding get_env default_to
get_env_named env k def named = ground arith

module _ ⦃B : Badger⦄ ⦃S : Stores⦄ where
  abbrev Any : World → Type 0
  Any w = Unit {0}

  or_close_ok :
      {A : Type 0} (r : Result A) (cleanup : Exec World (Unit {0}))
      → Triple Any Any (or_close r cleanup) (λ a _. r ≡ ok a)
  unfolding or_close
  or_close_ok (ok a) cleanup = record { at = λ w p. refl }
  or_close_ok (err e) cleanup = record { at = λ w p. tt }

  or_close_after :
      {A F : Type 0} (r : Result A) (cleanup : Exec World (Unit {0}))
      → Triple Any (λ _. F) (or_close r cleanup) (λ _ _. F)
  unfolding or_close
  or_close_after (ok a) cleanup = record { at = λ w p. p }
  or_close_after (err e) cleanup = record { at = λ w p. tt }

  open_platform-Any :
      (calls : Calls) (path : String) → Triple Any Any (open_platform calls path) (λ _. Any)
  unfolding open_platform
  open_platform-Any calls path = record {
    at = λ w p. elim (Result-cases (calls.open_db (str_eq path "") path)) [
      | inl (db, h) ↦ rw h tt
      | inr (e, h) ↦ rw h tt
    ];
  }

  Post_reply :
      {A : Type 0} (Q : A → Type 0) (r : Result A) (w : World) {a : A}
      → r ≡ ok a
      → Post Any (λ b _. Q b) r w
      → Q a
  Post_reply Q (ok b) w h q = subst Q (ok-inj h) q
  Post_reply Q (err e) w h q = absurd (cc (h))

module _ ⦃B : Badger⦄ ⦃S : Stores⦄ ⦃F : Float64⦄ where
  new_server-verifier :
      (calls : Calls) (env : Environment) (cfg : Config) (version : String)
      → Triple Any Any
          (new_server calls env cfg version)
          (λ srv _. make_verifier calls env cfg ≡ ok srv.verifier)
  unfolding new_server
  new_server-verifier calls env cfg version =
      Triple-bind (open_platform-Any calls (calls.join cfg.data_dir "platform")) (λ db.
        Triple-bind (or_close_ok (new_manager _) _) (λ m.
          Triple-weaken (λ w p. tt)
            (Triple-bind (or_close_ok (make_verifier calls env cfg) _) (λ v.
              Triple-bind {Q = λ _ _. make_verifier calls env cfg ≡ ok v}
                (or_close_after (register_handlers calls cfg.grpc_addr) (close_both calls m db))
                (λ u. Triple-return _ (λ w p. p))))))

  -- A server that does not run with the tokens ignored has a verifier for all configured issuers.
  made_verifier :
      (calls : Calls) (env : Environment) (cfg : Config) (o : Option Verifier)
      → auth_disabled cfg ≡ false
      → str_eq cfg.role_claim "" ≡ false
      → make_verifier calls env cfg ≡ ok o
      → (v : Verifier) × (o ≡ some v)
        × Verifies calls.discover cfg.oidc_issuers cfg.oidc_audiences cfg.role_claim v
  unfolding make_verifier
  made_verifier calls env cfg o enabled named h = elim (Result-cases (verifier_of calls env cfg)) [
    | inr (e, p) ↦ absurd (cc (rw (enabled, p) at h))
    | inl (v, p) ↦ (
      v,
      sym (ok-inj (rw (enabled, p) at h)),
      new_verifier-Verifies calls.discover env.to_lower cfg.oidc_issuers cfg.oidc_audiences
          cfg.role_claim v named p,
    )
  ]

  check_config_lem : (cfg c : Config) → check_config cfg ≡ ok c → cfg ≡ c
  unfolding check_config
  check_config_lem cfg c h = ground arith

  started_verifier :
      (calls : Calls) (env : Environment) (cfg : Config) (version : String) (w : World)
      (srv : Server)
      → auth_disabled cfg ≡ false
      → str_eq cfg.role_claim "" ≡ false
      → (new_server calls env cfg version w).0 ≡ ok srv
      → (v : Verifier) × (srv.verifier ≡ some v)
        × Verifies calls.discover cfg.oidc_issuers cfg.oidc_audiences cfg.role_claim v
  started_verifier calls env cfg version w srv enabled named h =
      made_verifier calls env cfg srv.verifier enabled named (
        Post_reply (λ x. make_verifier calls env cfg ≡ ok x.verifier)
          (new_server calls env cfg version w).0 (new_server calls env cfg version w).1 h
          ((new_server-verifier calls env cfg version).at w tt))

  -- What a successful start has passed.
  started :
      (calls : Calls) (env : Environment) (version : String) (r : Result Config) (w : World)
      (srv : Server)
      → (start_with calls env version r w).0 ≡ ok srv
      → (cfg : Config) × (r ≡ ok cfg)
        × ((auth_disabled cfg && env.equal_fold (getenv env "LINEA_ENV") "production") ≡ false)
        × ((new_server calls env cfg version w).0 ≡ ok srv)
  unfolding start_with
  started calls env version (err e) w srv h = absurd (cc (h))
  started calls env version (ok cfg) w srv h =
      elim (Bool-cases
        (auth_disabled cfg && env.equal_fold (getenv env "LINEA_ENV") "production")) [
          | inl refused ↦ absurd (cc (rw refused at h))
          | inr served ↦ (cfg, refl, served, rw served at h)
        ]

  -- A server that starts while LINEA_ENV names production has a verifier whose issuers are those
  -- that LINEA_OIDC_ISSUER lists, at least one, in that order; each has the verifier that its
  -- discovery gives, for the audience in the same place of LINEA_OIDC_AUDIENCE, of which there are
  -- as many; the roles are read from the claim that LINEA_OIDC_ROLE_CLAIM names, or "groups", by
  -- the default table.
  pub start_in_production :
      (calls : Calls) (env : Environment) (version : String) (w : World) {srv : Server}
      → env.equal_fold (getenv env "LINEA_ENV") "production" ≡ true
      → (start calls env version w).0 ≡ ok srv
      → (v : Verifier) × (srv.verifier ≡ some v)
        × Verifies calls.discover
            (split_csv (getenv env "LINEA_OIDC_ISSUER"))
            (split_csv (getenv env "LINEA_OIDC_AUDIENCE"))
            (get_env env "LINEA_OIDC_ROLE_CLAIM" "groups")
            v
  unfolding start from_env read_env
  start_in_production calls env version w {srv} production h =
      let (cfg, read, served, s) = started calls env version (from_env env) w srv h in
      let same : read_env env ≡ cfg = check_config_lem (read_env env) cfg read in
      let enabled : auth_disabled cfg ≡ false = ground arith in
      started_verifier calls env (read_env env) version w srv
        (subst (λ c. auth_disabled c ≡ false) (sym same) enabled)
        (get_env_named env "LINEA_OIDC_ROLE_CLAIM" "groups" refl)
        (subst (λ c. (new_server calls env c version w).0 ≡ ok srv) (sym same) s)
