-- ===== src/Server.antt =====
-- internal/server/server.go and cmd/lineasrv/main.go: what a start of the process opens, and closes
-- again when it fails. `World` is what stays open: the platform databases that were opened and not
-- closed, and what the stores change on the disk.
pub mod Startup
pub mod Production
use linea_server.Prelude.{
  ℕ, ◌+◌, ◌-◌, ◌*◌, String, str_eq, ◌⧺◌, has_prefix, Bool, true, false, ◌&&◌, Option, none, some,
  List, [], ◌∷◌, ◌++◌, if◌then◌else◌,
}
use linea_server.Result.{Result, ok, err, Error, plain, bind_result}
use linea_server.Result.Exec.{Exec, continue, ◌>>=◌, ◌>>◌, return, raise}
use linea_server.Prelude.Float64.{Float64}
use linea_server.Config.{Environment, Config, getenv, from_env, auth_disabled}
use linea_server.Platform.Badger.{Badger, Db}
use linea_server.Authz.{Cache, new_resolver}
use linea_server.Tenants
use linea_server.Tenants.{Stores, Disk, Manager, new_manager}
use linea_server.Quotas.{Limits, default_limits}
use linea_server.Ratelimit.{Bucket, new_bucket}
use linea_server.Auth.{Verifier}
use linea_server.Auth.Discovery.{Discover, new_verifier}

-- What the start calls: `join` is filepath.Join, `open_db` and `close_db` are Badger's, `discover` is
-- go-oidc's, and `register` the generated registration of one service's gateway at an endpoint.
pub record Calls ⦃B : Badger⦄ : Type 0 where
  pub join : String → String → String
  pub open_db : Bool → String → Result Db
  pub close_db : Db → Result (Unit {0})
  pub discover : Discover
  pub register : String → String → Result (Unit {0})

pub record World ⦃S : Stores⦄ : Type 0 where
  pub open_dbs : ℕ
  pub disk : Disk

pub record Server ⦃B : Badger⦄ ⦃S : Stores⦄ ⦃F : Float64⦄ : Type 0 where
  pub cfg : Config
  pub platform : Db
  pub tenants : Manager
  pub verifier : Option Verifier
  pub authz : Cache
  pub limits : Limits
  pub limiter : Bucket
  pub server_version : String
  pub ready : Bool

pub data LogLevel : Type 0 where
  debug info warn error : LogLevel

-- newLogger
unfoldable pub log_level : Environment → String → LogLevel
log_level env level =
    let l = env.to_lower level in
    if str_eq l "debug"
    then debug
    else if str_eq l "warn"
    then warn
    else if str_eq l "error"
    then error
    else info

-- The endpoint that the gateway dials.
unfoldable pub endpoint : String → String
endpoint grpc_addr = if has_prefix ":" grpc_addr then "127.0.0.1" ⧺ grpc_addr else grpc_addr

abbrev services : List String
services =
    "Server" ∷ "Persons" ∷ "Relationships" ∷ "Sources" ∷ "Proposals" ∷ "Queries" ∷ "Genealogies"
    ∷ []

-- /healthz and /readyz; the gateway has every other path.
pub record Response : Type 0 where
  pub status : ℕ
  pub body : String

unfoldable pub with_health : Bool → String → Option Response
with_health ready path =
    if str_eq path "/healthz"
    then some (record { status = 200; body = "ok" })
    else if str_eq path "/readyz"
    then some (
        if ready
        then record { status = 200; body = "ready" }
        else record { status = 503; body = "" })
    else none

-- `if err := …; err != nil { errs = append(errs, err) }`
add_error : Result (Unit {0}) → List Error → List Error
add_error (ok _) errs = errs
add_error (err e) errs = errs ++ e ∷ []

module _ ⦃B : Badger⦄ ⦃S : Stores⦄ where
  opened : Result Db → Exec World Db
  opened (ok db) w = (ok db, record w { open_dbs = w.open_dbs + 1 })
  opened (err e) w = (err (plain "server: open platform"), w)

  -- platform.Open: an empty path is a database in memory.
  unfoldable pub open_platform : Calls → String → Exec World Db
  unfolding opened
  open_platform calls path = opened (calls.open_db (str_eq path "") path)

  -- `_ = pStore.Close()`
  unfoldable pub close_platform : Calls → Db → Exec World (Unit {0})
  close_platform calls db w = (ok tt, record w { open_dbs = w.open_dbs - 1 })

  -- `_ = tMgr.Close()`, then the same for the platform.
  unfoldable pub close_both : Calls → Manager → Db → Exec World (Unit {0})
  unfolding close_platform
  close_both calls m db w =
      let (r, m', disk) = Tenants.close m w.disk in
      close_platform calls db (record w { disk = disk })

  -- `if err != nil { …; return nil, err }`
  unfoldable pub or_close : {A : Type 0} → Result A → Exec World (Unit {0}) → Exec World A
  or_close (ok a) cleanup w = (ok a, w)
  or_close (err e) cleanup w = (err e, (cleanup w).1)

  -- The loop of registerHandlers.
  unfoldable pub register_each : Calls → String → List String → Result (Unit {0})
  register_each calls addr [] = ok tt
  register_each calls addr (svc ∷ svcs) = elim (calls.register svc addr) [
    | ok _ ↦ register_each calls addr svcs
    | err e ↦ err (plain "gateway: register")
  ]

  unfoldable pub register_handlers : Calls → String → Result (Unit {0})
  unfolding register_each endpoint
  register_handlers calls grpc_addr = register_each calls (endpoint grpc_addr) services

  -- The verifier of the configured issuers.
  abbrev pub verifier_of : Calls → Environment → Config → Result Verifier
  verifier_of calls env cfg = new_verifier calls.discover env.to_lower (record {
    issuer_urls = cfg.oidc_issuers;
    audiences = cfg.oidc_audiences;
    role_claim = cfg.role_claim;
    role_map = none;
    issuer_url = "";
    audience = "";
  })

  unfoldable pub make_verifier : Calls → Environment → Config → Result (Option Verifier)
  make_verifier calls env cfg =
      if auth_disabled cfg
      then ok none
      else bind_result (verifier_of calls env cfg) (λ v. ok (some v))

module _ ⦃B : Badger⦄ ⦃S : Stores⦄ ⦃F : Float64⦄ where
  unfoldable pub new_server : Calls → Environment → Config → String → Exec World Server
  unfolding open_platform close_both or_close make_verifier register_handlers
  new_server calls env cfg server_version = do
    db ← open_platform calls (calls.join cfg.data_dir "platform")
    m ←
        or_close
          (new_manager (record { root = calls.join cfg.data_dir "genealogies"; max_open = 64 }))
          (close_platform calls db)
    v ← or_close (make_verifier calls env cfg) (close_both calls m db)
    or_close (register_handlers calls cfg.grpc_addr) (close_both calls m db)
    return (record {
      cfg = cfg;
      platform = db;
      tenants = m;
      verifier = v;
      authz = new_resolver 5_000_000_000;
      limits = default_limits;
      limiter =
          new_bucket
            (record { capacity = F.of_nat 60; refill_per_second = F.of_nat 60; idle_timeout = 0 });
      server_version = server_version;
      ready = false;
    })

  -- Close: the errors that it joins; `shutdown` is what the HTTP server's Shutdown gives.
  unfoldable pub close_server : Calls → Result (Unit {0}) → Server → World → List Error × World
  unfolding add_error close_platform
  close_server calls shutdown srv w =
      let (r, m, disk) = Tenants.close srv.tenants w.disk in
      let (r', w') = close_platform calls srv.platform (record w { disk = disk }) in
      (add_error (calls.close_db srv.platform) (add_error r (add_error shutdown [])), w')

  -- run of cmd/lineasrv, up to the listeners, on what FromEnv gives.
  unfoldable pub start_with : Calls → Environment → String → Result Config → Exec World Server
  unfolding new_server
  start_with calls env version (err e) w = (err e, w)
  start_with calls env version (ok cfg) w =
      if auth_disabled cfg && env.equal_fold (getenv env "LINEA_ENV") "production"
      then (err (plain "LINEA_AUTH_MODE=disabled is forbidden when LINEA_ENV=production"), w)
      else new_server calls env cfg version w

  unfoldable pub start : Calls → Environment → String → Exec World Server
  unfolding start_with
  start calls env version = start_with calls env version (from_env env)
