-- ===== src/Service.antt =====
-- internal/service: the handlers behind the gRPC services. `State` is what `platformDeps` shares
-- between them (internal/service/deps.go); `Context` is what a request brings: the identity's
-- subject, and the readings of the clock that its handler makes.
pub mod Proto
pub mod PlatformMappers
pub mod Model
pub mod Core
pub mod EntityMessages
pub mod EntityMappers
pub mod Mappers
pub mod StoreAccess
pub mod Proposals
pub mod Entities
pub mod Queries
pub mod Version
pub mod Genealogies
pub mod Consistent
pub mod Hidden
use linea_server.Prelude.{
  ℕ, ◌≡◌, refl, String, str_eq, Bool, true, false, not, leb, if◌then◌else◌, ◌⧺◌,
}
use linea_server.Result.{
  Result, ok, err, Error, linea, not_allowed, invalid_argument, person_not_found,
}
use linea_server.Result.Exec.{Exec, continue, ◌>>=◌, ◌>>◌, require, return}
use linea_server.Platform.Types.{ℤ, Role, role_name}
use linea_server.Platform.Badger.{Badger, Db}
use linea_server.Platform.Store.{is_banned}
use linea_server.Authz
use linea_server.Authz.{Decision, Cache}
use linea_server.Tenants
use linea_server.Tenants.{Stores, Manager, Disk, Handle}
use linea_server.Quotas.{Limits}

pub record Context : Type 0 where
  pub subject : String
  -- `time.Now()` as the decision cache is read, and as it is written, in nanoseconds.
  pub cache_read : ℕ
  pub cache_write : ℕ
  -- The first and the second `platform.Now()` of the handler, in seconds.
  pub now : ℤ
  pub now_later : ℤ

pub record State ⦃B : Badger⦄ ⦃S : Stores⦄ : Type 0 where
  pub platform : Db
  pub authz : Cache
  pub tenants : Manager
  pub disk : Disk
  pub limits : Limits

-- mapAuthzError
unfoldable pub map_authz_error : Error → Error
map_authz_error not_allowed = linea person_not_found "genealogy not found or access denied"
map_authz_error e = e

abbrev pub map_error : {A : Type 0} → (Error → Error) → Result A → Result A
map_error f (ok a) = ok a
map_error f (err e) = err (f e)

abbrev pub invalid : String → Error
invalid s = linea invalid_argument s

pub insufficient_role : Role → Role → Error
insufficient_role have need =
    invalid ("insufficient role: have " ⧺ role_name have ⧺ ", need " ⧺ role_name need)

module _ ⦃B : Badger⦄ ⦃S : Stores⦄ where
  -- A read of the platform database.
  abbrev pub read : {A : Type 0} → (Db → Result A) → Exec State A
  read f s = (f s.platform, s)

  abbrev commit_to : State → Result Db → Result (Unit {0}) × State
  commit_to s (ok db) = (ok tt, record s { platform = db })
  commit_to s (err e) = (err e, s)

  -- A write of the platform database.
  abbrev pub write : (Db → Result Db) → Exec State (Unit {0})
  write f s = commit_to s (f s.platform)

  -- `_ = …`: a write whose error is dropped.
  abbrev pub try_write : (Db → Result Db) → Exec State (Unit {0})
  try_write f s = (ok tt, (write f s).1)

  -- Authz.Resolve
  unfoldable pub resolve : Context → String → String → Exec State Decision
  resolve ctx subject gid s =
      let (r, c) = Authz.resolve ctx.cache_read ctx.cache_write subject gid s.platform s.authz in
      (r, record s { authz = c })

  unfoldable pub resolve_mapped : Context → String → String → Exec State Decision
  unfolding resolve map_authz_error
  resolve_mapped ctx subject gid s =
      let (r, s') = resolve ctx subject gid s in (map_error map_authz_error r, s')

  -- Authz.Invalidate
  unfoldable pub invalidate : String → String → Exec State (Unit {0})
  invalidate sub gid s = (ok tt, record s { authz = Authz.invalidate sub gid s.authz })

  -- requireRole of internal/service/genealogies.go.
  unfoldable pub require_role : Context → String → String → Role → Exec State (Unit {0})
  unfolding resolve_mapped
  require_role ctx sub gid min = do
    d ← resolve_mapped ctx sub gid
    require (leb min d.role) (insufficient_role d.role min)

  pub tenants_get : String → Exec State Handle
  tenants_get gid s =
      let (r, m, disk) = Tenants.get gid s.tenants s.disk in
      (r, record s { tenants = m; disk = disk })

  unfoldable pub check_ban : String → String → Exec State (Unit {0})
  check_ban subject gid = do
    banned ← read (is_banned gid subject)
    require (not banned) (invalid "banned from this genealogy")

  -- resolveStore of internal/service/resolver.go: a proposal needs that its author is not banned.
  unfoldable pub resolve_store :
      Context → String → String → Role → Bool → Exec State (Handle × Decision)
  unfolding resolve_mapped tenants_get check_ban
  resolve_store ctx subject gid min_role requires_proposal_submission = do
    require (not (str_eq gid "")) (invalid "genealogy_id is required")
    d ← resolve_mapped ctx subject gid
    require (leb min_role d.role) (insufficient_role d.role min_role)
    if requires_proposal_submission
        then (if str_eq subject "" then return tt else check_ban subject gid)
        else return tt
    st ← tenants_get gid
    return (st, d)
