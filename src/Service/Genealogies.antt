-- ===== src/Service/Genealogies.antt =====
-- internal/service/genealogies.go: the lifecycle of genealogies, memberships and bans. A handler
-- takes the request's context, and for a new genealogy the UUID that the server draws.
pub mod Members
pub mod ListGenealogies
pub mod Listed
pub mod Counting
pub mod Owners
pub mod Gates
pub mod Upsert
pub mod Create
use linea_server.Prelude.{
  ℕ, ◌+◌, String, str_eq, Bool, true, not, ◌&&◌, List, [], ◌∷◌, ◌++◌, leb, ltb, ◌==◌, trim_space,
  if◌then◌else◌,
}
use linea_server.Result.{Result, ok, err, Error, not_found, plain, bind_result}
use linea_server.Result.Exec.{continue, ◌>>=◌, ◌>>◌, Exec, require, return, raise}
use linea_server.Platform.Types.{
  Visibility, visibility_private, role_viewer, role_curator, role_owner, is_valid_role, Genealogy,
  Membership, Ban,
}
use linea_server.Platform.Badger.{Badger, Db}
use linea_server.Platform.Store.{
  put_genealogy, get_genealogy, delete_genealogy, put_membership, get_membership, delete_membership,
  iterate_memberships_for_genealogy, put_ban, delete_ban,
}
use linea_server.Authz.{Decision}
use linea_server.Tenants
use linea_server.Tenants.{Stores}
use linea_server.Quotas.{
  check_create_private_genealogy, inc_private_genealogy, dec_private_genealogy,
}
use linea_server.Service.{
  Context, State, invalid, map_error, read, write, try_write, resolve_mapped, invalidate,
  require_role,
}
use linea_server.Service.Proto.{
  PbGenealogy, PbMembership, PbBan, CreateGenealogyRequest, UpdateVisibilityRequest,
  UpsertMembershipRequest, BanUserRequest,
}
use linea_server.Service.PlatformMappers.{
  visibility_from_proto, role_from_proto, genealogy_to_proto, membership_to_proto, ban_to_proto,
}

-- Any error of the check is reported as an exceeded quota.
quota_error : Error → Error
quota_error e = invalid "private-genealogy quota exceeded"

-- `if vis == 0 { vis = platform.VisibilityPrivate }`
unfoldable pub or_private : Visibility → Visibility
or_private v = if v == 0 then visibility_private else v

-- The callback of countOwners.
unfoldable pub count_owner : Membership → ℕ → ℕ × Bool
count_owner m n = (if m.role == role_owner then n + 1 else n, true)

-- The callback of ListMembers.
unfoldable pub collect_member : Membership → List PbMembership → List PbMembership × Bool
collect_member m out = (out ++ membership_to_proto m ∷ [], true)

-- The callback of DeleteGenealogy.
unfoldable pub collect_subject : Membership → List String → List String × Bool
collect_subject m mems = (mems ++ m.subject ∷ [], true)

module _ ⦃B : Badger⦄ where
  unfoldable pub count_owners : String → Db → Result ℕ
  unfolding count_owner
  count_owners gid db = iterate_memberships_for_genealogy gid count_owner db 0

module _ ⦃B : Badger⦄ ⦃S : Stores⦄ where
  unfoldable pub check_private_quota : Visibility → String → Exec State (Unit {0})
  unfolding quota_error
  check_private_quota vis sub s =
      if vis == visibility_private
      then (map_error quota_error (check_create_private_genealogy s.limits sub s.platform), s)
      else (ok tt, s)

  unfoldable pub create_genealogy :
      Context → String → CreateGenealogyRequest → Exec State PbGenealogy
  unfolding check_private_quota or_private
  create_genealogy ctx gid req = do
    require (not (str_eq ctx.subject "")) (invalid "authentication required")
    let name = trim_space req.name
    require (not (str_eq name "")) (invalid "name is required")
    let vis = or_private (visibility_from_proto req.visibility)
    check_private_quota vis ctx.subject
    let g : Genealogy = record {
      id = gid;
      name = name;
      visibility = vis;
      created_by = ctx.subject;
      created_at = ctx.now;
    }
    write (put_genealogy g)
    write (
        put_membership ctx.now_later (record {
          subject = ctx.subject;
          genealogy_id = gid;
          role = role_owner;
          granted_by = ctx.subject;
          granted_at = ctx.now_later;
        }))
    if vis == visibility_private then write (inc_private_genealogy ctx.subject) else return tt
    invalidate ctx.subject gid
    return (genealogy_to_proto g role_owner)

  unfoldable pub get_genealogy_rpc : Context → String → Exec State PbGenealogy
  get_genealogy_rpc ctx id = do
    d ← resolve_mapped ctx ctx.subject id
    g ← read (get_genealogy id)
    return (genealogy_to_proto g d.role)

  -- The quota check of UpdateVisibility: only for what becomes private.
  unfoldable pub check_becomes_private : Visibility → Visibility → String → Exec State (Unit {0})
  unfolding check_private_quota
  check_becomes_private prev vis owner =
      if not (prev == visibility_private) && vis == visibility_private
      then check_private_quota visibility_private owner
      else return tt

  -- The counter's change on the transition; its errors are dropped.
  unfoldable pub adjust_counter : Visibility → Visibility → String → Exec State (Unit {0})
  adjust_counter prev vis owner =
      if prev == visibility_private && not (vis == visibility_private)
      then try_write (dec_private_genealogy owner)
      else if not (prev == visibility_private) && vis == visibility_private
      then try_write (inc_private_genealogy owner)
      else return tt

  unfoldable pub update_visibility : Context → UpdateVisibilityRequest → Exec State PbGenealogy
  unfolding check_becomes_private adjust_counter
  update_visibility ctx req = do
    require_role ctx ctx.subject req.id role_owner
    let vis = visibility_from_proto req.visibility
    require (not (vis == 0)) (invalid "visibility is required")
    g ← read (get_genealogy req.id)
    let g' = record g { visibility = vis }
    check_becomes_private g.visibility vis g.created_by
    write (put_genealogy g')
    adjust_counter g.visibility vis g.created_by
    invalidate "" req.id
    return (genealogy_to_proto g' role_owner)

  -- `_ = s.deps.Tenants.Drop(id)`
  unfoldable pub drop_store : String → Exec State (Unit {0})
  drop_store id s =
      let (r, m, disk) = Tenants.drop id s.tenants s.disk in
      (ok tt, record s { tenants = m; disk = disk })

  on_disk_error : Error → Error
  on_disk_error e = plain "delete on-disk"

  unfoldable pub remove_on_disk : String → Exec State (Unit {0})
  unfolding on_disk_error
  remove_on_disk id s =
      let (r, disk) = Tenants.remove_on_disk id s.tenants s.disk in
      (map_error on_disk_error r, record s { disk = disk })

  -- `for _, sub := range mems { _ = DeleteMembership(id, sub) }`
  unfoldable pub delete_memberships : String → List String → Exec State (Unit {0})
  delete_memberships id [] = return tt
  delete_memberships id (sub ∷ subs) = do
    try_write (delete_membership id sub)
    delete_memberships id subs

  unfoldable pub delete_genealogy_rpc : Context → String → Exec State (Unit {0})
  unfolding drop_store remove_on_disk delete_memberships collect_subject
  delete_genealogy_rpc ctx id = do
    require_role ctx ctx.subject id role_owner
    g ← read (get_genealogy id)
    drop_store id
    remove_on_disk id
    mems ← read (λ db. iterate_memberships_for_genealogy id collect_subject db [])
    delete_memberships id mems
    write (delete_genealogy id)
    if g.visibility == visibility_private
        then try_write (dec_private_genealogy g.created_by)
        else return tt
    invalidate "" id
