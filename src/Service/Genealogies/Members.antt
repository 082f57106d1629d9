-- ===== src/Service/Genealogies/Members.antt =====
-- internal/service/genealogies.go: the handlers of memberships and bans.
use linea_server.Prelude.{
  String, str_eq, not, ◌&&◌, List, [], leb, ltb, ◌==◌, trim_space, if◌then◌else◌,
}
use linea_server.Result.{Result, ok, err, Error, not_found}
use linea_server.Result.Exec.{◌>>=◌, ◌>>◌, Exec, require, return, raise}
use linea_server.Platform.Types.{
  role_viewer, role_curator, role_owner, is_valid_role, Membership, Ban,
}
use linea_server.Platform.Badger.{Badger}
use linea_server.Platform.Store.{
  put_membership, get_membership, delete_membership, iterate_memberships_for_genealogy, put_ban,
  delete_ban,
}
use linea_server.Authz.{Decision}
use linea_server.Tenants.{Stores}
use linea_server.Service.{
  Context, State, invalid, read, write, resolve_mapped, invalidate, require_role,
}
use linea_server.Service.Proto.{PbMembership, PbBan, UpsertMembershipRequest, BanUserRequest}
use linea_server.Service.PlatformMappers.{role_from_proto, membership_to_proto, ban_to_proto}
use linea_server.Service.Genealogies.{collect_member, count_owners}

module _ ⦃B : Badger⦄ ⦃S : Stores⦄ where
  unfoldable pub upsert_membership : Context → UpsertMembershipRequest → Exec State PbMembership
  upsert_membership ctx req = do
    d ← resolve_mapped ctx ctx.subject req.genealogy_id
    require (leb role_curator d.role) (invalid "Curator or Owner role required")
    let target = trim_space req.subject
    let role = role_from_proto req.role
    require (is_valid_role role) (invalid "invalid role")
    require (not (role == role_owner && ltb d.role role_owner))
        (invalid "only an Owner may grant Owner")
    let m : Membership = record {
      subject = target;
      genealogy_id = req.genealogy_id;
      role = role;
      granted_by = ctx.subject;
      granted_at = ctx.now;
    }
    write (put_membership ctx.now m)
    invalidate target req.genealogy_id
    return (membership_to_proto m)

  unfoldable pub require_other_owner : String → Error → Exec State (Unit {0})
  require_other_owner gid e = do owners ← read (count_owners gid); require (not (leb owners 1)) e

  -- The end of RemoveMember and of LeaveGenealogy.
  unfoldable pub remove_member_row : String → String → Exec State (Unit {0})
  remove_member_row gid sub = do write (delete_membership gid sub); invalidate sub gid

  -- RemoveMember once the target's membership is read; somebody who is no member is no error.
  unfoldable pub remove_existing :
      Decision → String → String → Result Membership → Exec State (Unit {0})
  unfolding require_other_owner
  remove_existing d gid target (err not_found) = return tt
  remove_existing d gid target (err e) = raise e
  remove_existing d gid target (ok existing) = do
    if existing.role == role_owner
        then (do
          require (leb role_owner d.role) (invalid "only an Owner may remove an Owner")
          require_other_owner gid
              (invalid "cannot remove the last Owner; transfer ownership or delete the genealogy"))
        else return tt
    remove_member_row gid target

  unfoldable pub remove_member : Context → String → String → Exec State (Unit {0})
  remove_member ctx gid subject = do
    d ← resolve_mapped ctx ctx.subject gid
    require (leb role_curator d.role) (invalid "Curator or Owner role required")
    let target = trim_space subject
    λ s. remove_existing d gid target (get_membership gid target s.platform) s

  unfoldable pub leave_existing : String → String → Result Membership → Exec State (Unit {0})
  unfolding require_other_owner
  leave_existing id sub (err not_found) = return tt
  leave_existing id sub (err e) = raise e
  leave_existing id sub (ok existing) = do
    if existing.role == role_owner
        then require_other_owner id
            (invalid "the last Owner cannot leave; transfer ownership or delete the genealogy")
        else return tt
    remove_member_row id sub

  unfoldable pub leave_genealogy : Context → String → Exec State (Unit {0})
  leave_genealogy ctx id = do
    require (not (str_eq ctx.subject "")) (invalid "authentication required")
    λ s. leave_existing id ctx.subject (get_membership id ctx.subject s.platform) s

  unfoldable pub ban_user : Context → BanUserRequest → Exec State PbBan
  ban_user ctx req = do
    require_role ctx ctx.subject req.genealogy_id role_curator
    let b : Ban = record {
      subject = req.subject;
      genealogy_id = req.genealogy_id;
      reason = req.reason;
      by = ctx.subject;
      at = ctx.now;
    }
    write (put_ban ctx.now b)
    return (ban_to_proto b)

  unfoldable pub unban_user : Context → String → String → Exec State (Unit {0})
  unban_user ctx gid subject = do
    require_role ctx ctx.subject gid role_curator
    write (delete_ban gid subject)

  unfoldable pub list_members : Context → String → Exec State (List PbMembership)
  unfolding collect_member
  list_members ctx gid = do
    require_role ctx ctx.subject gid role_viewer
    read (λ db. iterate_memberships_for_genealogy gid collect_member db [])
