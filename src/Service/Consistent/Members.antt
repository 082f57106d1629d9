-- ===== src/Service/Consistent/Members.antt =====
-- The handlers of memberships and bans of internal/service/genealogies.go keep the invariant.
use linea_server.Prelude.{String, str_eq, not, ◌&&◌, leb, ltb, ◌==◌, [], trim_space}
use linea_server.Result.{Result, ok, err, Error, not_found}
use linea_server.Result.Exec.Triple.{
  Triple, Triple-bind, Triple-then, Triple-require, Triple-if, Triple-return, Triple-raise,
  Triple-weaken, Triple-forget,
}
use linea_server.Platform.Types.{
  role_viewer, role_curator, role_owner, is_valid_role, Membership, Ban,
}
use linea_server.Platform.Badger.{Badger}
use linea_server.Platform.Keys.{IsId}
use linea_server.Platform.Store.{
  put_membership, get_membership, delete_membership, iterate_memberships_for_genealogy, put_ban,
  delete_ban,
}
use linea_server.Platform.Untouched.{put_ban-Untouched, delete_ban-Untouched}
use linea_server.Authz.{Decision}
use linea_server.Authz.Consistent.{
  Untouched-IsConsistent, put_membership-IsConsistent, delete_membership-IsConsistent,
}
use linea_server.Tenants.{Stores}
use linea_server.Service.{Context, invalid}
use linea_server.Service.Proto.{UpsertMembershipRequest, BanUserRequest}
use linea_server.Service.PlatformMappers.{role_from_proto, membership_to_proto, ban_to_proto}
use linea_server.Service.Consistent.{
  Sound, Stale, Known, Keeps, resolve_mapped-Triple, require_role-Triple, read-Triple, write-Triple,
  invalidate-Triple,
}
use linea_server.Service.Genealogies.{count_owners, collect_member}
use linea_server.Service.Genealogies.Members.{
  upsert_membership, require_other_owner, remove_member_row, remove_existing, remove_member,
  leave_existing, leave_genealogy, ban_user, unban_user, list_members,
}

module _ ⦃B : Badger⦄ ⦃S : Stores⦄ where
  pub upsert_membership-Keeps :
      (ctx : Context) (req : UpsertMembershipRequest) → Keeps (upsert_membership ctx req)
  unfolding upsert_membership
  upsert_membership-Keeps ctx req =
      let target = trim_space req.subject in
      let role = role_from_proto req.role in
      let m : Membership = record {
        subject = target;
        genealogy_id = req.genealogy_id;
        role = role;
        granted_by = ctx.subject;
        granted_at = ctx.now;
      } in
      Triple-bind (resolve_mapped-Triple ctx ctx.subject req.genealogy_id) (λ d.
        Triple-then
          (Triple-require (leb role_curator d.role) (invalid "Curator or Owner role required")
            (λ s k. k.0))
          (Triple-then (Triple-require (is_valid_role role) (invalid "invalid role") (λ s k. k.0)) (
            Triple-then
              (Triple-require (not (role == role_owner && ltb d.role role_owner))
                (invalid "only an Owner may grant Owner") (λ s k. k.0))
              (Triple-then
                (write-Triple {Q = Stale target req.genealogy_id} (put_membership ctx.now m)
                  (λ s k. k.0)
                  (λ s db k h. put_membership-IsConsistent ctx.now m s.platform s.authz k.1 k.0 h))
                (Triple-then (invalidate-Triple target req.genealogy_id)
                  (Triple-return (membership_to_proto m) (λ s v. v)))))))

  remove_member_row-Triple :
      (gid sub : String)
      → Triple Sound (λ s. Sound s × IsId gid) (remove_member_row gid sub) (λ _. Sound)
  unfolding remove_member_row
  remove_member_row-Triple gid sub =
      Triple-then
        (write-Triple {Q = Stale sub gid} (delete_membership gid sub) (λ s k. k.0)
          (λ s db k h. delete_membership-IsConsistent gid sub s.platform s.authz k.1 k.0 h))
        (invalidate-Triple sub gid)

  require_other_owner-Triple :
      (gid a : String) (e : Error)
      → Triple Sound (Known a) (require_other_owner gid e) (λ _. Known a)
  unfolding require_other_owner
  require_other_owner-Triple gid a e =
      Triple-bind (read-Triple (count_owners gid) (λ s k. k.0))
        (λ owners. Triple-weaken (λ s p. p.0) (Triple-require (not (leb owners 1)) e (λ s k. k.0)))

  remove_existing-Triple :
      (d : Decision) (gid target : String) (r : Result Membership)
      → Triple Sound (Known gid) (remove_existing d gid target r) (λ _. Sound)
  unfolding remove_existing
  remove_existing-Triple d gid target (err not_found) = Triple-return tt (λ s k. k.0)
  remove_existing-Triple d gid target (err e) = Triple-raise e (λ s k. k.0)
  remove_existing-Triple d gid target (ok existing) =
      Triple-then
        (Triple-if (existing.role == role_owner)
          (λ owner.
            Triple-then
              (Triple-require (leb role_owner d.role) (invalid "only an Owner may remove an Owner")
                (λ s k. k.0))
              (require_other_owner-Triple gid gid _))
          (λ other. Triple-return tt (λ s k. k)))
        (remove_member_row-Triple gid target)

  pub remove_member-Keeps :
      (ctx : Context) (gid subject : String) → Keeps (remove_member ctx gid subject)
  unfolding remove_member
  remove_member-Keeps ctx gid subject =
      Triple-bind (resolve_mapped-Triple ctx ctx.subject gid) (λ d.
        Triple-then
          (Triple-require (leb role_curator d.role) (invalid "Curator or Owner role required")
            (λ s k. k.0))
          (record {
            at = λ s k.
                let target = trim_space subject in
                (remove_existing-Triple d gid target (get_membership gid target s.platform)).at s k;
          }))

  leave_existing-Triple :
      (id sub : String) (r : Result Membership)
      → Triple Sound (Known id) (leave_existing id sub r) (λ _. Sound)
  unfolding leave_existing
  leave_existing-Triple id sub (err not_found) = Triple-return tt (λ s k. k.0)
  leave_existing-Triple id sub (err e) = Triple-raise e (λ s k. k.0)
  leave_existing-Triple id sub (ok existing) =
      Triple-then
        (Triple-if (existing.role == role_owner) (λ owner. require_other_owner-Triple id id _)
          (λ other. Triple-return tt (λ s k. k)))
        (remove_member_row-Triple id sub)

  -- LeaveGenealogy does not look the genealogy up, so that its id is a hypothesis.
  pub leave_genealogy-Keeps :
      (ctx : Context) (id : String) → IsId id → Keeps (leave_genealogy ctx id)
  unfolding leave_genealogy
  leave_genealogy-Keeps ctx id is_id =
      Triple-then
        (Triple-require (not (str_eq ctx.subject "")) (invalid "authentication required")
          (λ s v. v))
        (record {
          at = λ s v.
              (leave_existing-Triple id ctx.subject (get_membership id ctx.subject s.platform)).at s
                (v, is_id);
        })

  pub ban_user-Keeps : (ctx : Context) (req : BanUserRequest) → Keeps (ban_user ctx req)
  unfolding ban_user
  ban_user-Keeps ctx req =
      let b : Ban = record {
        subject = req.subject;
        genealogy_id = req.genealogy_id;
        reason = req.reason;
        by = ctx.subject;
        at = ctx.now;
      } in
      Triple-then (require_role-Triple ctx ctx.subject req.genealogy_id role_curator) (
        Triple-then
          (write-Triple {Q = Sound} (put_ban ctx.now b) (λ s k. k.0)
            (λ s db k h.
              Untouched-IsConsistent s.platform db s.authz
                (put_ban-Untouched ctx.now b s.platform h) k.0))
          (Triple-return (ban_to_proto b) (λ s v. v)))

  pub unban_user-Keeps : (ctx : Context) (gid subject : String) → Keeps (unban_user ctx gid subject)
  unfolding unban_user
  unban_user-Keeps ctx gid subject =
      Triple-then (require_role-Triple ctx ctx.subject gid role_curator) (
        write-Triple (delete_ban gid subject) (λ s k. k.0)
          (λ s db k h.
            Untouched-IsConsistent s.platform db s.authz
              (delete_ban-Untouched gid subject s.platform h) k.0))

  pub list_members-Keeps : (ctx : Context) (gid : String) → Keeps (list_members ctx gid)
  unfolding list_members
  list_members-Keeps ctx gid = Triple-then (require_role-Triple ctx ctx.subject gid role_viewer) (
      Triple-forget (λ out s p. p.0.0)
        (read-Triple (λ db. iterate_memberships_for_genealogy gid collect_member db [])
          (λ s k. k.0)))
