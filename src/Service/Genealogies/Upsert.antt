-- ===== src/Service/Genealogies/Upsert.antt =====
-- What UpsertMembership does when it succeeds, and the guard that it lacks.
use linea_server.Prelude.{
  ◌≤◌, ◌≡◌, ◌≢◌, ◌⊎◌, inl, inr, String, str_eq, eq_iff, eq_refl, true, false, ◌&&◌, leb, ltb, ◌==◌,
  arith, Bool-cases, trim_space, if◌then◌else◌,
}
use linea_server.Result.{Result, ok, Result-cases}
use linea_server.Platform.Types.{Role, role_owner, role_curator, is_valid_role, Membership}
use linea_server.Platform.Badger.{Badger, Db}
use linea_server.Platform.Keys.{IsId}
use linea_server.Platform.Store.{get_membership, put_membership, stamp_membership}
use linea_server.Platform.Store.Lookup.{get-put_membership}
use linea_server.Authz.{Decision}
use linea_server.Tenants.{Stores}
use linea_server.Service.{Context, State, resolve_mapped, invalidate}
use linea_server.Service.Proto.{PbMembership, UpsertMembershipRequest}
use linea_server.Service.PlatformMappers.{role_from_proto}
use linea_server.Service.Genealogies.Members.{upsert_membership}
use linea_server.Service.Genealogies.Owners.{HasOwner}

-- The record that UpsertMembership stores.
abbrev pub granted_row : Context → UpsertMembershipRequest → Membership
granted_row ctx req = record {
  subject = trim_space req.subject;
  genealogy_id = req.genealogy_id;
  role = role_from_proto req.role;
  granted_by = ctx.subject;
  granted_at = ctx.now;
}

module _ ⦃B : Badger⦄ ⦃S : Stores⦄ where
  abbrev written_db : Context → UpsertMembershipRequest → State → Result Db
  written_db ctx req s = put_membership ctx.now (granted_row ctx req) s.platform

  -- What a successful UpsertMembership has checked and written.
  pub record Upserted (ctx : Context) (req : UpsertMembershipRequest) (s t : State) : Type 0 where
    pub d : Decision
    pub resolved : (resolve_mapped ctx ctx.subject req.genealogy_id s).0 ≡ ok d
    pub curator : role_curator ≤ d.role
    pub valid : is_valid_role (role_from_proto req.role) ≡ true
    pub owner : (role_from_proto req.role ≢ role_owner) ⊎ (role_owner ≤ d.role)
    pub written : put_membership ctx.now (granted_row ctx req) s.platform ≡ ok t.platform

  owner_allowed :
      (mine given : Role)
      → (given == role_owner && ltb mine role_owner) ≡ false
      → (given ≢ role_owner) ⊎ (role_owner ≤ mine)
  owner_allowed mine given h = ground arith

  upsert-Upserted :
      (ctx : Context) (req : UpsertMembershipRequest) (s : State) (r : PbMembership)
      → (upsert_membership ctx req s).0 ≡ ok r
      → Upserted ctx req s (upsert_membership ctx req s).1
  unfolding upsert_membership invalidate resolve_mapped
  upsert-Upserted ctx req s r h =
      elim (Result-cases (resolve_mapped ctx ctx.subject req.genealogy_id s).0) [
        | inr (e, p) ↦ absurd (cc (rw p at h))
        | inl (d, p) ↦ elim (Bool-cases (leb role_curator d.role)) [
          | inr weak ↦ absurd (cc (rw (p, weak) at h))
          | inl strong ↦ elim (Bool-cases (is_valid_role (role_from_proto req.role))) [
            | inr bad ↦ absurd (cc (rw (p, strong, bad) at h))
            | inl valid ↦
                elim (Bool-cases
                  (role_from_proto req.role == role_owner && ltb d.role role_owner)) [
                    | inl low ↦ absurd (cc (rw (p, strong, valid, low) at h))
                    | inr may ↦ elim (Result-cases (written_db ctx req s)) [
                      | inr (e, w) ↦ absurd (cc (rw (p, strong, valid, may, w) at h))
                      | inl (db', w) ↦
                          rw (p, strong, valid, may, w)
                            (record {
                              d = d;
                              resolved = p;
                              curator = ground arith;
                              valid = valid;
                              owner = owner_allowed d.role (role_from_proto req.role) may;
                              written = w;
                            })
                    ]
                  ]
          ]
        ]
      ]

  pub upsert_membership_lem :
      (ctx : Context) (req : UpsertMembershipRequest) (s : State) {r : PbMembership}
      (gid sub : String)
      → IsId req.genealogy_id
      → IsId gid
      → (upsert_membership ctx req s).0 ≡ ok r
      → ((d : Decision) × ((resolve_mapped ctx ctx.subject req.genealogy_id s).0 ≡ ok d)
          × (role_curator ≤ d.role)
          × ((role_from_proto req.role ≢ role_owner) ⊎ (role_owner ≤ d.role)))
        × (get_membership gid sub (upsert_membership ctx req s).1.platform ≡ (
            if str_eq req.genealogy_id gid && str_eq (trim_space req.subject) sub
            then ok (stamp_membership ctx.now (granted_row ctx req))
            else get_membership gid sub s.platform))
  upsert_membership_lem ctx req s {r} gid sub is_id ig h =
      let u = upsert-Upserted ctx req s r h in
      (
        (u.d, u.resolved, u.curator, u.owner),
        get-put_membership ctx.now (granted_row ctx req) s.platform gid sub is_id ig u.written,
      )

  -- UpsertMembership lacks the guard of RemoveMember: if the request gives another role than Owner
  -- and nobody but its subject is an owner, a success leaves the genealogy without an owner.
  pub upsert_removes_last_owner :
      (ctx : Context) (req : UpsertMembershipRequest) (s : State) {r : PbMembership}
      → IsId req.genealogy_id
      → (upsert_membership ctx req s).0 ≡ ok r
      → role_from_proto req.role ≢ role_owner
      → ((sub : String) (m : Membership)
          → get_membership req.genealogy_id sub s.platform ≡ ok m
          → m.role ≡ role_owner
          → sub ≡ trim_space req.subject)
      → ¬ HasOwner req.genealogy_id (upsert_membership ctx req s).1.platform
  unfolding stamp_membership
  upsert_removes_last_owner ctx req s {r} is_id h lower only (sub, m, g, owner) =
      let read = (upsert_membership_lem ctx req s req.genealogy_id sub is_id is_id h).1 in
      elim (Bool-cases (str_eq (trim_space req.subject) sub)) [
        | inl same ↦ lower (ground (arith, read, eq_refl req.genealogy_id))
        | inr other ↦ absurd (
            ground (
              arith,
              read,
              eq_refl req.genealogy_id,
              only sub m,
              eq_iff (trim_space req.subject) sub,
            ))
      ]
