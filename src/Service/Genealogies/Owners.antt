-- ===== src/Service/Genealogies/Owners.antt =====
-- RemoveMember and LeaveGenealogy never take the last owner away.
use linea_server.Prelude.{
  ℕ, ◌≡◌, refl, sym, ap, subst, ◌∙◌, ◌⊎◌, str_eq_of_ne, some, inl, inr, String, str_eq, eq_iff,
  false, leb, ◌==◌, arith, Bool-cases, trim_space,
}
use linea_server.Result.{Result, ok, err, Error, not_found, Result-cases}
use linea_server.Result.Exec.{◌>>◌}
use linea_server.Authz.{Decision}
use linea_server.Platform.Types.{role_owner, role_curator, Membership}
use linea_server.Platform.Badger.{Badger, Db}
use linea_server.Platform.Keys.{members_prefix, membership_key, IsId}
use linea_server.Platform.Keys.Apart.{members-key}
use linea_server.Platform.Store.{get_membership, delete_membership}
use linea_server.Platform.Store.Lookup.{get-delete_membership, get_membership-read}
use linea_server.Service.{Context, State, resolve_mapped, invalidate}
use linea_server.Service.Genealogies.{count_owners}
use linea_server.Service.Genealogies.Members.{
  remove_member_row, require_other_owner, remove_existing, leave_existing, remove_member,
  leave_genealogy,
}
use linea_server.Service.Genealogies.Counting.{find_other_owner, counted_rows}
use linea_server.Tenants.{Stores}

-- Some member of the genealogy is an owner.
abbrev pub HasOwner : ⦃B : Badger⦄ → String → Db → Type 0
HasOwner gid db =
    (sub : String) × (m : Membership) × (get_membership gid sub db ≡ ok m) × (m.role ≡ role_owner)

module _ ⦃B : Badger⦄ where
  -- When more than one owner is counted, some owner remains after any one row is deleted.
  counted-HasOwner :
      (gid sub : String) (db : Db) {db' : Db} (n : ℕ)
      → IsId gid
      → count_owners gid db ≡ ok n
      → leb n 1 ≡ false
      → delete_membership gid sub db ≡ ok db'
      → HasOwner gid db'
  counted-HasOwner gid sub db {db'} n is_id c many h =
      let (kvs, p, counted) = counted_rows gid db n c in
      let (r, ne) =
        find_other_owner (membership_key gid sub) kvs 0 n counted (ground arith)
          (B.scan_distinct db (members_prefix gid) p) in
      let (prefixed, stored) = B.scan_sound db (members_prefix gid) r.k r.v p r.there in
      let (other, key) = members-key gid r.k prefixed in
      let before =
        get_membership-read gid other db r.v r.m
          (subst (λ k. B.get db k ≡ ok (some r.v)) key stored) r.decoded in
      let differs : str_eq sub other ≡ false =
        str_eq_of_ne sub other (λ e. ne (key ∙ ap (membership_key gid) (sym e))) in
      (
        other,
        r.m,
        get-delete_membership gid sub db gid other is_id is_id h ∙ ground (arith, before, differs),
        r.owner,
      )

  -- Somebody who is no owner can go.
  other-HasOwner :
      (gid sub : String) (db : Db) {db' : Db} (m : Membership)
      → IsId gid
      → get_membership gid sub db ≡ ok m
      → (m.role == role_owner) ≡ false
      → delete_membership gid sub db ≡ ok db'
      → HasOwner gid db
      → HasOwner gid db'
  other-HasOwner gid sub db m is_id g no_owner h (s, x, gx, owner) = (
    s,
    x,
    get-delete_membership gid sub db gid s is_id is_id h
        ∙ ground (arith, eq_iff sub s, ap (λ t. get_membership gid t db) {x = sub} {y = s}),
    owner,
  )

module _ ⦃B : Badger⦄ ⦃S : Stores⦄ where
  -- The end of both handlers: the row goes, if the database can be written.
  row-HasOwner :
      (gid sub : String) (s : State)
      → HasOwner gid s.platform
      → ((db' : Db) → delete_membership gid sub s.platform ≡ ok db' → HasOwner gid db')
      → HasOwner gid (remove_member_row gid sub s).1.platform
  unfolding remove_member_row invalidate
  row-HasOwner gid sub s o keep = elim (Result-cases (delete_membership gid sub s.platform)) [
    | inl (db', p) ↦ subst (HasOwner gid) (ground arith) (keep db' p)
    | inr (e, p) ↦ subst (HasOwner gid) (ground arith) o
  ]

  -- What RemoveMember's and LeaveGenealogy's last part does to a member who is there: nothing, or
  -- the row goes, and then the member was no owner or more than one owner is counted.
  data Removal (gid sub : String) (m : Membership) (s : State) : State → Type 0 where
    refused : Removal gid sub m s s
    removed :
        ((m.role == role_owner) ≡ false)
          ⊎ ((n : ℕ) × (count_owners gid s.platform ≡ ok n) × (leb n 1 ≡ false))
        → Removal gid sub m s (remove_member_row gid sub s).1

  Removal-HasOwner :
      (gid sub : String) (m : Membership) {s t : State}
      → IsId gid
      → get_membership gid sub s.platform ≡ ok m
      → Removal gid sub m s t
      → HasOwner gid s.platform
      → HasOwner gid t.platform
  Removal-HasOwner gid sub m is_id g refused o = o
  Removal-HasOwner gid sub m {s} is_id g (removed (inl no_owner)) o =
      row-HasOwner gid sub s o (λ db' p. other-HasOwner gid sub s.platform m is_id g no_owner p o)
  Removal-HasOwner gid sub m {s} is_id g (removed (inr (n, c, many))) o =
      row-HasOwner gid sub s o (λ db' p. counted-HasOwner gid sub s.platform n is_id c many p)

  require_other-Removal :
      (gid sub : String) (e : Error) (m : Membership) (s : State)
      → Removal gid sub m s ((require_other_owner gid e >> remove_member_row gid sub) s).1
  unfolding require_other_owner
  require_other-Removal gid sub e m s = elim (Result-cases (count_owners gid s.platform)) [
    | inr (e', c) ↦ rw c refused
    | inl (n, c) ↦ elim (Bool-cases (leb n 1)) [
      | inl few ↦ rw (c, few) refused
      | inr many ↦ rw (c, many) (removed (inr (n, c, many)))
    ]
  ]

  remove_existing-Removal :
      (d : Decision) (gid sub : String) (m : Membership) (s : State)
      → Removal gid sub m s (remove_existing d gid sub (ok m) s).1
  unfolding remove_existing
  remove_existing-Removal d gid sub m s = elim (Bool-cases (m.role == role_owner)) [
    | inr no_owner ↦ rw no_owner (removed (inl no_owner))
    | inl owner ↦ elim (Bool-cases (leb role_owner d.role)) [
      | inr weak ↦ rw (owner, weak) refused
      | inl strong ↦ rw (owner, strong) (require_other-Removal gid sub _ m s)
    ]
  ]

  leave_existing-Removal :
      (gid sub : String) (m : Membership) (s : State)
      → Removal gid sub m s (leave_existing gid sub (ok m) s).1
  unfolding leave_existing
  leave_existing-Removal gid sub m s = elim (Bool-cases (m.role == role_owner)) [
    | inr no_owner ↦ rw no_owner (removed (inl no_owner))
    | inl owner ↦ rw owner (require_other-Removal gid sub _ m s)
  ]

  resolve_mapped-platform :
      (ctx : Context) (sub gid : String) (s : State)
      → (resolve_mapped ctx sub gid s).1.platform ≡ s.platform
  unfolding resolve_mapped
  resolve_mapped-platform ctx sub gid s = refl

  -- The last part on whatever the read of the membership gave.
  remove_existing-HasOwner :
      (d : Decision) (gid sub : String) (s : State) (r : Result Membership)
      → get_membership gid sub s.platform ≡ r
      → IsId gid
      → HasOwner gid s.platform
      → HasOwner gid (remove_existing d gid sub r s).1.platform
  remove_existing-HasOwner d gid sub s (ok m) g is_id o =
      Removal-HasOwner gid sub m is_id g (remove_existing-Removal d gid sub m s) o
  remove_existing-HasOwner d gid sub s (err not_found) g is_id o = unfold remove_existing in o
  remove_existing-HasOwner d gid sub s (err _) g is_id o = unfold remove_existing in o

  leave_existing-HasOwner :
      (gid sub : String) (s : State) (r : Result Membership)
      → get_membership gid sub s.platform ≡ r
      → IsId gid
      → HasOwner gid s.platform
      → HasOwner gid (leave_existing gid sub r s).1.platform
  leave_existing-HasOwner gid sub s (ok m) g is_id o =
      Removal-HasOwner gid sub m is_id g (leave_existing-Removal gid sub m s) o
  leave_existing-HasOwner gid sub s (err not_found) g is_id o = unfold leave_existing in o
  leave_existing-HasOwner gid sub s (err _) g is_id o = unfold leave_existing in o

  -- A genealogy, whose id holds no "/", that has an owner has one after RemoveMember, whoever
  -- calls it, for whichever member, and whether it succeeds or fails.
  pub remove_member-HasOwner :
      (ctx : Context) (gid subject : String) (s : State)
      → IsId gid
      → HasOwner gid s.platform
      → HasOwner gid (remove_member ctx gid subject s).1.platform
  unfolding remove_member
  remove_member-HasOwner ctx gid subject s is_id o =
      let s1 = (resolve_mapped ctx ctx.subject gid s).1 in
      let o1 : HasOwner gid s1.platform =
        subst (HasOwner gid) (sym (resolve_mapped-platform ctx ctx.subject gid s)) o in
      elim (Result-cases (resolve_mapped ctx ctx.subject gid s).0) [
        | inr (e, p) ↦ rw p o1
        | inl (d, p) ↦ elim (Bool-cases (leb role_curator d.role)) [
          | inr weak ↦ rw (p, weak) o1
          | inl strong ↦
              rw (p, strong)
                (remove_existing-HasOwner d gid (trim_space subject) s1
                  (get_membership gid (trim_space subject) s1.platform) refl is_id o1)
        ]
      ]

  -- A genealogy, whose id holds no "/", that has an owner has one after LeaveGenealogy, whoever
  -- calls it, and whether it succeeds or fails.
  pub leave_genealogy-HasOwner :
      (ctx : Context) (gid : String) (s : State)
      → IsId gid
      → HasOwner gid s.platform
      → HasOwner gid (leave_genealogy ctx gid s).1.platform
  unfolding leave_genealogy
  leave_genealogy-HasOwner ctx gid s is_id o = elim (Bool-cases (str_eq ctx.subject "")) [
    | inl anon ↦ rw anon o
    | inr named ↦ rw named (
        leave_existing-HasOwner gid ctx.subject s (get_membership gid ctx.subject s.platform) refl
          is_id o)
  ]
