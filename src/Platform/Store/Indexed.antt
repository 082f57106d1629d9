-- ===== src/Platform/Store/Indexed.antt =====
-- The two copies of a membership, under `m/` and under `mr/`, agree.
use linea_server.Prelude.{◌≡◌, sym, String, str_eq_of_ne, arith}
use linea_server.Result.{ok}
use linea_server.Platform.Types.{ℤ, Genealogy, Membership}
use linea_server.Platform.Badger.{Badger, Db}
use linea_server.Platform.Keys.{membership_key, reverse_membership_key, IsId}
use linea_server.Platform.Keys.Apart.{
  membership_key_eq, reverse_membership_key_eq, membership-ne-reverse, membership-ne-genealogy,
  reverse-ne-genealogy,
}
use linea_server.Platform.Store.{
  put, put_both, put_genealogy, put_membership, stamp_membership, delete_membership,
}
use linea_server.Platform.Store.Lookup.{put_genealogy-did}
use linea_server.Platform.Store.Inversion.{put_membership-DidPut}

pub record IsIndexed ⦃B : Badger⦄ (db : Db) : Type 0 where
  pub mirror :
      (gid sub : String)
      → IsId gid
      → B.get db (membership_key gid sub) ≡ B.get db (reverse_membership_key sub gid)

module _ ⦃B : Badger⦄ where
  -- PutMembership keeps the copies of the memberships under `m/` and `mr/` equal; ids hold no "/".
  pub put_membership-IsIndexed :
      (now : ℤ) (m : Membership) (db : Db) {db' : Db}
      → IsId m.genealogy_id
      → IsIndexed db
      → put_membership now m db ≡ ok db'
      → IsIndexed db'
  unfolding put_both stamp_membership
  put_membership-IsIndexed now m db hm x h = record {
    mirror = λ gid sub hg.
        let c = (put_membership-DidPut now m db h).commit in
        rw (B.get_commit _ db (membership_key gid sub) c) (
          rw (B.get_commit _ db (reverse_membership_key sub gid) c) (
            ground (
              arith,
              x.mirror gid sub hg,
              membership_key_eq m.genealogy_id gid m.subject sub hm hg,
              reverse_membership_key_eq m.subject sub m.genealogy_id gid hm hg,
              str_eq_of_ne _ _ (membership-ne-reverse m.genealogy_id m.subject sub gid),
              str_eq_of_ne _ _
                  (λ e. membership-ne-reverse gid sub m.subject m.genealogy_id (sym e)),
            )));
  }

  -- DeleteMembership keeps the copies of the memberships under `m/` and `mr/` equal; ids hold no
  -- "/".
  pub delete_membership-IsIndexed :
      (a s : String) (db : Db) {db' : Db}
      → IsId a
      → IsIndexed db
      → delete_membership a s db ≡ ok db'
      → IsIndexed db'
  unfolding delete_membership
  delete_membership-IsIndexed a s db ha x c = record {
    mirror = λ gid sub hg. rw (B.get_commit _ db (membership_key gid sub) c) (
        rw (B.get_commit _ db (reverse_membership_key sub gid) c) (
          ground (
            arith,
            x.mirror gid sub hg,
            membership_key_eq a gid s sub ha hg,
            reverse_membership_key_eq s sub a gid ha hg,
            str_eq_of_ne _ _ (membership-ne-reverse a s sub gid),
            str_eq_of_ne _ _ (λ e. membership-ne-reverse gid sub s a (sym e)),
          )));
  }

  -- Storing a genealogy touches neither.
  pub put_genealogy-IsIndexed :
      (g : Genealogy) (db : Db) {db' : Db}
      → IsIndexed db
      → put_genealogy g db ≡ ok db'
      → IsIndexed db'
  unfolding put
  put_genealogy-IsIndexed g db x h = record {
    mirror = λ gid sub hg.
        let c = (put_genealogy-did g db h).1 in
        rw (B.get_commit _ db (membership_key gid sub) c) (
          rw (B.get_commit _ db (reverse_membership_key sub gid) c) (
            ground (
              arith,
              x.mirror gid sub hg,
              str_eq_of_ne _ _ (λ e. membership-ne-genealogy gid sub g.id (sym e)),
              str_eq_of_ne _ _ (λ e. reverse-ne-genealogy sub gid g.id (sym e)),
            )));
  }
