-- ===== src/Authz/Consistent/Writes.antt =====
-- The writes of genealogies and memberships that keep what Authz.Consistent asks for, or leave it to
-- Invalidate.
use linea_server.Prelude.{◌≡◌, sym, String, str_eq, eq_iff, false, All, arith, str_eq_of_ne}
use linea_server.Result.{ok, err, not_found}
use linea_server.Platform.Types.{ℤ, Genealogy, Membership}
use linea_server.Platform.Badger.{Badger, Db}
use linea_server.Platform.Keys.{membership_key, reverse_membership_key, IsId}
use linea_server.Platform.Keys.Apart.{membership-ne-genealogy, reverse-ne-genealogy}
use linea_server.Platform.Store.{
  get_genealogy, put_genealogy, delete_genealogy, put_membership, delete_membership,
}
use linea_server.Platform.Store.Lookup.{
  get-put_genealogy, get_membership-put_genealogy, get-delete_genealogy,
  get_membership-delete_genealogy, get-put_membership, get-delete_membership,
  get_genealogy-put_membership, get_genealogy-delete_membership,
}
use linea_server.Platform.Store.Inversion.{put_membership-DidPut}
use linea_server.Platform.Store.WellKeyed.{
  put_genealogy-IsWellKeyed, delete_genealogy-IsWellKeyed, put_membership-IsWellKeyed,
  delete_membership-IsWellKeyed,
}
use linea_server.Platform.Store.Indexed.{
  IsIndexed, put_genealogy-IsIndexed, put_membership-IsIndexed, delete_membership-IsIndexed,
}
use linea_server.Authz.{CacheEntry, Cache, drop_matches, invalidate}
use linea_server.Authz.Coherence.{Agrees, drop_matches-All, keeps-Agrees, resolved_genealogy}
use linea_server.Authz.Consistent.{
  IsConsistent, IsVacant, drop_matches-missed, map-All, map2-All, same-Agrees,
}

module _ ⦃B : Badger⦄ where
  -- Storing a genealogy, whose old decisions Invalidate then drops.
  pub put_genealogy-IsConsistent :
      (g : Genealogy) (db : Db) {db' : Db} (c : Cache)
      → IsId g.id
      → IsConsistent db c
      → put_genealogy g db ≡ ok db'
      → IsConsistent db' (invalidate "" g.id c)
  unfolding invalidate
  put_genealogy-IsConsistent g db {db'} c is_id v h = record {
    well_keyed = put_genealogy-IsWellKeyed g db is_id v.well_keyed h;
    indexed = put_genealogy-IsIndexed g db v.indexed h;
    coherent =
        drop_matches-All (Agrees db) (Agrees db') "" g.id c.m
          (λ e miss a.
            same-Agrees db db' e
              (ground (arith, get-put_genealogy g db e.gid h, eq_iff g.id e.gid, eq_iff e.gid g.id))
              (λ x s. get_membership-put_genealogy g db x s h) a)
          v.coherent;
  }

  -- A new genealogy, of which no decision is cached.
  pub create-IsConsistent :
      (g : Genealogy) (db : Db) {db' : Db} (c : Cache)
      → IsId g.id
      → get_genealogy g.id db ≡ err not_found
      → IsConsistent db c
      → put_genealogy g db ≡ ok db'
      → IsConsistent db' c × IsVacant g.id c
  create-IsConsistent g db {db'} c is_id fresh v h =
      let apart : All (λ (e : CacheEntry). str_eq e.gid g.id ≡ false) c.m =
        map-All c.m
          (λ e a.
            let (x, p) = resolved_genealogy e.sub e.gid db e.d a in
            ground (arith, p, fresh, eq_iff e.gid g.id))
          v.coherent in
      (
        record {
          well_keyed = put_genealogy-IsWellKeyed g db is_id v.well_keyed h;
          indexed = put_genealogy-IsIndexed g db v.indexed h;
          coherent =
              map2-All c.m
                (λ e a miss.
                  same-Agrees db db' e
                    (ground
                      (arith, get-put_genealogy g db e.gid h, eq_iff g.id e.gid, eq_iff e.gid g.id))
                    (λ x s. get_membership-put_genealogy g db x s h) a)
                v.coherent apart;
        },
        apart,
      )

  -- The first membership of a new genealogy.
  pub first_membership-IsConsistent :
      (now : ℤ) (m : Membership) (db : Db) {db' : Db} (c : Cache)
      → IsId m.genealogy_id
      → IsConsistent db c
      → IsVacant m.genealogy_id c
      → put_membership now m db ≡ ok db'
      → IsConsistent db' c
  first_membership-IsConsistent now m db {db'} c is_id v vacant h = record {
    well_keyed = put_membership-IsWellKeyed now m db v.well_keyed h;
    indexed = put_membership-IsIndexed now m db is_id v.indexed h;
    coherent =
        map2-All c.m
          (λ e a miss.
            keeps-Agrees m.subject m.genealogy_id db db' v.well_keyed
              (λ x. get_genealogy-put_membership now m db x h)
              (λ x s ia other. ground (arith, get-put_membership now m db x s is_id ia h)) e
              (ground (arith, (put_membership-DidPut now m db h).genealogy_id, miss)) a)
          v.coherent vacant;
  }

  -- A membership that goes while the whole genealogy is to be invalidated.
  pub clear_membership-IsConsistent :
      (gid sub : String) (db : Db) {db' : Db} (c : Cache)
      → IsId gid
      → IsConsistent db (invalidate "" gid c)
      → delete_membership gid sub db ≡ ok db'
      → IsConsistent db' (invalidate "" gid c)
  unfolding invalidate
  clear_membership-IsConsistent gid sub db {db'} c is_id v h = record {
    well_keyed = delete_membership-IsWellKeyed gid sub db v.well_keyed h;
    indexed = delete_membership-IsIndexed gid sub db is_id v.indexed h;
    coherent =
        map2-All (drop_matches "" gid c.m)
          (λ e a miss.
            keeps-Agrees sub gid db db' v.well_keyed
              (λ x. get_genealogy-delete_membership gid sub db x h)
              (λ x s ia other. ground (arith, get-delete_membership gid sub db x s is_id ia h)) e
              (ground arith) a)
          v.coherent (drop_matches-missed "" gid c.m);
  }

  delete_genealogy-IsIndexed :
      (gid : String) (db : Db) {db' : Db}
      → IsIndexed db
      → delete_genealogy gid db ≡ ok db'
      → IsIndexed db'
  unfolding delete_genealogy
  delete_genealogy-IsIndexed gid db x h = record {
    mirror = λ a sub is_id. rw (B.get_commit _ db (membership_key a sub) h) (
        rw (B.get_commit _ db (reverse_membership_key sub a) h) (
          ground (
            arith,
            x.mirror a sub is_id,
            str_eq_of_ne _ _ (λ e. membership-ne-genealogy a sub gid (sym e)),
            str_eq_of_ne _ _ (λ e. reverse-ne-genealogy sub a gid (sym e)),
          )));
  }

  pub delete_genealogy-IsConsistent :
      (gid : String) (db : Db) {db' : Db} (c : Cache)
      → IsConsistent db (invalidate "" gid c)
      → delete_genealogy gid db ≡ ok db'
      → IsConsistent db' (invalidate "" gid c)
  unfolding invalidate
  delete_genealogy-IsConsistent gid db {db'} c v h = record {
    well_keyed = delete_genealogy-IsWellKeyed gid db v.well_keyed h;
    indexed = delete_genealogy-IsIndexed gid db v.indexed h;
    coherent =
        map2-All (drop_matches "" gid c.m)
          (λ e a miss.
            same-Agrees db db' e
              (ground
                (arith, get-delete_genealogy gid db e.gid h, eq_iff gid e.gid, eq_iff e.gid gid))
              (λ x s. get_membership-delete_genealogy gid db x s h) a)
          v.coherent (drop_matches-missed "" gid c.m);
  }
