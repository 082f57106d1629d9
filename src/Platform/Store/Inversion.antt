-- ===== src/Platform/Store/Inversion.antt =====
-- What a successful write of internal/platform/store.go has checked and committed.
use linea_server.Prelude.{◌≡◌, str_eq, true, false, arith}
use linea_server.Result.{ok}
use linea_server.Platform.Types.{ℤ, is_valid_role, Membership}
use linea_server.Platform.Badger.{Badger, Db}
use linea_server.Platform.Store.{put_both, put_membership, stamp_membership}

-- A write that its tests let through.
pub record DidPut ⦃B : Badger⦄ (now : ℤ) (m : Membership) (db db' : Db) : Type 0 where
  pub subject : str_eq m.subject "" ≡ false
  pub genealogy_id : str_eq m.genealogy_id "" ≡ false
  pub role : is_valid_role m.role ≡ true
  pub commit : put_both (stamp_membership now m) db ≡ ok db'

module _ ⦃B : Badger⦄ where
  pub put_membership-DidPut :
      (now : ℤ) (m : Membership) (db : Db) {db' : Db}
      → put_membership now m db ≡ ok db'
      → DidPut now m db db'
  unfolding put_membership
  put_membership-DidPut now m db h = record {
    subject = ground arith;
    genealogy_id = ground arith;
    role = ground arith;
    commit = ground arith;
  }
