-- ===== src/Platform/Store/WellKeyed.antt =====
-- A genealogy is stored under its own id, which holds no "/".
use linea_server.Prelude.{◌≡◌, String, str_eq, eq_of_str_eq, Bool-cases, inl, inr, arith}
use linea_server.Result.{ok}
use linea_server.Platform.Types.{ℤ, Genealogy, Membership}
use linea_server.Platform.Badger.{Badger, Db}
use linea_server.Platform.Keys.{IsId}
use linea_server.Platform.Store.{
  put_genealogy, get_genealogy, delete_genealogy, put_membership, delete_membership,
}
use linea_server.Platform.Store.Lookup.{
  get-put_genealogy, get-delete_genealogy, get_genealogy-put_membership,
  get_genealogy-delete_membership,
}

pub record IsWellKeyed ⦃B : Badger⦄ (db : Db) : Type 0 where
  pub named : (gid : String) (g : Genealogy) → get_genealogy gid db ≡ ok g → (g.id ≡ gid) × IsId gid

module _ ⦃B : Badger⦄ where
  pub put_genealogy-IsWellKeyed :
      (g : Genealogy) (db : Db) {db' : Db}
      → IsId g.id
      → IsWellKeyed db
      → put_genealogy g db ≡ ok db'
      → IsWellKeyed db'
  put_genealogy-IsWellKeyed g db hg w h = record {
    named = λ gid x p. elim (Bool-cases (str_eq g.id gid)) [
      | inl same ↦
          let e = eq_of_str_eq g.id gid same in
          (ground (arith, get-put_genealogy g db gid h), rw (← e) hg)
      | inr other ↦ w.named gid x (ground (arith, get-put_genealogy g db gid h))
    ];
  }

  pub delete_genealogy-IsWellKeyed :
      (a : String) (db : Db) {db' : Db}
      → IsWellKeyed db
      → delete_genealogy a db ≡ ok db'
      → IsWellKeyed db'
  delete_genealogy-IsWellKeyed a db w h = record {
    named = λ gid x p. w.named gid x (ground (arith, get-delete_genealogy a db gid h));
  }

  pub put_membership-IsWellKeyed :
      (now : ℤ) (m : Membership) (db : Db) {db' : Db}
      → IsWellKeyed db
      → put_membership now m db ≡ ok db'
      → IsWellKeyed db'
  put_membership-IsWellKeyed now m db w h = record {
    named = λ gid x p. w.named gid x (ground (arith, get_genealogy-put_membership now m db gid h));
  }

  pub delete_membership-IsWellKeyed :
      (a s : String) (db : Db) {db' : Db}
      → IsWellKeyed db
      → delete_membership a s db ≡ ok db'
      → IsWellKeyed db'
  delete_membership-IsWellKeyed a s db w h = record {
    named = λ gid x p. w.named gid x (ground (arith, get_genealogy-delete_membership a s db gid h));
  }
