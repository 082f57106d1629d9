-- ===== src/Platform/Untouched.antt =====
-- The writes of internal/platform that leave the genealogies and the memberships alone: under other
-- keys, as those of bans are.
use linea_server.Prelude.{
  ◌≡◌, ◌≢◌, ap, refl, sym, ◌∙◌, String, ◌∷◌, [], str_eq_of_ne, arith, first_code, if◌then◌else◌,
}
use linea_server.Result.{ok}
use linea_server.Platform.Types.{ℤ, Ban, is_zero}
use linea_server.Platform.Json.{marshal_ban}
use linea_server.Platform.Badger.{Badger, Db, Blob, json, set}
use linea_server.Platform.Keys.{genealogy_key, membership_key, reverse_membership_key, ban_key}
use linea_server.Platform.Store.{put, get_genealogy, get_membership, put_ban, delete_ban}
use linea_server.Platform.Store.WellKeyed.{IsWellKeyed}
use linea_server.Platform.Store.Indexed.{IsIndexed}

pub record Untouched ⦃B : Badger⦄ (db db' : Db) : Type 0 where
  pub genealogy : (gid : String) → B.get db' (genealogy_key gid) ≡ B.get db (genealogy_key gid)
  pub membership :
      (gid sub : String) → B.get db' (membership_key gid sub) ≡ B.get db (membership_key gid sub)
  pub reverse :
      (sub gid : String)
      → B.get db' (reverse_membership_key sub gid) ≡ B.get db (reverse_membership_key sub gid)

-- A key that no genealogy and no membership has.
pub record IsAside (k : String) : Type 0 where
  pub genealogy : (gid : String) → k ≢ genealogy_key gid
  pub membership : (gid sub : String) → k ≢ membership_key gid sub
  pub reverse : (sub gid : String) → k ≢ reverse_membership_key sub gid

ban_key-IsAside : (a s : String) → IsAside (ban_key a s)
unfolding ban_key genealogy_key membership_key reverse_membership_key first_code
ban_key-IsAside a s = record {
  genealogy = λ gid e. absurd (omega (arith, ap first_code e));
  membership = λ gid sub e. absurd (omega (arith, ap first_code e));
  reverse = λ sub gid e. absurd (omega (arith, ap first_code e));
}

module _ ⦃B : Badger⦄ where
  pub set-Untouched :
      (k : String) (v : Blob) (db : Db) {db' : Db}
      → IsAside k
      → B.commit (set k v ∷ []) db ≡ ok db'
      → Untouched db db'
  set-Untouched k v db aside h = record {
    genealogy = λ gid.
        rw (B.get_commit _ db (genealogy_key gid) h)
          (ground (arith, str_eq_of_ne _ _ (aside.genealogy gid)));
    membership = λ gid sub.
        rw (B.get_commit _ db (membership_key gid sub) h)
          (ground (arith, str_eq_of_ne _ _ (aside.membership gid sub)));
    reverse = λ sub gid.
        rw (B.get_commit _ db (reverse_membership_key sub gid) h)
          (ground (arith, str_eq_of_ne _ _ (aside.reverse sub gid)));
  }

  pub delete_ban-Untouched :
      (a s : String) (db : Db) {db' : Db} → delete_ban a s db ≡ ok db' → Untouched db db'
  unfolding delete_ban
  delete_ban-Untouched a s db h =
      let aside = ban_key-IsAside a s in
      record {
        genealogy = λ gid.
            rw (B.get_commit _ db (genealogy_key gid) h)
              (ground (arith, str_eq_of_ne _ _ (aside.genealogy gid)));
        membership = λ gid sub.
            rw (B.get_commit _ db (membership_key gid sub) h)
              (ground (arith, str_eq_of_ne _ _ (aside.membership gid sub)));
        reverse = λ sub gid.
            rw (B.get_commit _ db (reverse_membership_key sub gid) h)
              (ground (arith, str_eq_of_ne _ _ (aside.reverse sub gid)));
      }

  put_ban-commit :
      (now : ℤ) (b : Ban) (db : Db) {db' : Db}
      → put_ban now b db ≡ ok db'
      → (v : Blob) × (B.commit (set (ban_key b.genealogy_id b.subject) v ∷ []) db ≡ ok db')
  unfolding put_ban put
  put_ban-commit now b db h =
      (json (marshal_ban (record b { at = if is_zero b.at then now else b.at })), ground arith)

  pub put_ban-Untouched :
      (now : ℤ) (b : Ban) (db : Db) {db' : Db} → put_ban now b db ≡ ok db' → Untouched db db'
  put_ban-Untouched now b db h =
      let (v, c) = put_ban-commit now b db h in
      set-Untouched (ban_key b.genealogy_id b.subject) v db
        (ban_key-IsAside b.genealogy_id b.subject) c

  pub Untouched-get_genealogy :
      (db db' : Db) (gid : String) → Untouched db db' → get_genealogy gid db' ≡ get_genealogy gid db
  unfolding get_genealogy
  Untouched-get_genealogy db db' gid u = rw (u.genealogy gid) refl

  pub Untouched-get_membership :
      (db db' : Db) (gid sub : String)
      → Untouched db db'
      → get_membership gid sub db' ≡ get_membership gid sub db
  unfolding get_membership
  Untouched-get_membership db db' gid sub u = rw (u.membership gid sub) refl

  pub Untouched-IsWellKeyed : (db db' : Db) → Untouched db db' → IsWellKeyed db → IsWellKeyed db'
  Untouched-IsWellKeyed db db' u w = record {
    named = λ gid g p. w.named gid g (sym (Untouched-get_genealogy db db' gid u) ∙ p);
  }

  pub Untouched-IsIndexed : (db db' : Db) → Untouched db db' → IsIndexed db → IsIndexed db'
  Untouched-IsIndexed db db' u x = record {
    mirror =
        λ gid sub is_id. u.membership gid sub ∙ x.mirror gid sub is_id ∙ sym (u.reverse sub gid);
  }
