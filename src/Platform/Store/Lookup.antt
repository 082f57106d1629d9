-- ===== src/Platform/Store/Lookup.antt =====
-- What reads give after the writes of internal/platform/store.go.
use linea_server.Prelude.{
  some, ℕ, ◌<◌, ◌≡◌, sym, String, str_eq, str_eq_of_ne, true, ◌&&◌, arith, if◌then◌else◌,
}
use linea_server.Result.{ok, err, not_found}
use linea_server.Platform.Types.{ℤ, is_valid_visibility, is_valid_role, Genealogy, Membership}
use linea_server.Platform.Json.{unmarshal_membership, marshal_genealogy}
use linea_server.Platform.Json.RoundTrip.{unmarshal-marshal_membership, unmarshal-marshal_genealogy}
use linea_server.Platform.Badger.{Blob, Badger, Db}
use linea_server.Platform.Keys.{genealogy_key, membership_key, IsId}
use linea_server.Platform.Keys.Apart.{
  membership_key_eq, genealogy_key_eq, membership-ne-reverse, membership-ne-genealogy,
  reverse-ne-genealogy,
}
use linea_server.Platform.Store.{
  decode_blob, decode_item, put, put_genealogy, get_genealogy, delete_genealogy, put_both,
  put_membership, get_membership, stamp_membership, delete_membership,
}
use linea_server.Platform.Store.Inversion.{put_membership-DidPut}

pub role_in_range : (r : ℕ) → is_valid_role r ≡ true → r < 256
role_in_range r h = ground arith

visibility_in_range : (v : ℕ) → is_valid_visibility v ≡ true → v < 256
visibility_in_range v h = ground arith

module _ ⦃B : Badger⦄ where
  pub put_genealogy-did :
      (g : Genealogy) (db : Db) {db' : Db}
      → put_genealogy g db ≡ ok db'
      → (is_valid_visibility g.visibility ≡ true)
        × (put (genealogy_key g.id) (marshal_genealogy g) db ≡ ok db')
  unfolding put_genealogy
  put_genealogy-did g db h = ground arith

  get-put_both :
      (m : Membership) (db : Db) {db' : Db} (gid sub : String)
      → IsId m.genealogy_id
      → IsId gid
      → is_valid_role m.role ≡ true
      → put_both m db ≡ ok db'
      → get_membership gid sub db' ≡ (
          if str_eq m.genealogy_id gid && str_eq m.subject sub
          then ok m
          else get_membership gid sub db)
  unfolding put_both get_membership
  get-put_both m db gid sub hm hg hr h = rw (B.get_commit _ db (membership_key gid sub) h) (
      ground (
        arith,
        membership_key_eq m.genealogy_id gid m.subject sub hm hg,
        str_eq_of_ne _ _ (λ e. membership-ne-reverse gid sub m.subject m.genealogy_id (sym e)),
        unmarshal-marshal_membership m (role_in_range m.role hr),
      ))

  -- After PutMembership, GetMembership gives the stored record, with its time stamped, for that
  -- pair, and for every other pair what it gave before; ids hold no "/".
  pub get-put_membership :
      (now : ℤ) (m : Membership) (db : Db) {db' : Db} (gid sub : String)
      → IsId m.genealogy_id
      → IsId gid
      → put_membership now m db ≡ ok db'
      → get_membership gid sub db' ≡ (
          if str_eq m.genealogy_id gid && str_eq m.subject sub
          then ok (stamp_membership now m)
          else get_membership gid sub db)
  unfolding stamp_membership
  get-put_membership now m db gid sub hm hg h =
      let did = put_membership-DidPut now m db h in
      get-put_both (stamp_membership now m) db gid sub hm hg did.role did.commit

  -- After DeleteMembership, GetMembership finds nothing for that pair, and for every other pair
  -- gives what it gave before; ids hold no "/".
  pub get-delete_membership :
      (a s : String) (db : Db) {db' : Db} (gid sub : String)
      → IsId a
      → IsId gid
      → delete_membership a s db ≡ ok db'
      → get_membership gid sub db'
        ≡ (if str_eq a gid && str_eq s sub then err not_found else get_membership gid sub db)
  unfolding delete_membership get_membership
  get-delete_membership a s db gid sub ha hg h = rw (B.get_commit _ db (membership_key gid sub) h) (
      ground (
        arith,
        membership_key_eq a gid s sub ha hg,
        str_eq_of_ne _ _ (λ e. membership-ne-reverse gid sub s a (sym e)),
      ))

  pub get_genealogy-put_membership :
      (now : ℤ) (m : Membership) (db : Db) {db' : Db} (gid : String)
      → put_membership now m db ≡ ok db'
      → get_genealogy gid db' ≡ get_genealogy gid db
  unfolding get_genealogy put_both
  get_genealogy-put_membership now m db gid h =
      let w = stamp_membership now m in
      rw (B.get_commit _ db (genealogy_key gid) (put_membership-DidPut now m db h).commit) (
        ground (
          arith,
          str_eq_of_ne _ _ (membership-ne-genealogy w.genealogy_id w.subject gid),
          str_eq_of_ne _ _ (reverse-ne-genealogy w.subject w.genealogy_id gid),
        ))

  pub get_genealogy-delete_membership :
      (a s : String) (db : Db) {db' : Db} (gid : String)
      → delete_membership a s db ≡ ok db'
      → get_genealogy gid db' ≡ get_genealogy gid db
  unfolding get_genealogy delete_membership
  get_genealogy-delete_membership a s db gid h = rw (B.get_commit _ db (genealogy_key gid) h) (
      ground (
        arith,
        str_eq_of_ne _ _ (membership-ne-genealogy a s gid),
        str_eq_of_ne _ _ (reverse-ne-genealogy s a gid),
      ))

  pub get-put_genealogy :
      (g : Genealogy) (db : Db) {db' : Db} (id : String)
      → put_genealogy g db ≡ ok db'
      → get_genealogy id db' ≡ (if str_eq g.id id then ok g else get_genealogy id db)
  get-put_genealogy g db id h =
      let did = put_genealogy-did g db h in
      unfold get_genealogy put in
      rw (B.get_commit _ db (genealogy_key id) did.1) (
        ground (
          arith,
          genealogy_key_eq g.id id,
          unmarshal-marshal_genealogy g (visibility_in_range g.visibility did.0),
        ))

  pub get_membership-put_genealogy :
      (g : Genealogy) (db : Db) {db' : Db} (gid sub : String)
      → put_genealogy g db ≡ ok db'
      → get_membership gid sub db' ≡ get_membership gid sub db
  get_membership-put_genealogy g db gid sub h =
      let did = put_genealogy-did g db h in
      unfold get_membership put in
      rw (B.get_commit _ db (membership_key gid sub) did.1)
        (ground (arith, str_eq_of_ne _ _ (λ e. membership-ne-genealogy gid sub g.id (sym e))))

  pub get-delete_genealogy :
      (a : String) (db : Db) {db' : Db} (id : String)
      → delete_genealogy a db ≡ ok db'
      → get_genealogy id db' ≡ (if str_eq a id then err not_found else get_genealogy id db)
  unfolding delete_genealogy get_genealogy
  get-delete_genealogy a db id h =
      rw (B.get_commit _ db (genealogy_key id) h) (ground (arith, genealogy_key_eq a id))

  pub get_membership-delete_genealogy :
      (a : String) (db : Db) {db' : Db} (gid sub : String)
      → delete_genealogy a db ≡ ok db'
      → get_membership gid sub db' ≡ get_membership gid sub db
  unfolding delete_genealogy get_membership
  get_membership-delete_genealogy a db gid sub h =
      rw (B.get_commit _ db (membership_key gid sub) h)
        (ground (arith, str_eq_of_ne _ _ (λ e. membership-ne-genealogy gid sub a (sym e))))

  -- A membership that is read is the one under its key.
  pub get_membership-read :
      (gid sub : String) (db : Db) (v : Blob) (m : Membership)
      → B.get db (membership_key gid sub) ≡ ok (some v)
      → decode_blob unmarshal_membership v ≡ ok m
      → get_membership gid sub db ≡ ok m
  unfolding get_membership decode_item
  get_membership-read gid sub db v m h d = ground arith
