-- ===== src/Quotas/Untouched.antt =====
-- What internal/quotas counts stands under keys of its own.
use linea_server.Prelude.{
  ℕ, ◌≡◌, ap, sym, subst, str_eq_of_ne, String, inl, inr, [], ◌∷◌, arith, first_code,
}
use linea_server.Result.{ok, ok-inj, Result-cases}
use linea_server.Platform.Types.{ℤ, pos, negsuc, Genealogy, Membership}
use linea_server.Platform.Badger.{Badger, Db, Blob, bytes, set}
use linea_server.Platform.Keys.{
  genealogy_key, membership_key, reverse_membership_key, user_private_gen_count_key,
  person_count_key,
}
use linea_server.Platform.Store.{put, put_genealogy, put_both, put_membership, stamp_membership}
use linea_server.Platform.Store.Lookup.{put_genealogy-did}
use linea_server.Platform.Store.Inversion.{put_membership-DidPut}
use linea_server.Platform.Untouched.{Untouched, IsAside, set-Untouched}
use linea_server.Platform.Counters.{
  inc_counter, read_counter, put_uint64, add_delta, inc_user_private_gen_count, inc_person_count,
  get_user_private_gen_count,
}
use linea_server.Quotas.{inc_private_genealogy, dec_private_genealogy, inc_person}

pub user_count_key-IsAside : (s : String) → IsAside (user_private_gen_count_key s)
unfolding user_private_gen_count_key genealogy_key membership_key reverse_membership_key first_code
user_count_key-IsAside s = record {
  genealogy = λ gid e. absurd (omega (arith, ap first_code e));
  membership = λ gid sub e. absurd (omega (arith, ap first_code e));
  reverse = λ sub gid e. absurd (omega (arith, ap first_code e));
}

person_count_key-IsAside : (a : String) → IsAside (person_count_key a)
unfolding person_count_key genealogy_key membership_key reverse_membership_key first_code
person_count_key-IsAside a = record {
  genealogy = λ gid e. absurd (omega (arith, ap first_code e));
  membership = λ gid sub e. absurd (omega (arith, ap first_code e));
  reverse = λ sub gid e. absurd (omega (arith, ap first_code e));
}

module _ ⦃B : Badger⦄ where
  inc_counter-commit :
      (k : String) (delta : ℤ) (db : Db) {r : ℕ × Db}
      → inc_counter k delta db ≡ ok r
      → (v : Blob) × (B.commit (set k v ∷ []) db ≡ ok r.1)
  unfolding inc_counter
  inc_counter-commit k delta db h = elim (Result-cases (read_counter k db)) [
    | inl (cur, p) ↦ (bytes (put_uint64 (add_delta cur delta)), ground arith)
    | inr (e, p) ↦ absurd (ground arith)
  ]

  inc_counter-Untouched :
      (k : String) (delta : ℤ) (db : Db) {r : ℕ × Db}
      → IsAside k
      → inc_counter k delta db ≡ ok r
      → Untouched db r.1
  inc_counter-Untouched k delta db aside h =
      let (v, c) = inc_counter-commit k delta db h in set-Untouched k v db aside c

  pub inc_private-Untouched :
      (sub : String) (db : Db) {db' : Db} → inc_private_genealogy sub db ≡ ok db' → Untouched db db'
  unfolding inc_private_genealogy inc_user_private_gen_count
  inc_private-Untouched sub db {db'} h =
      elim (Result-cases (inc_counter (user_private_gen_count_key sub) (pos 1) db)) [
        | inl (r, p) ↦
            subst (Untouched db) (ok-inj (rw p at h))
              (inc_counter-Untouched _ (pos 1) db (user_count_key-IsAside sub) p)
        | inr (e, p) ↦ absurd (cc (rw p at h))
      ]

  pub dec_private-Untouched :
      (sub : String) (db : Db) {db' : Db} → dec_private_genealogy sub db ≡ ok db' → Untouched db db'
  unfolding dec_private_genealogy inc_user_private_gen_count
  dec_private-Untouched sub db {db'} h =
      elim (Result-cases (inc_counter (user_private_gen_count_key sub) (negsuc 0) db)) [
        | inl (r, p) ↦
            subst (Untouched db) (ok-inj (rw p at h))
              (inc_counter-Untouched _ (negsuc 0) db (user_count_key-IsAside sub) p)
        | inr (e, p) ↦ absurd (cc (rw p at h))
      ]

  pub inc_person-Untouched :
      (gid : String) (db : Db) {db' : Db} → inc_person gid db ≡ ok db' → Untouched db db'
  unfolding inc_person inc_person_count
  inc_person-Untouched gid db {db'} h =
      elim (Result-cases (inc_counter (person_count_key gid) (pos 1) db)) [
        | inl (r, p) ↦
            subst (Untouched db) (ok-inj (rw p at h))
              (inc_counter-Untouched _ (pos 1) db (person_count_key-IsAside gid) p)
        | inr (e, p) ↦ absurd (cc (rw p at h))
      ]

  -- The count is not read where genealogies and memberships are written.
  pub count-put_genealogy :
      (sub : String) (g : Genealogy) (db : Db) {db' : Db}
      → put_genealogy g db ≡ ok db'
      → get_user_private_gen_count sub db' ≡ get_user_private_gen_count sub db
  unfolding get_user_private_gen_count read_counter put
  count-put_genealogy sub g db h =
      let k = user_private_gen_count_key sub in
      let aside = user_count_key-IsAside sub in
      rw (B.get_commit _ db k (put_genealogy-did g db h).1)
        (ground (arith, str_eq_of_ne _ _ (λ e. aside.genealogy g.id (sym e))))

  pub count-put_membership :
      (sub : String) (now : ℤ) (m : Membership) (db : Db) {db' : Db}
      → put_membership now m db ≡ ok db'
      → get_user_private_gen_count sub db' ≡ get_user_private_gen_count sub db
  unfolding get_user_private_gen_count read_counter put_both stamp_membership
  count-put_membership sub now m db h =
      let k = user_private_gen_count_key sub in
      let aside = user_count_key-IsAside sub in
      rw (B.get_commit _ db k (put_membership-DidPut now m db h).commit) (
        ground (
          arith,
          str_eq_of_ne _ _ (λ e. aside.membership m.genealogy_id m.subject (sym e)),
          str_eq_of_ne _ _ (λ e. aside.reverse m.subject m.genealogy_id (sym e)),
        ))
