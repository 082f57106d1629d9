-- ===== src/Quotas/Bounds.antt =====
-- A check that passes leaves room for one more.
use linea_server.Prelude.{ℕ, ◌+◌, ◌%◌, ◌≤◌, ◌<◌, ◌≡◌, ◌≢◌, inl, inr, String, eq_refl, arith}
use linea_server.Result.{ok, ok-inj, Result-cases, bind_result}
use linea_server.Prelude.Int.{◌+ℤ◌, pos_part}
use linea_server.Platform.Types.{pos}
use linea_server.Platform.Badger.{Badger, Db}
use linea_server.Platform.Keys.{person_count_key, user_private_gen_count_key}
use linea_server.Platform.Counters.{
  u64_mod, read_counter, inc_counter, inc_person_count, get_person_count,
  inc_user_private_gen_count, get_user_private_gen_count,
}
use linea_server.Platform.Counters.Laws.{read-inc_counter}
use linea_server.Quotas.{
  Limits, check_room, check_create_person, check_create_private_genealogy, inc_person,
  inc_private_genealogy,
}

module _ ⦃B : Badger⦄ where
  check_room_lem : (max cur : ℕ) → check_room max cur ≡ ok tt → cur < max
  unfolding check_room
  check_room_lem max cur h = ground arith

  add_one : (cur : ℕ) → 1 + cur < u64_mod → pos_part (pos cur +ℤ pos 1) % u64_mod ≡ 1 + cur
  unfolding ◌+ℤ◌
  add_one cur h = ground arith

  -- A counter that is raised by one reads one more.
  raised :
      (k : String) (db : Db) {db' : Db} (cur : ℕ)
      → read_counter k db ≡ ok cur
      → 1 + cur < u64_mod
      → bind_result (inc_counter k (pos 1) db) (λ r. ok r.1) ≡ ok db'
      → read_counter k db' ≡ ok (1 + cur)
  raised k db cur r h c = elim (Result-cases (inc_counter k (pos 1) db)) [
    | inr (e, p) ↦ absurd (cc (rw p at c))
    | inl ((n, db1), p) ↦
        let (new, read) = read-inc_counter k (pos 1) db k cur r (omega arith) p in
        ground (arith, new, read, eq_refl k, add_one cur h, ok-inj (rw p at c))
  ]

  -- When the check for a person passes, under a limit that fits the counter, the person that is
  -- then counted is added to the counter and keeps the genealogy within the limit.
  pub person_quota :
      (limits : Limits) (gid : String) (db : Db) {db' : Db} (cur : ℕ)
      → limits.max_persons_per_genealogy ≢ 0
      → limits.max_persons_per_genealogy < u64_mod
      → get_person_count gid db ≡ ok cur
      → check_create_person limits gid db ≡ ok tt
      → inc_person gid db ≡ ok db'
      → (get_person_count gid db' ≡ ok (1 + cur)) × (1 + cur ≤ limits.max_persons_per_genealogy)
  unfolding check_create_person inc_person inc_person_count get_person_count
  person_quota limits gid db cur limited small r check c =
      let room : cur < limits.max_persons_per_genealogy =
        check_room_lem limits.max_persons_per_genealogy cur (ground arith) in
      (raised (person_count_key gid) db cur r (omega arith) c, omega arith)

  -- When the check for a private genealogy passes, under a limit that fits the counter, the one
  -- that is then counted is added to the counter and keeps the user within the limit.
  pub private_quota :
      (limits : Limits) (sub : String) (db : Db) {db' : Db} (cur : ℕ)
      → limits.max_private_genealogies_per_user ≢ 0
      → limits.max_private_genealogies_per_user < u64_mod
      → get_user_private_gen_count sub db ≡ ok cur
      → check_create_private_genealogy limits sub db ≡ ok tt
      → inc_private_genealogy sub db ≡ ok db'
      → (get_user_private_gen_count sub db' ≡ ok (1 + cur))
        × (1 + cur ≤ limits.max_private_genealogies_per_user)
  unfolding check_create_private_genealogy inc_private_genealogy inc_user_private_gen_count
      get_user_private_gen_count
  private_quota limits sub db cur limited small r check c =
      let room : cur < limits.max_private_genealogies_per_user =
        check_room_lem limits.max_private_genealogies_per_user cur (ground arith) in
      (raised (user_private_gen_count_key sub) db cur r (omega arith) c, omega arith)
