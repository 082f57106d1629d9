-- ===== src/Platform/Counters/Laws.antt =====
-- A counter is read back as it was written, and the others keep their values.
use linea_server.Prelude.{
  ℕ, suc, ◌<◌, ◌%◌, ◌≡◌, refl, ap, sym, ◌∙◌, subst, inl, inr, String, str_eq, if◌then◌else◌, [],
  ◌∷◌, arith, Bool-cases, ltb,
}
use linea_server.Result.{ok, ok-inj, Result-cases}
use linea_server.Prelude.Int.{◌+ℤ◌, pos_part}
use linea_server.Platform.Types.{ℤ, pos, negsuc}
use linea_server.Platform.Badger.{Badger, Db, bytes, set}
use linea_server.Platform.Counters.{
  u64_mod, put_uint64, read_uint64, add_delta, counter_item, read_counter, inc_counter,
}

read-put_uint64 : (n : ℕ) → n < u64_mod → read_uint64 (put_uint64 n) ≡ ok n
unfolding read_uint64 put_uint64
read-put_uint64 n h = ap ok (omega arith)

add_delta-lt : (cur : ℕ) (delta : ℤ) → cur < u64_mod → add_delta cur delta < u64_mod
unfolding add_delta
add_delta-lt cur (pos d) h = omega arith
add_delta-lt cur (negsuc d) h = elim (Bool-cases (ltb cur (suc d))) [
  | inl less ↦ rw less (omega arith)
  | inr more ↦ rw more (omega arith)
]

-- The sum as an integer, cut off below at zero and above at 2 ^ 64.
add_delta_lem :
    (cur : ℕ) (delta : ℤ)
    → cur < u64_mod
    → add_delta cur delta ≡ pos_part (pos cur +ℤ delta) % u64_mod
unfolding add_delta ◌+ℤ◌
add_delta_lem cur (pos d) h = ground arith
add_delta_lem cur (negsuc d) h = ground arith

module _ ⦃B : Badger⦄ where
  -- What a commit of a counter's new value leaves to read.
  read-commit :
      (k : String) (n : ℕ) (db : Db) {db' : Db} (j : String)
      → n < u64_mod
      → B.commit (set k (bytes (put_uint64 n)) ∷ []) db ≡ ok db'
      → read_counter j db' ≡ (if str_eq k j then ok n else read_counter j db)
  unfolding read_counter counter_item
  read-commit k n db j h c = elim (Bool-cases (str_eq k j)) [
    | inl same ↦ rw (same, B.get_commit _ db j c, same) (read-put_uint64 n h)
    | inr other ↦ rw (other, B.get_commit _ db j c, other) refl
  ]

  -- After a counter, whose value fits 64 bits, is changed, the new value comes back and is read:
  -- the integer sum of its old value and the change, 0 if that is negative, modulo 2^64; every
  -- other counter reads what it read before.
  pub read-inc_counter :
      (k : String) (delta : ℤ) (db : Db) {db' : Db} (j : String) (cur : ℕ) {n : ℕ}
      → read_counter k db ≡ ok cur
      → cur < u64_mod
      → inc_counter k delta db ≡ ok (n, db')
      → (n ≡ pos_part (pos cur +ℤ delta) % u64_mod)
        × (read_counter j db' ≡ (if str_eq k j then ok n else read_counter j db))
  unfolding inc_counter
  read-inc_counter k delta db {db'} j cur {n} r h c =
      elim (Result-cases (B.commit (set k (bytes (put_uint64 (add_delta cur delta))) ∷ []) db)) [
        | inr (e, p) ↦ absurd (cc (rw (r, p) at c))
        | inl (db1, p) ↦
            let e = ok-inj (rw (r, p) at c) in
            let same : add_delta cur delta ≡ n = ap (λ (x : ℕ × Db). x.0) e in
            (
              sym same ∙ add_delta_lem cur delta h,
              subst (λ m. read_counter j db' ≡ (if str_eq k j then ok m else read_counter j db))
                  same
                  (subst
                    (λ x.
                      read_counter j x
                      ≡ (if str_eq k j then ok (add_delta cur delta) else read_counter j db))
                    (ap (λ (x : ℕ × Db). x.1) e)
                    (read-commit k (add_delta cur delta) db j (add_delta-lt cur delta h) p)),
            )
      ]
