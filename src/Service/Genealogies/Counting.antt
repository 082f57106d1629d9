-- ===== src/Service/Genealogies/Counting.antt =====
-- countOwners of internal/service/genealogies.go: what a count of two or more says of the rows.
use linea_server.Prelude.{
  ℕ, suc, ◌<◌, ◌≡◌, ◌≢◌, refl, inl, inr, String, str_eq, eq_iff, eq_of_str_eq, Bool, List, [], ◌∷◌,
  Elem, All-Elem, IsDistinct, ◌==◌, arith, Bool-cases,
}
use linea_server.Result.{Result, ok, err, Error, Result-cases}
use linea_server.Platform.Types.{role_owner, Membership}
use linea_server.Platform.Json.{unmarshal_membership}
use linea_server.Platform.Badger.{Badger, Db, Blob}
use linea_server.Platform.Keys.{members_prefix}
use linea_server.Platform.Store.{
  decode_blob, iterate, yield_record, iterate_memberships_for_genealogy,
}
use linea_server.Service.Genealogies.{count_owner, count_owners}

-- A row of the scan that holds an owner.
pub record OwnerRow (kvs : List (String × Blob)) : Type 0 where
  pub k : String
  pub v : Blob
  pub m : Membership
  pub there : Elem (k, v) kvs
  pub decoded : decode_blob unmarshal_membership v ≡ ok m
  pub owner : m.role ≡ role_owner

abbrev below : {kvs : List (String × Blob)} (e : String × Blob) → OwnerRow kvs → OwnerRow (e ∷ kvs)
below e r = record {
  k = r.k;
  v = r.v;
  m = r.m;
  there = inr r.there;
  decoded = r.decoded;
  owner = r.owner;
}

abbrev pub counting : Blob → ℕ → Result (ℕ × Bool)
counting = yield_record unmarshal_membership count_owner

-- The rest of a count, once its first row is decoded.
count_rest :
    (k : String) (v : Blob) (kvs : List (String × Blob)) (n total : ℕ) (m : Membership)
    → decode_blob unmarshal_membership v ≡ ok m
    → iterate counting ((k, v) ∷ kvs) n ≡ ok total
    → iterate counting kvs (count_owner m n).0 ≡ ok total
unfolding iterate yield_record count_owner
count_rest k v kvs n total m d h = ground arith

count_fails :
    (k : String) (v : Blob) (kvs : List (String × Blob)) (n total : ℕ) (e : Error)
    → decode_blob unmarshal_membership v ≡ err e
    → iterate counting ((k, v) ∷ kvs) n ≢ ok total
unfolding iterate yield_record
count_fails k v kvs n total e d h = ground arith

find_owner :
    (kvs : List (String × Blob)) (n total : ℕ)
    → iterate counting kvs n ≡ ok total
    → n < total
    → OwnerRow kvs
find_owner [] n total h lt = absurd (unfold iterate in ground arith)
find_owner ((k, v) ∷ kvs) n total h lt = elim (Result-cases (decode_blob unmarshal_membership v)) [
  | inr (e, d) ↦ absurd (count_fails k v kvs n total e d h)
  | inl (m, d) ↦ elim (Bool-cases (m.role == role_owner)) [
    | inl is_owner ↦ record {
      k = k;
      v = v;
      m = m;
      there = inl refl;
      decoded = d;
      owner = ground arith;
    }
    | inr no_owner ↦
        below (k, v)
          (find_owner kvs (count_owner m n).0 total (count_rest k v kvs n total m d h)
            (unfold count_owner in ground arith))
  ]
]

-- Two owners are counted in two rows, so one of them has another key than `j`.
pub find_other_owner :
    (j : String) (kvs : List (String × Blob)) (n total : ℕ)
    → iterate counting kvs n ≡ ok total
    → suc n < total
    → IsDistinct kvs
    → (r : OwnerRow kvs) × (r.k ≢ j)
find_other_owner j [] n total h lt d = absurd (unfold iterate in ground arith)
find_other_owner j ((k, v) ∷ kvs) n total h lt distinct =
    elim (Result-cases (decode_blob unmarshal_membership v)) [
      | inr (e, d) ↦ absurd (count_fails k v kvs n total e d h)
      | inl (m, d) ↦
          let rest = count_rest k v kvs n total m d h in
          elim (Bool-cases (m.role == role_owner)) [
            | inr no_owner ↦
                let (r, ne) =
                  find_other_owner j kvs (count_owner m n).0 total rest
                    (unfold count_owner in ground arith) distinct.1 in
                (below (k, v) r, ne)
            | inl is_owner ↦ elim (Bool-cases (str_eq k j)) [
              | inr other ↦ (
                record { k = k; v = v; m = m; there = inl refl; decoded = d; owner = ground arith },
                ground (arith, eq_iff k j),
              )
              | inl same ↦
                  let r =
                    find_owner kvs (count_owner m n).0 total rest
                      (unfold count_owner in ground arith) in
                  (
                    below (k, v) r,
                    rw (← eq_of_str_eq k j same) (
                        All-Elem (λ (e : String × Blob). e.0 ≢ k) (r.k, r.v) kvs distinct.0
                          r.there),
                  )
            ]
          ]
    ]

module _ ⦃B : Badger⦄ where
  pub counted_rows :
      (gid : String) (db : Db) (n : ℕ)
      → count_owners gid db ≡ ok n
      → (kvs : List (String × Blob)) × (B.scan db (members_prefix gid) ≡ ok kvs)
        × (iterate counting kvs 0 ≡ ok n)
  unfolding count_owners iterate_memberships_for_genealogy
  counted_rows gid db n h = elim (Result-cases (B.scan db (members_prefix gid))) [
    | inl (kvs, p) ↦ (kvs, p, ground arith)
    | inr (e, p) ↦ absurd (ground arith)
  ]
