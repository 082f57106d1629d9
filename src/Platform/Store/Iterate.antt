-- ===== src/Platform/Store/Iterate.antt =====
-- What an iteration of scanPrefix that does not fail has done: it keeps what each step keeps, and,
-- if no step ends it, brings about what the step at one of the rows does.
use linea_server.Prelude.{
  ◌≡◌, refl, sym, subst, inl, inr, String, Bool, true, Option, none, some, List, [], ◌∷◌, Elem,
  Bool-cases, if◌then◌else◌,
}
use linea_server.Result.{Result, ok, ok-inj, err, Result-cases}
use linea_server.Platform.Json.{Json}
use linea_server.Platform.Badger.{Badger, Db, Blob}
use linea_server.Platform.Store.{decode_blob, decode_item, iterate, yield_record, get, scan_prefix}

module _ {S : Type 0} (decode : Blob → S → Result (S × Bool)) (P : S → Type 0) where
  -- The rest of an iteration after a step that does not end it.
  abbrev KeptBy : Type 0
  KeptBy = (v : Blob) (s : S) (r : S × Bool) → decode v s ≡ ok r → P s → P r.0

  iterate_step :
      (k : String) (v : Blob) (kvs : List (String × Blob)) (s t : S)
      → iterate decode ((k, v) ∷ kvs) s ≡ ok t
      → (r : S × Bool) × (decode v s ≡ ok r)
        × ((if r.1 then iterate decode kvs r.0 else ok r.0) ≡ ok t)
  unfolding iterate
  iterate_step k v kvs s t h = elim (Result-cases (decode v s)) [
    | inl (r, p) ↦ (r, p, rw (iterate, p) at h)
    | inr (e, p) ↦ absurd (cc (rw (iterate, p) at h))
  ]

  pub iterate_keeps :
      (kvs : List (String × Blob)) (s t : S) → KeptBy → iterate decode kvs s ≡ ok t → P s → P t
  iterate_keeps [] s t keeps h p = let e : s ≡ t = unfold iterate in ok-inj h in subst P e p
  iterate_keeps ((k, v) ∷ kvs) s t keeps h p =
      let (r, d, rest) = iterate_step k v kvs s t h in
      let p' = keeps v s r d p in
      elim (Bool-cases r.1) [
        | inl goes ↦ iterate_keeps kvs r.0 t keeps (rw goes at rest) p'
        | inr ends ↦ subst P (ok-inj (rw ends at rest)) p'
      ]

  pub iterate_hits :
      (kvs : List (String × Blob)) (s t : S) (k : String) (v : Blob)
      → KeptBy
      → ((w : Blob) (x : S) (r : S × Bool) → decode w x ≡ ok r → r.1 ≡ true)
      → ((x : S) (r : S × Bool) → decode v x ≡ ok r → P r.0)
      → Elem (k, v) kvs
      → iterate decode kvs s ≡ ok t
      → P t
  iterate_hits [] s t k v keeps goes hits there h = absurd there
  iterate_hits ((j, w) ∷ kvs) s t k v keeps goes hits (inl same) h =
      let (r, d, rest) = iterate_step j w kvs s t h in
      let d' : decode v s ≡ ok r =
        subst (λ (e : String × Blob). decode e.1 s ≡ ok r) (sym same) d in
      iterate_keeps kvs r.0 t keeps (rw (goes w s r d) at rest) (hits s r d')
  iterate_hits ((j, w) ∷ kvs) s t k v keeps goes hits (inr later) h =
      let (r, d, rest) = iterate_step j w kvs s t h in
      iterate_hits kvs r.0 t k v keeps goes hits later (rw (goes w s r d) at rest)

-- A step has decoded its row and handed the record to the callback.
pub yielded :
    {A S : Type 0} (unmarshal : Json → Result A) (f : A → S → S × Bool) (v : Blob) (s : S)
    (r : S × Bool)
    → yield_record unmarshal f v s ≡ ok r
    → (a : A) × (decode_blob unmarshal v ≡ ok a) × (f a s ≡ r)
unfolding yield_record
yielded unmarshal f v s r h = elim (Result-cases (decode_blob unmarshal v)) [
  | inl (a, p) ↦ (a, p, ok-inj (rw p at h))
  | inr (e, p) ↦ absurd (cc (rw p at h))
]

module _ ⦃B : Badger⦄ where
  pub scanned :
      {S : Type 0} (prefix : String) (decode : Blob → S → Result (S × Bool)) (db : Db) (s t : S)
      → scan_prefix prefix decode db s ≡ ok t
      → (kvs : List (String × Blob)) × (B.scan db prefix ≡ ok kvs) × (iterate decode kvs s ≡ ok t)
  unfolding scan_prefix
  scanned prefix decode db s t h = elim (Result-cases (B.scan db prefix)) [
    | inl (kvs, p) ↦ (kvs, p, rw p at h)
    | inr (e, p) ↦ absurd (cc (rw p at h))
  ]

  -- A record that is read has been decoded from what stands under its key.
  pub read_row :
      {A : Type 0} (unmarshal : Json → Result A) (k : String) (db : Db) (a : A)
      → get unmarshal k db ≡ ok a
      → (v : Blob) × (B.get db k ≡ ok (some v)) × (decode_blob unmarshal v ≡ ok a)
  unfolding get decode_item
  read_row unmarshal k db a h = go (B.get db k) refl h
    where
      go :
          (r : Result (Option Blob))
          → B.get db k ≡ r
          → decode_item unmarshal r ≡ ok a
          → (v : Blob) × (B.get db k ≡ ok (some v)) × (decode_blob unmarshal v ≡ ok a)
      go (ok none) p d = absurd (cc (d))
      go (ok (some v)) p d = (v, p, d)
      go (err e) p d = absurd (cc (d))
