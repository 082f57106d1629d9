-- ===== src/Platform/Badger.antt =====
-- The embedded key-value store under internal/platform (github.com/dgraph-io/badger/v4): an
-- interface with the documented behaviour that the platform store relies on. A value is what the
-- server writes, a JSON document or raw bytes.
use linea_server.Prelude.{
  ◌≡◌, String, str_eq, true, Option, none, some, List, [], ◌∷◌, ℕ, Elem, IsDistinct, has_prefix,
  if◌then◌else◌,
}
use linea_server.Result.{Result, ok}
use linea_server.Platform.Json.{Json}

pub data Blob : Type 0 where
  json : Json → Blob
  bytes : List ℕ → Blob

pub data Write : Type 0 where
  set : String → Blob → Write
  delete : String → Write

-- What a read of `k` gives after the writes of a transaction, if it gave `r` before them.
abbrev pub after : List Write → String → Result (Option Blob) → Result (Option Blob)
after [] k r = r
after (set j v ∷ ws) k r = after ws k (if str_eq j k then ok (some v) else r)
after (delete j ∷ ws) k r = after ws k (if str_eq j k then ok none else r)

-- `get` is `Txn.Get` and `Item.Value` in a read transaction, `none` for `ErrKeyNotFound`; `scan` is
-- an iterator with a prefix, run to its end; `commit` is `DB.Update` with the writes of its function.
pub record Badger : Type 1 where
  pub Db : Type 0
  pub get : Db → String → Result (Option Blob)
  pub scan : Db → String → Result (List (String × Blob))
  pub commit : List Write → Db → Result Db
  -- A transaction that commits has all its writes and changes no other key.
  pub get_commit :
      (ws : List Write) (db : Db) {db' : Db} (k : String)
      → commit ws db ≡ ok db'
      → get db' k ≡ after ws k (get db k)
  -- An iterator visits the keys with the prefix, each once, with their values.
  pub scan_sound :
      (db : Db) (p : String) {kvs : List (String × Blob)} (k : String) (v : Blob)
      → scan db p ≡ ok kvs
      → Elem (k, v) kvs
      → (has_prefix p k ≡ true) × (get db k ≡ ok (some v))
  pub scan_complete :
      (db : Db) (p : String) {kvs : List (String × Blob)} (k : String) (v : Blob)
      → scan db p ≡ ok kvs
      → has_prefix p k ≡ true
      → get db k ≡ ok (some v)
      → Elem (k, v) kvs
  pub scan_distinct :
      (db : Db) (p : String) {kvs : List (String × Blob)} → scan db p ≡ ok kvs → IsDistinct kvs

abbrev pub Db : ⦃B : Badger⦄ → Type 0
Db ⦃B⦄ = B.Db
