-- ===== src/Platform/Counters.antt =====
-- internal/platform/counters.go: the counters, eight bytes each, most significant byte first.
pub mod Laws
use Prim.Native.Nat.{◌^◌}
use linea_server.Prelude.{
  ℕ, suc, ◌+◌, ◌-◌, ◌*◌, ◌/◌, ◌%◌, String, Option, none, some, List, [], ◌∷◌, ltb, if◌then◌else◌,
}
use linea_server.Result.{Result, ok, err, plain, bind_result}
use linea_server.Platform.Types.{ℤ, pos, negsuc}
use linea_server.Platform.Badger.{Badger, Db, Blob, json, bytes, set}
use linea_server.Platform.Keys.{user_private_gen_count_key, person_count_key}

abbrev pub u64_mod : ℕ
u64_mod = 2 ^ 64

-- `binary.BigEndian.PutUint64`
unfoldable pub put_uint64 : ℕ → List ℕ
put_uint64 n =
    n / 2 ^ 56 % 256
    ∷ n / 2 ^ 48 % 256
    ∷ n / 2 ^ 40 % 256
    ∷ n / 2 ^ 32 % 256
    ∷ n / 2 ^ 24 % 256
    ∷ n / 2 ^ 16 % 256
    ∷ n / 2 ^ 8 % 256
    ∷ n % 256
    ∷ []

-- `binary.BigEndian.Uint64`, after the test on the length.
unfoldable pub read_uint64 : List ℕ → Result ℕ
read_uint64 (a ∷ b ∷ c ∷ d ∷ e ∷ f ∷ g ∷ h ∷ []) =
    ok (a * 2 ^ 56 + b * 2 ^ 48 + c * 2 ^ 40 + d * 2 ^ 32 + e * 2 ^ 24 + f * 2 ^ 16 + g * 2 ^ 8 + h)
read_uint64 _ = err (plain "platform: corrupt counter")

-- The new value of a counter: it stops at zero, and wraps at 2 ^ 64.
unfoldable pub add_delta : ℕ → ℤ → ℕ
add_delta cur (pos d) = (cur + d) % u64_mod
add_delta cur (negsuc d) = if ltb cur (suc d) then 0 else cur - suc d

-- What `readCounterTx` makes of the transaction's read. No JSON document of the server is eight
-- bytes long.
unfoldable pub counter_item : Result (Option Blob) → Result ℕ
unfolding read_uint64
counter_item (err e) = err e
counter_item (ok none) = ok 0
counter_item (ok (some (json doc))) = err (plain "platform: corrupt counter")
counter_item (ok (some (bytes bs))) = read_uint64 bs

module _ ⦃B : Badger⦄ where
  unfoldable pub read_counter : String → Db → Result ℕ
  unfolding counter_item
  read_counter k db = counter_item (B.get db k)

  -- One transaction, under the counters' mutex: read, add, write. The new value comes back.
  unfoldable pub inc_counter : String → ℤ → Db → Result (ℕ × Db)
  unfolding read_counter add_delta put_uint64
  inc_counter k delta db = bind_result (read_counter k db) λ cur.
      let new = add_delta cur delta in
      bind_result (B.commit (set k (bytes (put_uint64 new)) ∷ []) db) (λ db'. ok (new, db'))

  unfoldable pub inc_user_private_gen_count : String → ℤ → Db → Result (ℕ × Db)
  unfolding inc_counter
  inc_user_private_gen_count sub = inc_counter (user_private_gen_count_key sub)

  unfoldable pub get_user_private_gen_count : String → Db → Result ℕ
  unfolding read_counter
  get_user_private_gen_count sub = read_counter (user_private_gen_count_key sub)

  unfoldable pub inc_person_count : String → ℤ → Db → Result (ℕ × Db)
  unfolding inc_counter
  inc_person_count gid = inc_counter (person_count_key gid)

  unfoldable pub get_person_count : String → Db → Result ℕ
  unfolding read_counter
  get_person_count gid = read_counter (person_count_key gid)

  unfoldable pub set_person_count : String → ℕ → Db → Result Db
  unfolding put_uint64
  set_person_count gid n db = B.commit (set (person_count_key gid) (bytes (put_uint64 n)) ∷ []) db
