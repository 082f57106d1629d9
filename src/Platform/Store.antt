-- ===== src/Platform/Store.antt =====
-- internal/platform/store.go over the `Badger` interface. A read gives its result; a write gives
-- the database after its transaction, and one that fails leaves the database as it was.
pub mod Inversion
pub mod Lookup
pub mod Indexed
pub mod WellKeyed
pub mod Prefixes
pub mod Iterate
use linea_server.Prelude.{
  ◌≡◌, String, str_eq, Bool, true, false, ◌||◌, not, Option, none, some, List, [], ◌∷◌,
  if◌then◌else◌,
}
use linea_server.Result.{Result, ok, err, Error, not_found, plain, bind_result}
use linea_server.Platform.Types.{
  ℤ, is_zero, is_valid_visibility, is_valid_role, User, Genealogy, Membership, Ban,
}
use linea_server.Platform.Json.{
  Json, type_error, marshal_user, unmarshal_user, marshal_genealogy, unmarshal_genealogy,
  marshal_membership, unmarshal_membership, marshal_ban, unmarshal_ban,
}
use linea_server.Platform.Badger.{Badger, Db, Blob, json, bytes, Write, set, delete}
use linea_server.Platform.Keys.{
  user_key, genealogy_key, membership_key, reverse_membership_key, ban_key, genealogies_prefix,
  members_prefix, memberships_prefix,
}

-- `json.Unmarshal` of a stored value; raw bytes are no JSON document.
unfoldable pub decode_blob : {A : Type 0} → (Json → Result A) → Blob → Result A
decode_blob unmarshal (json doc) = unmarshal doc
decode_blob unmarshal (bytes bs) = err type_error

-- What `Store.get` makes of the transaction's read.
unfoldable pub decode_item : {A : Type 0} → (Json → Result A) → Result (Option Blob) → Result A
unfolding decode_blob
decode_item unmarshal (err e) = err e
decode_item unmarshal (ok none) = err not_found
decode_item unmarshal (ok (some blob)) = decode_blob unmarshal blob

-- The iteration of `scanPrefix`: `decode` runs on each value, until it fails or says to stop.
unfoldable pub iterate :
    {S : Type 0} → (Blob → S → Result (S × Bool)) → List (String × Blob) → S → Result S
iterate decode [] s = ok s
iterate {S} decode ((k, v) ∷ kvs) s = elim (decode v s) [
  | err e ↦ err e
  | ok r ↦ let (s', cont) = r in let rest = iterate decode kvs s' in if cont then rest else ok s'
]

-- The function that the `Iterate` methods hand to `scanPrefix`.
unfoldable pub yield_record :
    {A S : Type 0} → (Json → Result A) → (A → S → S × Bool) → Blob → S → Result (S × Bool)
unfolding decode_blob
yield_record unmarshal yield blob s = bind_result (decode_blob unmarshal blob) (λ a. ok (yield a s))

-- `if m.GrantedAt == 0 { m.GrantedAt = Now() }`
unfoldable pub stamp_membership : ℤ → Membership → Membership
stamp_membership now m = record m {
  granted_at = if is_zero m.granted_at then now else m.granted_at;
}

-- What `IsBanned` makes of the read.
banned_from : Result Ban → Result Bool
banned_from (ok b) = ok true
banned_from (err not_found) = ok false
banned_from (err e) = err e

module _ ⦃B : Badger⦄ where
  -- ----- low-level helpers -----

  unfoldable pub put : String → Json → Db → Result Db
  put k doc db = B.commit (set k (json doc) ∷ []) db

  unfoldable pub get : {A : Type 0} → (Json → Result A) → String → Db → Result A
  unfolding decode_item
  get unmarshal k db = decode_item unmarshal (B.get db k)

  unfoldable pub scan_prefix :
      {S : Type 0} → String → (Blob → S → Result (S × Bool)) → Db → S → Result S
  unfolding iterate
  scan_prefix prefix decode db s = bind_result (B.scan db prefix) (λ kvs. iterate decode kvs s)

  -- ----- User -----

  unfoldable pub put_user : User → Db → Result Db
  unfolding put
  put_user u db =
      if str_eq u.subject ""
      then err (plain "platform: user.Subject required")
      else put (user_key u.subject) (marshal_user u) db

  unfoldable pub get_user : String → Db → Result User
  unfolding get
  get_user sub = get unmarshal_user (user_key sub)

  create_user : String → String → ℤ → Db → Result (User × Db)
  unfolding put_user
  create_user sub email now db =
      let u : User = record { subject = sub; email = email; created_at = now; suspended = false } in
      bind_result (put_user u db) (λ db'. ok (u, db'))

  ensure_from : Result User → String → String → ℤ → Db → Result (User × Db)
  unfolding create_user
  ensure_from (ok existing) sub email now db = ok (existing, db)
  ensure_from (err not_found) sub email now db = create_user sub email now db
  ensure_from (err e) sub email now db = err e

  unfoldable pub ensure_user : String → String → ℤ → Db → Result (User × Db)
  unfolding ensure_from get_user
  ensure_user sub email now db = ensure_from (get_user sub db) sub email now db

  -- ----- Genealogy -----

  unfoldable pub put_genealogy : Genealogy → Db → Result Db
  unfolding put
  put_genealogy g db =
      if str_eq g.id ""
      then err (plain "platform: genealogy.ID required")
      else if not (is_valid_visibility g.visibility)
      then err (plain "platform: genealogy.Visibility invalid")
      else put (genealogy_key g.id) (marshal_genealogy g) db

  unfoldable pub get_genealogy : String → Db → Result Genealogy
  unfolding get
  get_genealogy id = get unmarshal_genealogy (genealogy_key id)

  unfoldable pub delete_genealogy : String → Db → Result Db
  delete_genealogy id db = B.commit (delete (genealogy_key id) ∷ []) db

  unfoldable pub iterate_genealogies : {S : Type 0} → (Genealogy → S → S × Bool) → Db → S → Result S
  unfolding scan_prefix yield_record
  iterate_genealogies yield =
      scan_prefix genealogies_prefix (yield_record unmarshal_genealogy yield)

  -- ----- Membership -----

  unfoldable pub put_both : Membership → Db → Result Db
  put_both m db =
      B.commit
        (set (membership_key m.genealogy_id m.subject) (json (marshal_membership m))
          ∷ set (reverse_membership_key m.subject m.genealogy_id) (json (marshal_membership m))
          ∷ [])
        db

  unfoldable pub put_membership : ℤ → Membership → Db → Result Db
  unfolding put_both stamp_membership
  put_membership now m db =
      if str_eq m.subject "" || str_eq m.genealogy_id ""
      then err (plain "platform: membership requires Subject and GenealogyID")
      else if not (is_valid_role m.role)
      then err (plain "platform: membership.Role invalid")
      else put_both (stamp_membership now m) db

  unfoldable pub get_membership : String → String → Db → Result Membership
  unfolding get
  get_membership gid sub = get unmarshal_membership (membership_key gid sub)

  unfoldable pub delete_membership : String → String → Db → Result Db
  delete_membership gid sub db =
      B.commit (delete (membership_key gid sub) ∷ delete (reverse_membership_key sub gid) ∷ []) db

  unfoldable pub iterate_memberships_for_genealogy :
      {S : Type 0} → String → (Membership → S → S × Bool) → Db → S → Result S
  unfolding scan_prefix yield_record
  iterate_memberships_for_genealogy gid yield =
      scan_prefix (members_prefix gid) (yield_record unmarshal_membership yield)

  unfoldable pub iterate_memberships_for_user :
      {S : Type 0} → String → (Membership → S → S × Bool) → Db → S → Result S
  unfolding scan_prefix yield_record
  iterate_memberships_for_user sub yield =
      scan_prefix (memberships_prefix sub) (yield_record unmarshal_membership yield)

  -- ----- Ban -----

  unfoldable pub put_ban : ℤ → Ban → Db → Result Db
  unfolding put
  put_ban now b db =
      if str_eq b.subject "" || str_eq b.genealogy_id ""
      then err (plain "platform: ban requires Subject and GenealogyID")
      else let stamped = record b { at = if is_zero b.at then now else b.at } in
        put (ban_key b.genealogy_id b.subject) (marshal_ban stamped) db

  unfoldable pub get_ban : String → String → Db → Result Ban
  unfolding get
  get_ban gid sub = get unmarshal_ban (ban_key gid sub)

  unfoldable pub delete_ban : String → String → Db → Result Db
  delete_ban gid sub db = B.commit (delete (ban_key gid sub) ∷ []) db

  unfoldable pub is_banned : String → String → Db → Result Bool
  unfolding banned_from get_ban
  is_banned gid sub db = banned_from (get_ban gid sub db)
