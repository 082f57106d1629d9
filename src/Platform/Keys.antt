-- ===== src/Platform/Keys.antt =====
-- The key helpers of internal/platform/store.go and counters.go. A membership key can be taken
-- apart when the genealogy's id holds no "/", as a UUID does not.
pub mod Apart
use linea_server.Prelude.{
  ◌≡◌, ◌≢◌, refl, ap, ◌∙◌, sym, String, false, true, arith, ◌⧺◌, ⧺_assoc, has_prefix,
  has_prefix-rest, first_code, contains_slash, split_at_slash,
}

unfoldable pub user_key : String → String
user_key sub = "u/" ⧺ sub

unfoldable pub genealogy_key : String → String
genealogy_key id = "g/" ⧺ id

unfoldable pub membership_key : String → String → String
membership_key gid sub = "m/" ⧺ gid ⧺ "/" ⧺ sub

unfoldable pub reverse_membership_key : String → String → String
reverse_membership_key sub gid = "mr/" ⧺ sub ⧺ "/" ⧺ gid

unfoldable pub ban_key : String → String → String
ban_key gid sub = "b/" ⧺ gid ⧺ "/" ⧺ sub

unfoldable pub user_private_gen_count_key : String → String
user_private_gen_count_key sub = "c/u/" ⧺ sub

unfoldable pub person_count_key : String → String
person_count_key gid = "c/g/" ⧺ gid ⧺ "/persons"

-- The prefixes that the iterations use.
unfoldable pub genealogies_prefix : String
genealogies_prefix = "g/"

unfoldable pub members_prefix : String → String
members_prefix gid = "m/" ⧺ gid ⧺ "/"

unfoldable pub memberships_prefix : String → String
memberships_prefix sub = "mr/" ⧺ sub ⧺ "/"

-- An id with no "/" in it.
abbrev pub IsId : String → Type 0
IsId s = contains_slash s ≡ false
