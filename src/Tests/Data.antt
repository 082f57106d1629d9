-- ===== src/Tests/Data.antt =====
-- A small platform database: one private genealogy with two owners.
use linea_server.Prelude.{◌≡◌, refl, List, [], ◌∷◌, false, arith}
use linea_server.Result.{ok}
use linea_server.Platform.Types.{
  is_zero, pos, visibility_private, role_owner, role_curator, Genealogy, Membership,
}
use linea_server.Platform.Json.{marshal_genealogy, marshal_membership}
use linea_server.Platform.Badger.{json, set, delete}
use linea_server.Platform.Keys.{genealogy_key, membership_key, reverse_membership_key}
use linea_server.Platform.Store.{put_genealogy, put_membership, get_genealogy, delete_membership}
use linea_server.Platform.Store.WellKeyed.{
  IsWellKeyed, put_genealogy-IsWellKeyed, put_membership-IsWellKeyed,
}
use linea_server.Platform.Keys.{IsId}
use linea_server.Platform.Store.Indexed.{
  IsIndexed, put_genealogy-IsIndexed, put_membership-IsIndexed,
}
use linea_server.Tests.Memory.{memory, Pairs, apply}

abbrev pub g1 : Genealogy
g1 = record {
  id = "g1";
  name = "Family";
  visibility = visibility_private;
  created_by = "alice";
  created_at = pos 1;
}

abbrev pub alice : Membership
alice = record {
  subject = "alice";
  genealogy_id = "g1";
  role = role_owner;
  granted_by = "alice";
  granted_at = pos 1;
}

abbrev pub bob : Membership
bob = record {
  subject = "bob";
  genealogy_id = "g1";
  role = role_owner;
  granted_by = "alice";
  granted_at = pos 2;
}

abbrev pub carol : Membership
carol = record {
  subject = "carol";
  genealogy_id = "g1";
  role = role_curator;
  granted_by = "alice";
  granted_at = pos 3;
}

abbrev pub rows : Membership → Pairs → Pairs
rows m = apply (
    set (membership_key m.genealogy_id m.subject) (json (marshal_membership m))
    ∷ set (reverse_membership_key m.subject m.genealogy_id) (json (marshal_membership m))
    ∷ [])

abbrev pub db1 : Pairs
db1 = (genealogy_key "g1", json (marshal_genealogy g1)) ∷ []

abbrev pub db2 : Pairs
db2 = rows alice db1

abbrev pub db3 : Pairs
db3 = rows bob db2

pub g1-IsId : IsId "g1"
g1-IsId = unfold linea_server.Prelude.contains_slash in refl

pub put_g1 : put_genealogy g1 [] ≡ ok db1
unfolding put_genealogy
put_g1 = refl

pub put_alice : put_membership (pos 9) alice db1 ≡ ok db2
unfolding put_membership is_zero
put_alice = refl

pub put_bob : put_membership (pos 9) bob db2 ≡ ok db3
unfolding put_membership is_zero
put_bob = refl

-- A curator in place of the second owner.
abbrev pub db5 : Pairs
db5 = rows carol db2

pub put_carol : put_membership (pos 9) carol db2 ≡ ok db5
unfolding put_membership is_zero
put_carol = refl

abbrev pub db4 : Pairs
db4 =
    apply (delete (membership_key "g1" "bob") ∷ delete (reverse_membership_key "bob" "g1") ∷ []) db3

pub delete_bob : delete_membership "g1" "bob" db3 ≡ ok db4
unfolding delete_membership
delete_bob = refl

pub empty-IsWellKeyed : IsWellKeyed []
unfolding get_genealogy
empty-IsWellKeyed = record { named = λ gid g p. absurd (cc (p)) }

pub empty-IsIndexed : IsIndexed []
empty-IsIndexed = record { mirror = λ gid sub h. refl }

pub db1-IsWellKeyed : IsWellKeyed db1
db1-IsWellKeyed = put_genealogy-IsWellKeyed g1 [] g1-IsId empty-IsWellKeyed put_g1

pub db2-IsWellKeyed : IsWellKeyed db2
db2-IsWellKeyed = put_membership-IsWellKeyed (pos 9) alice db1 db1-IsWellKeyed put_alice

pub db3-IsWellKeyed : IsWellKeyed db3
db3-IsWellKeyed = put_membership-IsWellKeyed (pos 9) bob db2 db2-IsWellKeyed put_bob

pub db1-IsIndexed : IsIndexed db1
db1-IsIndexed = put_genealogy-IsIndexed g1 [] empty-IsIndexed put_g1

db2-IsIndexed : IsIndexed db2
db2-IsIndexed = put_membership-IsIndexed (pos 9) alice db1 g1-IsId db1-IsIndexed put_alice

pub db3-IsIndexed : IsIndexed db3
db3-IsIndexed = put_membership-IsIndexed (pos 9) bob db2 g1-IsId db2-IsIndexed put_bob
