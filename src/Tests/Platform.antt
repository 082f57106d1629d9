-- ===== src/Tests/Platform.antt =====
-- The platform store's theorems on the database of Tests.Data.
use linea_server.Prelude.{
  refl, [], ◌∷◌, Elem, has_prefix, false, arith, ◌≡◌, str_eq, ◌&&◌, if◌then◌else◌,
}
use linea_server.Result.{ok, err, not_found}
use linea_server.Platform.Types.{is_zero, role_viewer, Membership, pos, User, Ban}
use linea_server.Platform.Json.{
  marshal_user, unmarshal_user, marshal_genealogy, unmarshal_genealogy, marshal_membership,
  unmarshal_membership, marshal_ban, unmarshal_ban,
}
use linea_server.Platform.Json.RoundTrip.{records_round_trip}
use linea_server.Platform.Keys.{membership_key, reverse_membership_key, memberships_prefix}
use linea_server.Platform.Store.{
  put_membership, scan_prefix, iterate, iterate_memberships_for_user, get_membership,
  stamp_membership,
}
use linea_server.Platform.Store.Lookup.{get-put_membership, get-delete_membership}
use linea_server.Platform.Store.Prefixes.{gather, foreign_membership}
use linea_server.Tests.Memory.{memory, Pairs}
use linea_server.Tests.Data.{rows, g1, db4, delete_bob, g1-IsId, alice, bob, db2, db3, put_bob}

get-put_membership_example : get_membership "g1" "alice" db3 ≡ (
    if str_eq bob.genealogy_id "g1" && str_eq bob.subject "alice"
    then ok (stamp_membership (pos 9) bob)
    else get_membership "g1" "alice" db2)
get-put_membership_example = get-put_membership (pos 9) bob db2 "g1" "alice" g1-IsId g1-IsId put_bob

get-delete_membership_example : get_membership "g1" "bob" db4 ≡ (
    if str_eq "g1" "g1" && str_eq "bob" "bob" then err not_found else get_membership "g1" "bob" db3)
get-delete_membership_example =
    get-delete_membership "g1" "bob" db3 "g1" "bob" g1-IsId g1-IsId delete_bob

abbrev ann : User
ann = record { subject = "ann"; email = ""; created_at = pos 1; suspended = false }

abbrev banned : Ban
banned = record { subject = "eve"; genealogy_id = "g1"; reason = ""; by = "alice"; at = pos 4 }

records_round_trip_example :
    (unmarshal_user (marshal_user ann) ≡ ok ann)
    × (unmarshal_genealogy (marshal_genealogy g1) ≡ ok g1)
    × (unmarshal_membership (marshal_membership alice) ≡ ok alice)
    × (unmarshal_ban (marshal_ban banned) ≡ ok banned)
records_round_trip_example = records_round_trip ann g1 alice banned (omega arith) (omega arith)

-- The subject "https://id|ann/2" begins with "https://id|ann" and a slash.
abbrev guest : Membership
guest = record {
  subject = "https://id|ann/2";
  genealogy_id = "g1";
  role = role_viewer;
  granted_by = "alice";
  granted_at = pos 4;
}

abbrev db7 : Pairs
db7 = rows guest []

put_guest : put_membership (pos 9) guest [] ≡ ok db7
unfolding put_membership is_zero
put_guest = refl

gathered_for_ann : iterate_memberships_for_user "https://id|ann" gather db7 [] ≡ ok (guest ∷ [])
unfolding iterate_memberships_for_user scan_prefix iterate has_prefix memberships_prefix
    reverse_membership_key unmarshal_membership marshal_membership membership_key
gathered_for_ann = refl

foreign_membership_example : Elem (stamp_membership (pos 9) guest) (guest ∷ [])
foreign_membership_example =
    foreign_membership (pos 9) guest [] "https://id|ann" "2" refl put_guest gathered_for_ann
