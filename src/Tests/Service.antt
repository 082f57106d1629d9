-- ===== src/Tests/Service.antt =====
-- The handlers on the database of Tests.Data.
use linea_server.Prelude.{
  sym, true, ◌≡◌, ◌≢◌, refl, String, str_eq, some, [], if◌then◌else◌, trim_space, arith,
  eq_of_str_eq,
}
use linea_server.Result.{Result, ok, err, not_found, not_allowed}
use linea_server.Platform.Types.{
  Role, visibility_public, is_zero, is_positive, pos, role_owner, role_curator, Membership,
}
use linea_server.Platform.Keys.{genealogy_key, membership_key, reverse_membership_key}
use linea_server.Platform.Json.{
  marshal_genealogy, unmarshal_genealogy, marshal_membership, unmarshal_membership,
}
use linea_server.Platform.Store.{get_genealogy, put_membership, get_membership, stamp_membership}
use linea_server.Platform.Store.Lookup.{get-put_membership, get_membership-put_genealogy}
use linea_server.Authz
use linea_server.Authz.Policy.{resolve_uncached_iff}
use linea_server.Authz.Coherence.{IsCoherent}
use linea_server.Authz.{resolve_uncached, cache_get, new_resolver}
use linea_server.Quotas.{default_limits}
use linea_server.Service.{Context, State, resolve_mapped, invalidate}
use linea_server.Service.Proto.{
  PbRole, PbMembership, UpsertMembershipRequest, UpdateVisibilityRequest, PbVisibility,
}
use linea_server.Service.PlatformMappers.{
  visibility_to_proto, visibility_from_proto, role_to_proto, enums_round_trip, membership_to_proto,
  role_from_proto,
}
use linea_server.Service.Genealogies.{update_visibility}
use linea_server.Service.Genealogies.Members.{upsert_membership, remove_member, leave_genealogy}
use linea_server.Service.Genealogies.Owners.{
  HasOwner, remove_member-HasOwner, leave_genealogy-HasOwner,
}
use linea_server.Service.Genealogies.Gates.{IsBelow, Refused, by_update_visibility, role_gate}
use linea_server.Service.Genealogies.Upsert.{upsert_removes_last_owner}
use linea_server.Tests.Memory.{memory, Pairs}
use linea_server.Tests.Files.{files}
use linea_server.Tests.Tenants.{m0}
use linea_server.Tests.Data.{
  g1, alice, bob, carol, db1, db2, db3, db5, g1-IsId, put_g1, put_alice, put_carol,
}

abbrev pub state : Pairs → State
state db = record {
  platform = db;
  authz = new_resolver 0;
  tenants = m0;
  disk = 0;
  limits = default_limits;
}

abbrev pub by : String → Context
by subject = record {
  subject = subject;
  cache_read = 1;
  cache_write = 2;
  now = pos 9;
  now_later = pos 9;
}

db3-HasOwner : HasOwner "g1" db3
unfolding get_membership membership_key reverse_membership_key marshal_membership
    unmarshal_membership
db3-HasOwner = ("bob", bob, refl, refl)

remove_member-HasOwner_example :
    HasOwner "g1" (remove_member (by "alice") "g1" "bob" (state db3)).1.platform
remove_member-HasOwner_example =
    remove_member-HasOwner (by "alice") "g1" "bob" (state db3) g1-IsId db3-HasOwner

leave_genealogy-HasOwner_example :
    HasOwner "g1" (leave_genealogy (by "bob") "g1" (state db3)).1.platform
leave_genealogy-HasOwner_example =
    leave_genealogy-HasOwner (by "bob") "g1" (state db3) g1-IsId db3-HasOwner

abbrev upsert : String → PbRole → UpsertMembershipRequest
upsert subject role = record { genealogy_id = "g1"; subject = subject; role = role }

eve_refused : resolve_uncached "eve" "g1" db3 ≡ err not_allowed
unfolding resolve_uncached get_genealogy get_membership genealogy_key membership_key
    reverse_membership_key marshal_genealogy unmarshal_genealogy marshal_membership
    unmarshal_membership
eve_refused = refl

pub eve-IsBelow : (min : Role) → IsBelow (by "eve") "g1" min (state db3)
eve-IsBelow min d granted =
    absurd (cc ((resolve_uncached_iff db3 "eve" "g1" d).1 granted, eve_refused))

pub state-IsCoherent : (db : Pairs) → IsCoherent db (state db).authz
unfolding new_resolver
state-IsCoherent db = tt

abbrev publish : UpdateVisibilityRequest
publish = record { id = "g1"; visibility = PbVisibility.public }

role_gate_example : Refused (state db3) (update_visibility (by "eve") publish (state db3))
role_gate_example =
    role_gate (by "eve") "g1" role_owner (state db3) (by_update_visibility publish)
      (state-IsCoherent db3) (eve-IsBelow role_owner)

abbrev demoted : PbMembership
demoted = record {
  subject = "alice";
  genealogy_id = "g1";
  role = PbRole.viewer;
  granted_by = "carol";
  granted_at = some (pos 9);
}

abbrev after_demotion : State
after_demotion = (upsert_membership (by "carol") (upsert "alice" PbRole.viewer) (state db5)).1

carol_demotes :
    (upsert_membership (by "carol") (upsert "alice" PbRole.viewer) (state db5)).0 ≡ ok demoted
unfolding upsert_membership membership_to_proto role_from_proto put_membership is_zero trim_space
    invalidate is_positive resolve_mapped Authz.resolve cache_get new_resolver get_genealogy
    get_membership genealogy_key membership_key reverse_membership_key marshal_genealogy
    unmarshal_genealogy marshal_membership unmarshal_membership
carol_demotes = refl

no_member : (sub : String) → get_membership "g1" sub db1 ≡ err not_found
unfolding get_membership
no_member sub = get_membership-put_genealogy g1 [] "g1" sub put_g1

-- Of the two rows that were stored, only that of alice is an owner's.
only_alice :
    (sub : String) (r5 r2 r1 : Result Membership) (m c a : Membership)
    → r5 ≡ (if str_eq "carol" sub then ok c else r2)
    → r2 ≡ (if str_eq "alice" sub then ok a else r1)
    → r1 ≡ err not_found
    → c.role ≡ role_curator
    → r5 ≡ ok m
    → m.role ≡ role_owner
    → str_eq "alice" sub ≡ true
only_alice sub r5 r2 r1 m c a e5 e2 e1 low g owner = ground arith

alice_only_owner :
    (sub : String) (m : Membership)
    → get_membership "g1" sub db5 ≡ ok m
    → m.role ≡ role_owner
    → sub ≡ trim_space "alice"
unfolding trim_space stamp_membership is_zero
alice_only_owner sub m g owner = sym (
    eq_of_str_eq "alice" sub (
      only_alice sub (get_membership "g1" sub db5) (get_membership "g1" sub db2)
        (get_membership "g1" sub db1) m (stamp_membership (pos 9) carol)
        (stamp_membership (pos 9) alice)
        (get-put_membership (pos 9) carol db2 "g1" sub g1-IsId g1-IsId put_carol)
        (get-put_membership (pos 9) alice db1 "g1" sub g1-IsId g1-IsId put_alice) (no_member sub)
        refl g owner))

not_owner : role_from_proto PbRole.viewer ≢ role_owner
unfolding role_from_proto
not_owner h = omega arith

upsert_removes_last_owner_example : ¬ HasOwner "g1" after_demotion.platform
upsert_removes_last_owner_example =
    upsert_removes_last_owner (by "carol") (upsert "alice" PbRole.viewer) (state db5) g1-IsId
      carol_demotes not_owner alice_only_owner

enums_round_trip_example :
    (visibility_from_proto (visibility_to_proto visibility_public) ≡ visibility_public)
    × (role_from_proto (role_to_proto role_curator) ≡ role_curator)
    × (visibility_to_proto (visibility_from_proto (PbVisibility.unknown 7))
        ≡ PbVisibility.unspecified)
    × (role_to_proto (role_from_proto PbRole.curator) ≡ PbRole.curator)
enums_round_trip_example =
    enums_round_trip visibility_public role_curator (PbVisibility.unknown 7) PbRole.curator refl
      refl
