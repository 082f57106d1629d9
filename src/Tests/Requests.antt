-- ===== src/Tests/Requests.antt =====
-- Requests one after the other, on a server whose database is empty at first.
use linea_server.Prelude.{◌≡◌, ◌≢◌, ◌≤◌, refl, String, str_eq, true, [], ◌∷◌, arith, trim_space}
use linea_server.Result.{ok, err, not_found}
use linea_server.Platform.Types.{
  pos, visibility_private, visibility_public, role_owner, role_contributor, Genealogy,
}
use linea_server.Platform.Json.{marshal_genealogy}
use linea_server.Platform.Badger.{json}
use linea_server.Platform.Keys.{genealogy_key, IsId}
use linea_server.Platform.Store.{get_genealogy, put_genealogy, get_membership, stamp_membership}
use linea_server.Platform.Store.WellKeyed.{put_genealogy-IsWellKeyed}
use linea_server.Platform.Counters.{get_user_private_gen_count}
use linea_server.Authz.{resolve_uncached, new_resolver}
use linea_server.Authz.Consistent.{IsConsistent}
use linea_server.Service.{State, resolve}
use linea_server.Service.Proto.{
  CreateGenealogyRequest, UpsertMembershipRequest, PbVisibility, PbRole,
}
use linea_server.Service.PlatformMappers.{visibility_from_proto, genealogy_to_proto}
use linea_server.Service.Hidden.{IsHidden, private, by_get_genealogy_rpc, denied, hidden_genealogy}
use linea_server.Service.Genealogies.{or_private, create_genealogy, get_genealogy_rpc}
use linea_server.Service.Genealogies.Members.{upsert_membership, remove_member}
use linea_server.Service.Genealogies.Create.{new_genealogy, owner_row}
use linea_server.Service.Genealogies.Create.Stored.{
  create_genealogy_lem, create_genealogy-private_quota,
}
use linea_server.Service.Genealogies.ListGenealogies.{list_genealogies}
use linea_server.Service.Genealogies.Listed.{IsListing, lists}
use linea_server.Service.Genealogies.Listed.Complete.{list_genealogies_lem}
use linea_server.Service.Consistent.Reachable.{
  Reach, here, next, create_genealogy_served, upsert_membership_served, remove_member_served,
  served_requests-IsConsistent,
}
use linea_server.Tests.Memory.{memory, Pairs}
use linea_server.Tests.Files.{files}
use linea_server.Tests.Engine.{engine}
use linea_server.Tests.Data.{g1, db3, g1-IsId, empty-IsWellKeyed, empty-IsIndexed}
use linea_server.Tests.Service.{state, by}

abbrev pub family : CreateGenealogyRequest
family = record { name = " Family "; visibility = PbVisibility.private }

abbrev bob_curator : UpsertMembershipRequest
bob_curator = record { genealogy_id = "g1"; subject = "bob"; role = PbRole.curator }

abbrev created : State
created = (create_genealogy (by "alice") "g1" family (state [])).1

abbrev joined : State
joined = (upsert_membership (by "alice") bob_curator created).1

abbrev left : State
left = (remove_member (by "alice") "g1" "bob" joined).1

pub g1_unused : get_genealogy "g1" [] ≡ err not_found
unfolding get_genealogy
g1_unused = refl

left-Reach : Reach (state []) left
left-Reach =
    next
      (next (next here (create_genealogy_served (by "alice") "g1" family g1-IsId g1_unused))
        (upsert_membership_served (by "alice") bob_curator))
      (remove_member_served (by "alice") "g1" "bob")

start-IsConsistent : IsConsistent [] (state []).authz
unfolding new_resolver
start-IsConsistent = record {
  well_keyed = empty-IsWellKeyed;
  indexed = empty-IsIndexed;
  coherent = tt;
}

served_requests-IsConsistent_example :
    IsConsistent left.platform left.authz
    × ((resolve (by "bob") "bob" "g1" left).0 ≡ resolve_uncached "bob" "g1" left.platform)
served_requests-IsConsistent_example =
    served_requests-IsConsistent (by "bob") "bob" "g1" start-IsConsistent left-Reach refl

hidden_from_eve : IsHidden (by "eve") "g1" (state db3)
unfolding get_genealogy get_membership linea_server.Platform.Keys.reverse_membership_key
    genealogy_key linea_server.Platform.Keys.membership_key
    linea_server.Platform.Json.unmarshal_genealogy marshal_genealogy
hidden_from_eve = private g1 refl refl refl refl

hidden_genealogy_example : (get_genealogy_rpc (by "eve") "g1" (state db3)).0 ≡ err denied
unfolding new_resolver
hidden_genealogy_example =
    hidden_genealogy (by "eve") "g1" (state db3) refl tt hidden_from_eve (by_get_genealogy_rpc "g1")

alice_creates :
    (create_genealogy (by "alice") "g1" family (state [])).0
    ≡ ok (genealogy_to_proto (new_genealogy (by "alice") "g1" family) role_owner)
unfolding create_genealogy trim_space linea_server.Service.PlatformMappers.visibility_from_proto
    linea_server.Quotas.check_create_private_genealogy get_user_private_gen_count put_genealogy
    linea_server.Platform.Store.put_membership linea_server.Quotas.inc_private_genealogy
    linea_server.Platform.Counters.inc_user_private_gen_count
    linea_server.Platform.Keys.reverse_membership_key
    linea_server.Platform.Keys.user_private_gen_count_key linea_server.Platform.Keys.membership_key
    genealogy_key linea_server.Service.invalidate
alice_creates = refl

create_genealogy_lem_example :
    (◌≢◌ {A = String} "alice" "")
    × (trim_space family.name ≢ "")
    × (get_genealogy "g1" created.platform ≡ ok (new_genealogy (by "alice") "g1" family))
    × (get_membership "g1" "alice" created.platform
        ≡ ok (stamp_membership (pos 9) (owner_row (by "alice") "g1")))
create_genealogy_lem_example =
    create_genealogy_lem (by "alice") "g1" family (state []) "g1" "alice" g1-IsId g1-IsId
      alice_creates

no_count : get_user_private_gen_count "alice" [] ≡ ok 0
unfolding get_user_private_gen_count
no_count = refl

family_private : or_private (visibility_from_proto family.visibility) ≡ visibility_private
unfolding or_private visibility_from_proto
family_private = refl

create_genealogy-private_quota_example :
    (get_user_private_gen_count "alice" created.platform ≡ ok 1) × (1 ≤ 5)
create_genealogy-private_quota_example =
    create_genealogy-private_quota (by "alice") "g1" family (state []) 0 family_private
      (λ e. absurd (omega (arith, e))) (omega arith) no_count alice_creates

abbrev open_family : Genealogy
open_family = record {
  id = "g2";
  name = "Open";
  visibility = visibility_public;
  created_by = "alice";
  created_at = pos 1;
}

abbrev open_db : Pairs
open_db = (genealogy_key "g2", json (marshal_genealogy open_family)) ∷ []

g2-IsId : IsId "g2"
g2-IsId = unfold linea_server.Prelude.contains_slash in refl

put_open : put_genealogy open_family [] ≡ ok open_db
unfolding put_genealogy
put_open = refl

open_read : get_genealogy "g2" open_db ≡ ok open_family
unfolding get_genealogy genealogy_key linea_server.Platform.Json.unmarshal_genealogy
    marshal_genealogy
open_read = refl

bob_lists :
    (list_genealogies (by "bob") (state open_db)).0
    ≡ ok (genealogy_to_proto open_family role_contributor ∷ [])
unfolding list_genealogies linea_server.Platform.Store.iterate_memberships_for_user
    linea_server.Prelude.has_prefix linea_server.Platform.Keys.memberships_prefix genealogy_key
    linea_server.Platform.Store.iterate_genealogies linea_server.Platform.Keys.genealogies_prefix
    linea_server.Platform.Json.unmarshal_genealogy marshal_genealogy
bob_lists = refl

list_genealogies_lem_example :
    IsListing (genealogy_to_proto open_family role_contributor ∷ [])
    × (lists "g2" (genealogy_to_proto open_family role_contributor ∷ []) ≡ true)
list_genealogies_lem_example =
    list_genealogies_lem (by "bob") (state open_db) "g2" open_family
      (put_genealogy-IsWellKeyed open_family [] g2-IsId empty-IsWellKeyed put_open) open_read refl
      bob_lists
