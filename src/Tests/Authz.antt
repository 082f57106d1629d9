-- ===== src/Tests/Authz.antt =====
-- The policy and its cache on the database of Tests.Data.
use linea_server.Prelude.{◌≡◌, ◌↔◌, refl, false}
use linea_server.Result.{ok}
use linea_server.Platform.Types.{role_owner}
use linea_server.Platform.Json.{
  marshal_genealogy, unmarshal_genealogy, marshal_membership, unmarshal_membership,
}
use linea_server.Platform.Keys.{genealogy_key, membership_key, reverse_membership_key}
use linea_server.Platform.Store.{get_genealogy, get_membership}
use linea_server.Authz.{Decision, Cache, new_resolver, cache_put, resolve, resolve_uncached}
use linea_server.Authz.Policy.{Grants, resolve_uncached_iff}
use linea_server.Authz.Coherence.{IsCoherent, resolve_transparent}
use linea_server.Tests.Memory.{memory}
use linea_server.Tests.Data.{db2}

abbrev owner : Decision
owner = record { genealogy_id = "g1"; role = role_owner; implicit = false }

alice_resolved : resolve_uncached "alice" "g1" db2 ≡ ok owner
unfolding resolve_uncached get_genealogy get_membership genealogy_key membership_key
    reverse_membership_key marshal_genealogy unmarshal_genealogy marshal_membership
    unmarshal_membership
alice_resolved = refl

alice_granted : Grants db2 "alice" "g1" owner
alice_granted = (resolve_uncached_iff db2 "alice" "g1" owner).0 alice_resolved

resolve_uncached_iff_example :
    (resolve_uncached "alice" "g1" db2 ≡ ok owner) ↔ Grants db2 "alice" "g1" owner
resolve_uncached_iff_example = resolve_uncached_iff db2 "alice" "g1" owner

abbrev cached : Cache
cached = cache_put 0 "alice" "g1" owner (new_resolver 0)

cached-IsCoherent : IsCoherent db2 cached
unfolding cache_put new_resolver
cached-IsCoherent = (alice_resolved, tt)

resolve_transparent_example :
    ((resolve 1 2 "alice" "g1" db2 cached).0 ≡ resolve_uncached "alice" "g1" db2)
    × IsCoherent db2 (resolve 1 2 "alice" "g1" db2 cached).1
resolve_transparent_example =
    resolve_transparent 1 2 "alice" "g1" db2 cached (refl) cached-IsCoherent
