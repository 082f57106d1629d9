-- ===== src/Service/Entities.antt =====
-- internal/service/entities.go: persons, relationships and sources, one by its id or all of them,
-- from one snapshot whose version comes along.
use linea_server.Prelude.{ℕ, String, Option, List, map, false}
use linea_server.Result.Exec.{Exec, ◌>>=◌, return}
use linea_server.Platform.Types.{role_viewer}
use linea_server.Platform.Badger.{Badger}
use linea_server.Tenants.{Stores}
use linea_server.Service.{Context, State, resolve_store}
use linea_server.Service.Core.{Core}
use linea_server.Service.Mappers.{id_from_proto}
use linea_server.Service.StoreAccess.{lift, open_view}
use linea_server.Service.EntityMessages.{PbPerson, PbRelationship, PbSource}
use linea_server.Service.EntityMappers.{person_to_proto, relationship_to_proto, source_to_proto}

module _ ⦃B : Badger⦄ ⦃S : Stores⦄ ⦃C : Core⦄ where
  unfoldable pub get_person : Context → String → Option String → Exec State (PbPerson × ℕ)
  get_person ctx gid pid = do
    r ← resolve_store ctx ctx.subject gid role_viewer false
    i ← lift (id_from_proto pid)
    snap ← open_view r.0
    p ← lift (C.get_person snap i)
    return (person_to_proto p, C.version snap)

  unfoldable pub list_persons : Context → String → Exec State (List PbPerson × ℕ)
  list_persons ctx gid = do
    r ← resolve_store ctx ctx.subject gid role_viewer false
    snap ← open_view r.0
    ps ← lift (C.persons snap)
    return (map person_to_proto ps, C.version snap)

  unfoldable pub get_relationship :
      Context → String → Option String → Exec State (PbRelationship × ℕ)
  get_relationship ctx gid pid = do
    r ← resolve_store ctx ctx.subject gid role_viewer false
    i ← lift (id_from_proto pid)
    snap ← open_view r.0
    rel ← lift (C.get_relationship snap i)
    return (relationship_to_proto rel, C.version snap)

  unfoldable pub list_relationships : Context → String → Exec State (List PbRelationship × ℕ)
  list_relationships ctx gid = do
    r ← resolve_store ctx ctx.subject gid role_viewer false
    snap ← open_view r.0
    rels ← lift (C.relationships snap)
    return (map relationship_to_proto rels, C.version snap)

  unfoldable pub get_source : Context → String → Option String → Exec State (PbSource × ℕ)
  get_source ctx gid pid = do
    r ← resolve_store ctx ctx.subject gid role_viewer false
    i ← lift (id_from_proto pid)
    snap ← open_view r.0
    src ← lift (C.get_source snap i)
    return (source_to_proto src, C.version snap)

  unfoldable pub list_sources : Context → String → Exec State (List PbSource × ℕ)
  list_sources ctx gid = do
    r ← resolve_store ctx ctx.subject gid role_viewer false
    snap ← open_view r.0
    srcs ← lift (C.sources snap)
    return (map source_to_proto srcs, C.version snap)
