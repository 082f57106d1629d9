-- ===== src/Service/Consistent/Reads.antt =====
-- The handlers of internal/service that write nothing keep the invariant: ListGenealogies, and those
-- of entities.go and queries.go.
use linea_server.Prelude.{
  ◌≡◌, refl, inl, inr, ℕ, String, str_eq, false, not, Option, [], map, Bool-cases,
}
use linea_server.Result.{Result}
use linea_server.Result.Exec.{◌>>=◌, return}
use linea_server.Result.Exec.Triple.{Triple-bind, Triple-return}
use linea_server.Platform.Types.{role_viewer}
use linea_server.Platform.Badger.{Badger}
use linea_server.Platform.Store.{iterate_genealogies}
use linea_server.Tenants.{Stores}
use linea_server.Service.{Context, State, resolve_store}
use linea_server.Service.Core.{Core}
use linea_server.Service.Mappers.{id_from_proto}
use linea_server.Service.EntityMappers.{person_to_proto, relationship_to_proto, source_to_proto}
use linea_server.Service.StoreAccess.{lift, open_view}
use linea_server.Service.Genealogies.ListGenealogies.{
  Listing, list_memberships, list_public, list_genealogies,
}
use linea_server.Service.Entities.{
  get_person, list_persons, get_relationship, list_relationships, get_source, list_sources,
}
use linea_server.Service.Queries.{
  FindPathsRequest, NkcaRequest, find_paths, explain_all, nkca, nkca_to_proto,
}
use linea_server.Authz.Consistent.{IsConsistent}
use linea_server.Service.Consistent.{
  Keeps, read-Triple, aside-Triple, resolve_store-Keeps, lift-Keeps, open_view-Keeps,
}

module _ ⦃B : Badger⦄ ⦃S : Stores⦄ where
  list_memberships-aside :
      (sub : String) (l : Listing) (s : State) → (list_memberships sub l s).1 ≡ s
  unfolding list_memberships
  list_memberships-aside sub l s = elim (Bool-cases (str_eq sub "")) [
    | inl anon ↦ rw anon refl
    | inr named ↦ rw named refl
  ]

  pub list_genealogies-Keeps : (ctx : Context) → Keeps (list_genealogies ctx)
  unfolding list_genealogies
  list_genealogies-Keeps ctx =
      Triple-bind
        (aside-Triple IsConsistent (list_memberships ctx.subject ([], [])) (λ s v. v)
          (λ s. rw (list_memberships-aside ctx.subject ([], []) s) refl)
          (λ s. rw (list_memberships-aside ctx.subject ([], []) s) refl))
        (λ mine.
          Triple-bind
            (read-Triple
              (λ db. iterate_genealogies (list_public (not (str_eq ctx.subject ""))) db mine)
              (λ s v. v))
            (λ all. Triple-return all.1 (λ s p. p.0)))

module _ ⦃B : Badger⦄ ⦃S : Stores⦄ ⦃C : Core⦄ where
  -- One value by its id.
  pub read_one-Keeps :
      {A V : Type 0} (ctx : Context) (gid : String) (pid : Option String)
      (get : C.Snapshot → C.ModelId → Result V) (reply : V → ℕ → A)
      → Keeps (do
        r ← resolve_store ctx ctx.subject gid role_viewer false
        i ← lift (id_from_proto pid)
        snap ← open_view r.0
        v ← lift (get snap i)
        return (reply v (C.version snap)))
  read_one-Keeps ctx gid pid get reply =
      Triple-bind (resolve_store-Keeps ctx ctx.subject gid role_viewer false) (λ r.
        Triple-bind (lift-Keeps (id_from_proto pid)) (λ i.
          Triple-bind (open_view-Keeps r.0) (λ snap.
            Triple-bind (lift-Keeps (get snap i))
              (λ v. Triple-return (reply v (C.version snap)) (λ s k. k)))))

  -- All values of a kind.
  pub read_all-Keeps :
      {A V : Type 0} (ctx : Context) (gid : String) (list : C.Snapshot → Result V)
      (reply : V → ℕ → A)
      → Keeps (do
        r ← resolve_store ctx ctx.subject gid role_viewer false
        snap ← open_view r.0
        v ← lift (list snap)
        return (reply v (C.version snap)))
  read_all-Keeps ctx gid list reply =
      Triple-bind (resolve_store-Keeps ctx ctx.subject gid role_viewer false) (λ r.
        Triple-bind (open_view-Keeps r.0) (λ snap.
          Triple-bind (lift-Keeps (list snap))
            (λ v. Triple-return (reply v (C.version snap)) (λ s k. k))))

  pub get_person-Keeps :
      (ctx : Context) (gid : String) (pid : Option String) → Keeps (get_person ctx gid pid)
  unfolding get_person
  get_person-Keeps ctx gid pid =
      read_one-Keeps ctx gid pid C.get_person (λ p n. (person_to_proto p, n))

  pub list_persons-Keeps : (ctx : Context) (gid : String) → Keeps (list_persons ctx gid)
  unfolding list_persons
  list_persons-Keeps ctx gid =
      read_all-Keeps ctx gid C.persons (λ ps n. (map person_to_proto ps, n))

  pub get_relationship-Keeps :
      (ctx : Context) (gid : String) (pid : Option String) → Keeps (get_relationship ctx gid pid)
  unfolding get_relationship
  get_relationship-Keeps ctx gid pid =
      read_one-Keeps ctx gid pid C.get_relationship (λ p n. (relationship_to_proto p, n))

  pub list_relationships-Keeps : (ctx : Context) (gid : String) → Keeps (list_relationships ctx gid)
  unfolding list_relationships
  list_relationships-Keeps ctx gid =
      read_all-Keeps ctx gid C.relationships (λ ps n. (map relationship_to_proto ps, n))

  pub get_source-Keeps :
      (ctx : Context) (gid : String) (pid : Option String) → Keeps (get_source ctx gid pid)
  unfolding get_source
  get_source-Keeps ctx gid pid =
      read_one-Keeps ctx gid pid C.get_source (λ p n. (source_to_proto p, n))

  pub list_sources-Keeps : (ctx : Context) (gid : String) → Keeps (list_sources ctx gid)
  unfolding list_sources
  list_sources-Keeps ctx gid =
      read_all-Keeps ctx gid C.sources (λ ps n. (map source_to_proto ps, n))

  pub find_paths-Keeps : (ctx : Context) (req : FindPathsRequest) → Keeps (find_paths ctx req)
  unfolding find_paths
  find_paths-Keeps ctx req =
      Triple-bind (resolve_store-Keeps ctx ctx.subject req.genealogy_id role_viewer false) (λ r.
        Triple-bind (lift-Keeps (id_from_proto req.from_id)) (λ i.
          Triple-bind (lift-Keeps (id_from_proto req.to_id)) (λ j.
            Triple-bind (open_view-Keeps r.0) (λ snap. Triple-bind (lift-Keeps _) (λ found.
              Triple-bind (lift-Keeps (explain_all snap found))
                (λ paths. Triple-return (paths, C.version snap) (λ s k. k)))))))

  pub nkca-Keeps : (ctx : Context) (req : NkcaRequest) → Keeps (nkca ctx req)
  unfolding nkca
  nkca-Keeps ctx req =
      Triple-bind (resolve_store-Keeps ctx ctx.subject req.genealogy_id role_viewer false) (λ r.
        Triple-bind (lift-Keeps (id_from_proto req.a)) (λ i.
          Triple-bind (lift-Keeps (id_from_proto req.b)) (λ j.
            Triple-bind (open_view-Keeps r.0) (λ snap. Triple-bind (lift-Keeps _) (λ found.
              Triple-bind (lift-Keeps (C.explain_ancestor snap found))
                (λ x. Triple-return (nkca_to_proto x) (λ s k. k)))))))
