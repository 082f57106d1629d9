-- ===== src/Service/Queries.antt =====
-- internal/service/queries.go: the paths between two persons, and their nearest known common
-- ancestor. Linea-core finds and explains them.
use linea_server.Prelude.{ℕ, String, Bool, Option, none, some, List, [], ◌∷◌, map, false}
use linea_server.Prelude.Int.{ℤ, pos}
use linea_server.Result.{Result, ok, bind_result}
use linea_server.Result.Exec.{Exec, ◌>>=◌, return}
use linea_server.Platform.Types.{role_viewer}
use linea_server.Platform.Badger.{Badger}
use linea_server.Tenants.{Stores}
use linea_server.Service.{Context, State, resolve_store}
use linea_server.Service.Core.{Core}
use linea_server.Service.Model.{PathClassification, Edge, PathExplanation, AncestorExplanation}
use linea_server.Service.Mappers.{id_from_proto}
use linea_server.Service.StoreAccess.{lift, open_view}
use linea_server.Service.EntityMessages.{PbPathClassification, PbStep, PbPath, PbNkca}
use linea_server.Service.EntityMappers.{certainty_to_proto, rel_type_to_proto, continuity_to_proto}
use linea_server.Service.EntityMappers.Int32.{int32}

pub record FindPathsRequest : Type 0 where
  pub genealogy_id : String
  pub from_id : Option String
  pub to_id : Option String
  pub max_depth : ℤ
  pub max_paths : ℤ
  pub include_affinal : Bool

pub record NkcaRequest : Type 0 where
  pub genealogy_id : String
  pub a : Option String
  pub b : Option String

unfoldable pub classification_to_proto : PathClassification → PbPathClassification
classification_to_proto PathClassification.lineage = PbPathClassification.lineage
classification_to_proto PathClassification.affinal = PbPathClassification.affinal
classification_to_proto (PathClassification.unnamed n) = PbPathClassification.unspecified

module _ ⦃B : Badger⦄ ⦃S : Stores⦄ ⦃C : Core⦄ where
  step_to_proto : Edge C.ModelId → PbStep
  step_to_proto e = record {
    from_person = C.id_text e.from_person;
    to_person = C.id_text e.to_person;
    relationship_id = C.id_text e.relationship_id;
    kind = rel_type_to_proto e.kind;
    certainty = certainty_to_proto e.certainty;
    continuity = continuity_to_proto e.continuity;
    is_weakest_link = e.is_weakest_link;
    sources = map C.id_text e.source_ids;
  }

  unfoldable pub path_explanation_to_proto : PathExplanation C.ModelId → PbPath
  unfolding step_to_proto classification_to_proto
  path_explanation_to_proto x = record {
    from_person = C.id_text x.from_person;
    to_person = C.id_text x.to_person;
    path_length = int32 x.path_length;
    certainty = certainty_to_proto x.overall_certainty;
    total_gap_generations = int32 x.total_gap_generations;
    gap_edge_count = int32 x.gap_edge_count;
    classification = classification_to_proto x.classification;
    graph_version = x.graph_version;
    steps = map step_to_proto x.edges;
  }

  optional_path : Option (PathExplanation C.ModelId) → Option PbPath
  unfolding path_explanation_to_proto
  optional_path none = none
  optional_path (some x) = some (path_explanation_to_proto x)

  unfoldable pub nkca_to_proto : AncestorExplanation C.ModelId → PbNkca
  unfolding optional_path
  nkca_to_proto x = record {
    ancestor_id = C.id_text x.ancestor_id;
    ancestor_is_unknown = x.ancestor_is_unknown;
    total_generations = int32 x.total_generations;
    combined_certainty = certainty_to_proto x.combined_certainty;
    graph_version = x.graph_version;
    path_from_a = optional_path x.path_from_a;
    path_from_b = optional_path x.path_from_b;
  }

  -- The loop of FindPaths: the first path that cannot be explained ends it.
  unfoldable pub explain_all : C.Snapshot → List C.FoundPath → Result (List PbPath)
  unfolding path_explanation_to_proto
  explain_all snap [] = ok []
  explain_all snap (p ∷ ps) =
      bind_result (C.explain_path snap p)
        λ x. bind_result (explain_all snap ps) (λ xs. ok (path_explanation_to_proto x ∷ xs))

  unfoldable pub find_paths : Context → FindPathsRequest → Exec State (List PbPath × ℕ)
  unfolding explain_all
  find_paths ctx req = do
    r ← resolve_store ctx ctx.subject req.genealogy_id role_viewer false
    i ← lift (id_from_proto req.from_id)
    j ← lift (id_from_proto req.to_id)
    snap ← open_view r.0
    found ← lift (
        C.find_paths snap i j (record {
          max_depth = req.max_depth;
          max_paths = req.max_paths;
          include_affinal = req.include_affinal;
        }))
    paths ← lift (explain_all snap found)
    return (paths, C.version snap)

  unfoldable pub nkca : Context → NkcaRequest → Exec State PbNkca
  unfolding nkca_to_proto
  nkca ctx req = do
    r ← resolve_store ctx ctx.subject req.genealogy_id role_viewer false
    i ← lift (id_from_proto req.a)
    j ← lift (id_from_proto req.b)
    snap ← open_view r.0
    found ← lift (
        C.nearest_known_common_ancestor snap i j
          (record { max_depth = pos 0; max_paths = pos 0; include_affinal = false }))
    x ← lift (C.explain_ancestor snap found)
    return (nkca_to_proto x)
