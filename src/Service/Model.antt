-- ===== src/Service/Model.antt =====
-- The values of Linea-core that the entity and query services read. An enumeration has the names
-- that the server uses, and a number for any other value; zero names none of them. A record holds
-- what the accessors of a value give; `is_zero` is what `TimeRange.IsZero` answers.
use linea_server.Prelude.{ℕ, String, Bool, Option, List}
use linea_server.Platform.Types.{ℤ}

pub data Certainty : Type 0 where
  certain probable uncertain : Certainty
  unnamed : ℕ → Certainty

pub data ContinuityState : Type 0 where
  continuous gapped : ContinuityState
  unnamed : ℕ → ContinuityState

pub record Gap : Type 0 where
  pub known_size : Bool
  pub size : ℤ

pub record Continuity : Type 0 where
  pub state : ContinuityState
  pub gap : Gap

pub data RelationshipType : Type 0 where
  parent_child marriage : RelationshipType
  unnamed : ℕ → RelationshipType

pub data SourceType : Type 0 where
  primary secondary oral derived other : SourceType
  unnamed : ℕ → SourceType

pub data PathClassification : Type 0 where
  lineage affinal : PathClassification
  unnamed : ℕ → PathClassification

pub record Year : Type 0 where
  pub known_year : Bool
  pub year : ℤ

pub record TimeRange : Type 0 where
  pub is_zero : Bool
  pub earliest : Year
  pub latest : Year
  pub calendar : String
  pub circa : Bool

pub record Name : Type 0 where
  pub text : String
  pub language : String
  pub script : String
  pub kind : String
  pub preferred : Bool

pub record Person (ModelId : Type 0) : Type 0 where
  pub id : ModelId
  pub is_unknown_ancestor : Bool
  pub names : List Name
  pub gender : String
  pub birth : TimeRange
  pub death : TimeRange
  pub notes : String

pub record Relationship (ModelId : Type 0) : Type 0 where
  pub id : ModelId
  pub from_person : ModelId
  pub to_person : ModelId
  pub kind : RelationshipType
  pub certainty : Certainty
  pub continuity : Continuity
  pub time_range : TimeRange
  pub notes : String
  pub sources : List ModelId

pub record Source (ModelId : Type 0) : Type 0 where
  pub id : ModelId
  pub kind : SourceType
  pub citation : String
  pub author : String
  pub title : String
  pub date : String
  pub locator : String
  pub notes : String

-- An edge and a path, as Linea-core's package `explain` gives them.
pub record Edge (ModelId : Type 0) : Type 0 where
  pub from_person : ModelId
  pub to_person : ModelId
  pub relationship_id : ModelId
  pub kind : RelationshipType
  pub certainty : Certainty
  pub continuity : Continuity
  pub is_weakest_link : Bool
  pub source_ids : List ModelId

pub record PathExplanation (ModelId : Type 0) : Type 0 where
  pub from_person : ModelId
  pub to_person : ModelId
  pub path_length : ℤ
  pub overall_certainty : Certainty
  pub total_gap_generations : ℤ
  pub gap_edge_count : ℤ
  pub classification : PathClassification
  pub graph_version : ℕ
  pub edges : List (Edge ModelId)

pub record AncestorExplanation (ModelId : Type 0) : Type 0 where
  pub ancestor_id : ModelId
  pub ancestor_is_unknown : Bool
  pub total_generations : ℤ
  pub combined_certainty : Certainty
  pub graph_version : ℕ
  pub path_from_a : Option (PathExplanation ModelId)
  pub path_from_b : Option (PathExplanation ModelId)

-- `query.Options`
pub record QueryOptions : Type 0 where
  pub max_depth : ℤ
  pub max_paths : ℤ
  pub include_affinal : Bool
