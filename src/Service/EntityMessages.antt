-- ===== src/Service/EntityMessages.antt =====
-- The messages of proto/linea/v1/common.proto and queries.proto that the entity and query services
-- give. An enum is open: `unknown` is a number that the schema does not name. Of an optional
-- message, `none` is a missing one.
use linea_server.Prelude.{ℕ, String, Bool, Option, List}
use linea_server.Platform.Types.{ℤ}

pub data PbCertainty : Type 0 where
  unspecified uncertain probable certain : PbCertainty
  unknown : ℕ → PbCertainty

pub data PbContinuityState : Type 0 where
  unspecified continuous gapped : PbContinuityState
  unknown : ℕ → PbContinuityState

pub record PbContinuity : Type 0 where
  pub state : PbContinuityState
  pub gap_known_size : Bool
  pub gap_size : ℤ

pub data PbRelationshipType : Type 0 where
  unspecified parent_child marriage : PbRelationshipType
  unknown : ℕ → PbRelationshipType

pub data PbSourceType : Type 0 where
  unspecified primary secondary oral derived other : PbSourceType
  unknown : ℕ → PbSourceType

pub data PbPathClassification : Type 0 where
  unspecified lineage affinal : PbPathClassification
  unknown : ℕ → PbPathClassification

pub record PbTimeRange : Type 0 where
  pub earliest_known : Bool
  pub earliest_year : ℤ
  pub latest_known : Bool
  pub latest_year : ℤ
  pub calendar : String
  pub circa : Bool

pub record PbName : Type 0 where
  pub text : String
  pub language : String
  pub script : String
  pub kind : String
  pub preferred : Bool

pub record PbPerson : Type 0 where
  pub id : String
  pub unknown_ancestor : Bool
  pub names : List PbName
  pub gender : String
  pub birth : Option PbTimeRange
  pub death : Option PbTimeRange
  pub notes : String

pub record PbRelationship : Type 0 where
  pub id : String
  pub from_person : String
  pub to_person : String
  pub kind : PbRelationshipType
  pub certainty : PbCertainty
  pub continuity : PbContinuity
  pub time_range : Option PbTimeRange
  pub notes : String
  pub sources : List String

pub record PbSource : Type 0 where
  pub id : String
  pub kind : PbSourceType
  pub citation : String
  pub author : String
  pub title : String
  pub date : String
  pub locator : String
  pub notes : String

pub record PbStep : Type 0 where
  pub from_person : String
  pub to_person : String
  pub relationship_id : String
  pub kind : PbRelationshipType
  pub certainty : PbCertainty
  pub continuity : PbContinuity
  pub is_weakest_link : Bool
  pub sources : List String

pub record PbPath : Type 0 where
  pub from_person : String
  pub to_person : String
  pub path_length : ℤ
  pub certainty : PbCertainty
  pub total_gap_generations : ℤ
  pub gap_edge_count : ℤ
  pub classification : PbPathClassification
  pub graph_version : ℕ
  pub steps : List PbStep

pub record PbNkca : Type 0 where
  pub ancestor_id : String
  pub ancestor_is_unknown : Bool
  pub total_generations : ℤ
  pub combined_certainty : PbCertainty
  pub graph_version : ℕ
  pub path_from_a : Option PbPath
  pub path_from_b : Option PbPath
