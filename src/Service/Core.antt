-- ===== src/Service/Core.antt =====
-- What the services use of Linea-core: its identifiers, its proposals, the snapshots of a store and
-- the transitions of its governance, as an argument of the model. The enumerations have the names
-- that the server uses, and a number for any other value; zero names none of them.
use linea_server.Prelude.{ℕ, String, List}
use linea_server.Result.{Result, Error}
use linea_server.Platform.Types.{ℤ}
use linea_server.Service.Model.{
  Gap, Continuity, Person, Relationship, Source, PathExplanation, AncestorExplanation, QueryOptions,
}
use linea_server.Tenants.{Stores, Handle, Disk}

pub data ProposalState : Type 0 where
  draft submitted under_review accepted rejected withdrawn : ProposalState
  unnamed : ℕ → ProposalState

pub data ProposalAction : Type 0 where
  create update retract merge same_as_link : ProposalAction
  unnamed : ℕ → ProposalAction

pub data EntityKind : Type 0 where
  person relationship source : EntityKind
  unnamed : ℕ → EntityKind

pub record ProposalOptions (ModelId : Type 0) : Type 0 where
  pub target_id : ModelId
  pub secondary_id : ModelId
  pub payload : List ℕ
  pub reason : String
  pub sources : List ModelId
  pub author : String
  pub created_at : ℤ

pub record HistoryEntry : Type 0 where
  pub from : ProposalState
  pub to : ProposalState
  pub actor : String
  pub reason : String
  pub timestamp : ℤ

pub record Core ⦃S : Stores⦄ : Type 1 where
  pub ModelId : Type 0
  pub no_id : ModelId
  pub parse_id : String → Result ModelId
  pub id_text : ModelId → String
  pub error_text : Error → String
  pub Proposal : Type 0
  pub new_proposal :
      ModelId → ProposalAction → EntityKind → ProposalOptions ModelId → Result Proposal
  pub id : Proposal → ModelId
  pub state : Proposal → ProposalState
  pub action : Proposal → ProposalAction
  pub entity_kind : Proposal → EntityKind
  pub options : Proposal → ProposalOptions ModelId
  pub history : Proposal → List HistoryEntry
  pub Snapshot : Type 0
  pub view : Handle → Disk → Result Snapshot
  pub version : Snapshot → ℕ
  pub get_proposal : Snapshot → ModelId → Result Proposal
  pub proposals : Snapshot → Result (List Proposal)
  pub put_proposal : Handle → Proposal → Disk → Result ℕ × Disk
  -- The actor, the time in seconds, and, for the last two, the reason.
  pub submit : Handle → ModelId → String → ℤ → Disk → Result Proposal × Disk
  pub claim : Handle → ModelId → String → ℤ → Disk → Result Proposal × Disk
  pub accept : Handle → ModelId → String → ℤ → Disk → Result Proposal × Disk
  pub withdraw : Handle → ModelId → String → ℤ → String → Disk → Result Proposal × Disk
  pub reject : Handle → ModelId → String → ℤ → String → Disk → Result Proposal × Disk
  pub get_person : Snapshot → ModelId → Result (Person ModelId)
  pub persons : Snapshot → Result (List (Person ModelId))
  pub get_relationship : Snapshot → ModelId → Result (Relationship ModelId)
  pub relationships : Snapshot → Result (List (Relationship ModelId))
  pub get_source : Snapshot → ModelId → Result (Source ModelId)
  pub sources : Snapshot → Result (List (Source ModelId))
  -- The packages `query` and `explain`.
  pub FoundPath : Type 0
  pub find_paths : Snapshot → ModelId → ModelId → QueryOptions → Result (List FoundPath)
  pub explain_path : Snapshot → FoundPath → Result (PathExplanation ModelId)
  pub FoundAncestor : Type 0
  pub nearest_known_common_ancestor :
      Snapshot → ModelId → ModelId → QueryOptions → Result FoundAncestor
  pub explain_ancestor : Snapshot → FoundAncestor → Result (AncestorExplanation ModelId)
  -- `model.KnownGap` refuses a size that is no gap.
  pub known_gap : ℤ → Result Gap
  pub unknown_gap : Gap
  pub new_continuous : Continuity
  pub new_gapped : Gap → Continuity
