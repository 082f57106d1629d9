-- ===== src/Service/Mappers.antt =====
-- internal/service/mappers.go, as far as proposals need it, and the messages of
-- proto/linea/v1/proposals.proto. An enum of a message is open: `unknown` is a number that the
-- schema does not name.
use linea_server.Prelude.{ℕ, ◌≡◌, arith, String, Option, none, some, List, map, if◌then◌else◌}
use linea_server.Result.{Result, ok}
use linea_server.Platform.Types.{ℤ, is_positive}
use linea_server.Tenants.{Stores}
use linea_server.Service.Core.{ProposalState, ProposalAction, EntityKind, HistoryEntry, Core}

pub data PbProposalState : Type 0 where
  unspecified draft submitted under_review accepted rejected withdrawn : PbProposalState
  unknown : ℕ → PbProposalState

pub data PbProposalAction : Type 0 where
  unspecified create update retract merge same_as_link : PbProposalAction
  unknown : ℕ → PbProposalAction

pub data PbEntityKind : Type 0 where
  unspecified person relationship source : PbEntityKind
  unknown : ℕ → PbEntityKind

pub record PbTransition : Type 0 where
  pub from : PbProposalState
  pub to : PbProposalState
  pub actor : String
  pub reason : String
  pub at : Option ℤ

pub record PbProposal : Type 0 where
  pub id : String
  pub state : PbProposalState
  pub action : PbProposalAction
  pub entity_kind : PbEntityKind
  pub target_id : String
  pub secondary_id : String
  pub payload : List ℕ
  pub reason : String
  pub sources : List String
  pub author : String
  pub created_at : Option ℤ
  pub history : List PbTransition

unfoldable pub proposal_state_to_proto : ProposalState → PbProposalState
proposal_state_to_proto ProposalState.draft = PbProposalState.draft
proposal_state_to_proto ProposalState.submitted = PbProposalState.submitted
proposal_state_to_proto ProposalState.under_review = PbProposalState.under_review
proposal_state_to_proto ProposalState.accepted = PbProposalState.accepted
proposal_state_to_proto ProposalState.rejected = PbProposalState.rejected
proposal_state_to_proto ProposalState.withdrawn = PbProposalState.withdrawn
proposal_state_to_proto (ProposalState.unnamed n) = PbProposalState.unspecified

unfoldable pub proposal_state_from_proto : PbProposalState → ProposalState
proposal_state_from_proto PbProposalState.draft = ProposalState.draft
proposal_state_from_proto PbProposalState.submitted = ProposalState.submitted
proposal_state_from_proto PbProposalState.under_review = ProposalState.under_review
proposal_state_from_proto PbProposalState.accepted = ProposalState.accepted
proposal_state_from_proto PbProposalState.rejected = ProposalState.rejected
proposal_state_from_proto PbProposalState.withdrawn = ProposalState.withdrawn
proposal_state_from_proto PbProposalState.unspecified = ProposalState.unnamed 0
proposal_state_from_proto (PbProposalState.unknown n) = ProposalState.unnamed 0

unfoldable pub action_from_proto : PbProposalAction → ProposalAction
action_from_proto PbProposalAction.create = ProposalAction.create
action_from_proto PbProposalAction.update = ProposalAction.update
action_from_proto PbProposalAction.retract = ProposalAction.retract
action_from_proto PbProposalAction.merge = ProposalAction.merge
action_from_proto PbProposalAction.same_as_link = ProposalAction.same_as_link
action_from_proto PbProposalAction.unspecified = ProposalAction.unnamed 0
action_from_proto (PbProposalAction.unknown n) = ProposalAction.unnamed 0

unfoldable pub action_to_proto : ProposalAction → PbProposalAction
action_to_proto ProposalAction.create = PbProposalAction.create
action_to_proto ProposalAction.update = PbProposalAction.update
action_to_proto ProposalAction.retract = PbProposalAction.retract
action_to_proto ProposalAction.merge = PbProposalAction.merge
action_to_proto ProposalAction.same_as_link = PbProposalAction.same_as_link
action_to_proto (ProposalAction.unnamed n) = PbProposalAction.unspecified

unfoldable pub entity_kind_from_proto : PbEntityKind → EntityKind
entity_kind_from_proto PbEntityKind.person = EntityKind.person
entity_kind_from_proto PbEntityKind.relationship = EntityKind.relationship
entity_kind_from_proto PbEntityKind.source = EntityKind.source
entity_kind_from_proto PbEntityKind.unspecified = EntityKind.unnamed 0
entity_kind_from_proto (PbEntityKind.unknown n) = EntityKind.unnamed 0

unfoldable pub entity_kind_to_proto : EntityKind → PbEntityKind
entity_kind_to_proto EntityKind.person = PbEntityKind.person
entity_kind_to_proto EntityKind.relationship = PbEntityKind.relationship
entity_kind_to_proto EntityKind.source = PbEntityKind.source
entity_kind_to_proto (EntityKind.unnamed n) = PbEntityKind.unspecified

unix_to_proto : ℤ → Option ℤ
unix_to_proto t = if is_positive t then some t else none

transition_to_proto : HistoryEntry → PbTransition
unfolding proposal_state_to_proto unix_to_proto
transition_to_proto h = record {
  from = proposal_state_to_proto h.from;
  to = proposal_state_to_proto h.to;
  actor = h.actor;
  reason = h.reason;
  at = unix_to_proto h.timestamp;
}

module _ ⦃S : Stores⦄ ⦃C : Core⦄ where
  -- A missing message is the empty identifier.
  unfoldable pub id_from_proto : Option String → Result C.ModelId
  id_from_proto none = ok C.no_id
  id_from_proto (some s) = C.parse_id s

  unfoldable pub proposal_to_proto : C.Proposal → PbProposal
  unfolding transition_to_proto
  proposal_to_proto p = record {
    id = C.id_text (C.id p);
    state = proposal_state_to_proto (C.state p);
    action = action_to_proto (C.action p);
    entity_kind = entity_kind_to_proto (C.entity_kind p);
    target_id = C.id_text (C.options p).target_id;
    secondary_id = C.id_text (C.options p).secondary_id;
    payload = (C.options p).payload;
    reason = (C.options p).reason;
    sources = map C.id_text (C.options p).sources;
    author = (C.options p).author;
    created_at = unix_to_proto (C.options p).created_at;
    history = map transition_to_proto (C.history p);
  }

-- A number that the schema does not name reads as the unspecified one, and one that Linea-core does
-- not name as its zero.
abbrev pub known_state : PbProposalState → PbProposalState
known_state (PbProposalState.unknown n) = PbProposalState.unspecified
known_state s = s

abbrev pub known_action : PbProposalAction → PbProposalAction
known_action (PbProposalAction.unknown n) = PbProposalAction.unspecified
known_action a = a

abbrev pub known_kind : PbEntityKind → PbEntityKind
known_kind (PbEntityKind.unknown n) = PbEntityKind.unspecified
known_kind k = k

abbrev pub named_state : ProposalState → ProposalState
named_state (ProposalState.unnamed n) = ProposalState.unnamed 0
named_state s = s

abbrev pub named_action : ProposalAction → ProposalAction
named_action (ProposalAction.unnamed n) = ProposalAction.unnamed 0
named_action a = a

abbrev pub named_kind : EntityKind → EntityKind
named_kind (EntityKind.unnamed n) = EntityKind.unnamed 0
named_kind k = k

-- Every state, action and kind of a message comes back unchanged from Linea-core's enumerations,
-- but for a number that the schema does not name, which becomes the unspecified one; and every
-- state, action and kind of Linea-core comes back from the message, but for one that it does not
-- name, which becomes its zero.
pub proposal_enums_round_trip :
    (s : PbProposalState) (a : PbProposalAction) (k : PbEntityKind) (cs : ProposalState)
    (ca : ProposalAction) (ck : EntityKind)
    → (proposal_state_to_proto (proposal_state_from_proto s) ≡ known_state s)
      × (action_to_proto (action_from_proto a) ≡ known_action a)
      × (entity_kind_to_proto (entity_kind_from_proto k) ≡ known_kind k)
      × (proposal_state_from_proto (proposal_state_to_proto cs) ≡ named_state cs)
      × (action_from_proto (action_to_proto ca) ≡ named_action ca)
      × (entity_kind_from_proto (entity_kind_to_proto ck) ≡ named_kind ck)
unfolding proposal_state_to_proto proposal_state_from_proto action_to_proto action_from_proto
    entity_kind_to_proto entity_kind_from_proto
proposal_enums_round_trip s a k cs ca ck =
    (ground arith, ground arith, ground arith, ground arith, ground arith, ground arith)
