-- ===== src/Tests/Proposals.antt =====
-- The handlers of proposals on the database of Tests.Data, with a ban.
use linea_server.Prelude.{
  ◌≡◌, ◌≢◌, refl, ap, first_code, String, none, some, true, false, List, [], ◌∷◌, arith,
}
use linea_server.Result.{ok}
use linea_server.Platform.Types.{pos, role_owner, role_curator, Ban}
use linea_server.Platform.Json.{
  marshal_ban, unmarshal_ban, marshal_genealogy, unmarshal_genealogy, marshal_membership,
  unmarshal_membership,
}
use linea_server.Platform.Badger.{json}
use linea_server.Platform.Keys.{
  person_count_key, ban_key, genealogy_key, membership_key, reverse_membership_key,
}
use linea_server.Platform.Store.{is_banned, get_ban, get_genealogy, get_membership}
use linea_server.Authz.{Decision, cache_get, new_resolver}
use linea_server.Platform.Counters.{get_person_count}
use linea_server.Quotas.{default_limits}
use linea_server.Tenants.{Disk}
use linea_server.Service.{State, resolve_store}
use linea_server.Service.Core.{ProposalState, ProposalAction, EntityKind}
use linea_server.Service.Mappers.{
  PbProposalState, PbProposalAction, PbEntityKind, proposal_state_to_proto,
  proposal_state_from_proto, action_to_proto, action_from_proto, entity_kind_to_proto,
  entity_kind_from_proto, proposal_enums_round_trip,
}
use linea_server.Service.Proposals.{
  CreateProposalRequest, TransitionRequest, BulkRejectRequest, BulkRejectResult, create_proposal,
  submit, claim, accept, reject, bulk_reject,
}
use linea_server.Service.Genealogies.Gates.{Refused}
use linea_server.Service.Proposals.Gates.{curator_proposals_gate, banned_author}
use linea_server.Service.Proposals.Quota.{IsWithin, accept-IsWithin}
use linea_server.Service.Proposals.Bulk.{Rejections, bulk_reject_lem}
use linea_server.Tests.Memory.{memory, Pairs}
use linea_server.Tests.Files.{files}
use linea_server.Tests.Engine.{engine}
use linea_server.Tests.Data.{db3}
use linea_server.Tests.Service.{state, by, eve-IsBelow, state-IsCoherent}

proposal_enums_round_trip_example :
    (proposal_state_to_proto (proposal_state_from_proto PbProposalState.draft)
      ≡ PbProposalState.draft)
    × (action_to_proto (action_from_proto PbProposalAction.merge) ≡ PbProposalAction.merge)
    × (entity_kind_to_proto (entity_kind_from_proto (PbEntityKind.unknown 9))
        ≡ PbEntityKind.unspecified)
    × (proposal_state_from_proto (proposal_state_to_proto ProposalState.accepted)
        ≡ ProposalState.accepted)
    × (action_from_proto (action_to_proto (ProposalAction.unnamed 8)) ≡ ProposalAction.unnamed 0)
    × (entity_kind_from_proto (entity_kind_to_proto EntityKind.source) ≡ EntityKind.source)
proposal_enums_round_trip_example =
    proposal_enums_round_trip PbProposalState.draft PbProposalAction.merge (PbEntityKind.unknown 9)
      ProposalState.accepted (ProposalAction.unnamed 8) EntityKind.source

abbrev p1 : TransitionRequest
p1 = record { genealogy_id = "g1"; id = some "p1"; reason = "" }

abbrev two : BulkRejectRequest
two = record { genealogy_id = "g1"; ids = some "p1" ∷ some "bad" ∷ []; reason = "" }

curator_proposals_gate_example :
    Refused (state db3) (claim (by "eve") p1 (state db3))
    × Refused (state db3) (accept (by "eve") p1 (state db3))
    × Refused (state db3) (reject (by "eve") p1 (state db3))
    × Refused (state db3) (bulk_reject (by "eve") two (state db3))
curator_proposals_gate_example =
    curator_proposals_gate (by "eve") p1 two (state db3) refl (state-IsCoherent db3)
      (eve-IsBelow role_curator)

abbrev bob_ban : Ban
bob_ban = record { subject = "bob"; genealogy_id = "g1"; reason = "spam"; by = "alice"; at = pos 5 }

abbrev db6 : Pairs
db6 = (ban_key "g1" "bob", json (marshal_ban bob_ban)) ∷ db3

bob_banned : is_banned "g1" "bob" db6 ≡ ok true
unfolding is_banned get_ban ban_key unmarshal_ban marshal_ban
bob_banned = refl

abbrev proposed : CreateProposalRequest
proposed = record {
  genealogy_id = "g1";
  action = PbProposalAction.create;
  entity_kind = PbEntityKind.person;
  target_id = none;
  secondary_id = none;
  payload = [];
  reason = "";
  sources = [];
}

bob_named : (by "bob").subject ≢ ""
unfolding first_code
bob_named e = absurd (omega (arith, ap first_code e))

banned_author_example :
    Refused (state db6) (create_proposal (by "bob") "p2" proposed (state db6))
    × Refused (state db6) (submit (by "bob") p1 (state db6))
banned_author_example =
    banned_author (by "bob") "p2" proposed p1 (state db6) refl bob_named bob_banned

abbrev owned : String × Decision
owned = ("data/g1", record { genealogy_id = "g1"; role = role_owner; implicit = false })

abbrev passed : State
passed = (resolve_store (by "alice") "alice" "g1" role_curator false (state db3)).1

alice_passes :
    resolve_store (by "alice") "alice" "g1" role_curator false (state db3) ≡ (ok owned, passed)
unfolding resolve_store linea_server.Authz.resolve cache_get new_resolver get_genealogy
    get_membership reverse_membership_key genealogy_key membership_key unmarshal_genealogy
    marshal_genealogy unmarshal_membership marshal_membership linea_server.Tenants.get
alice_passes = refl

bulk_reject_lem_example :
    (rs : List BulkRejectResult) × (disk : Disk) × Rejections "data/g1"
      (by "alice")
      "bulk reject"
      two.ids
      passed.disk
      rs
      disk
    × (bulk_reject (by "alice") two (state db3) ≡ (ok rs, record passed { disk = disk }))
bulk_reject_lem_example = bulk_reject_lem (by "alice") two (state db3) alice_passes

nobody_counted : get_person_count "g1" db3 ≡ ok 0
unfolding get_person_count person_count_key reverse_membership_key genealogy_key membership_key
nobody_counted = refl

accept-IsWithin_example :
    IsWithin "g1" default_limits (accept (by "alice") p1 (state db3)).1.platform
accept-IsWithin_example =
    accept-IsWithin (by "alice") p1 (state db3) (λ e. absurd (omega (arith, e))) (omega arith)
      (record { persons = 0; counted = nobody_counted; bounded = omega arith })
