-- ===== src/Tests/Engine.antt =====
-- A Linea-core whose every store holds one proposal, for a person, one person, two relationships and
-- no source. It finds no path.
use linea_server.Prelude.{ℕ, String, true, false, [], ◌∷◌, str_eq, if◌then◌else◌}
use linea_server.Prelude.Int.{pos}
use linea_server.Result.{Result, ok, err, linea, invalid_argument, person_not_found}
use linea_server.Service.Core.{ProposalState, ProposalAction, EntityKind, Core}
use linea_server.Service.Model.{
  Certainty, ContinuityState, Gap, RelationshipType, TimeRange, Person, Relationship,
}
use linea_server.Tests.Files.{files}

abbrev no_time : TimeRange
no_time = record {
  is_zero = true;
  earliest = record { known_year = false; year = pos 0 };
  latest = record { known_year = false; year = pos 0 };
  calendar = "";
  circa = false;
}

abbrev no_gap : Gap
no_gap = record { known_size = false; size = pos 0 }

abbrev ann_person : Person String
ann_person = record {
  id = "p";
  is_unknown_ancestor = false;
  names = [];
  gender = "";
  birth = no_time;
  death = no_time;
  notes = "";
}

abbrev pub edge : ContinuityState → Gap → Relationship String
edge s g = record {
  id = "r";
  from_person = "p";
  to_person = "q";
  kind = RelationshipType.parent_child;
  certainty = Certainty.certain;
  continuity = record { state = s; gap = g };
  time_range = no_time;
  notes = "";
  sources = [];
}

-- A proposal is its state: the rest is fixed.
abbrev advance : ProposalState → ℕ → Result ProposalState × ℕ
advance s disk = (ok s, disk)

instance abbrev pub engine : Core
engine = record {
  ModelId = String;
  no_id = "";
  parse_id = λ s. if str_eq s "bad" then err (linea invalid_argument "id") else ok s;
  id_text = λ i. i;
  error_text = λ e. "error";
  Proposal = ProposalState;
  new_proposal = λ i a k o. ok ProposalState.draft;
  id = λ p. "p1";
  state = λ p. p;
  action = λ p. ProposalAction.create;
  entity_kind = λ p. EntityKind.person;
  options = λ p. record {
    target_id = "";
    secondary_id = "";
    payload = [];
    reason = "";
    sources = [];
    author = "ann";
    created_at = linea_server.Platform.Types.pos 1;
  };
  history = λ p. [];
  Snapshot = ℕ;
  view = λ h disk. ok disk;
  version = λ snap. snap;
  get_proposal = λ snap i. ok ProposalState.submitted;
  proposals = λ snap. ok (ProposalState.submitted ∷ []);
  put_proposal = λ h p disk. (ok 1, disk);
  submit = λ h i actor now. advance ProposalState.submitted;
  claim = λ h i actor now. advance ProposalState.under_review;
  accept = λ h i actor now. advance ProposalState.accepted;
  withdraw = λ h i actor now reason. advance ProposalState.withdrawn;
  reject = λ h i actor now reason. advance ProposalState.rejected;
  get_person = λ snap i. ok ann_person;
  persons = λ snap. ok (ann_person ∷ []);
  get_relationship = λ snap i. ok (edge ContinuityState.continuous no_gap);
  relationships =
      λ snap. ok (edge ContinuityState.continuous no_gap ∷ edge ContinuityState.gapped no_gap ∷ []);
  get_source = λ snap i. err (linea person_not_found "source");
  sources = λ snap. ok [];
  FoundPath = String;
  find_paths = λ snap i j o. ok [];
  explain_path = λ snap p. err (linea invalid_argument "path");
  FoundAncestor = String;
  nearest_known_common_ancestor = λ snap i j o. err (linea person_not_found "ancestor");
  explain_ancestor = λ snap x. err (linea invalid_argument "ancestor");
  known_gap = λ n. ok (record { known_size = true; size = n });
  unknown_gap = no_gap;
  new_continuous = record { state = ContinuityState.continuous; gap = no_gap };
  new_gapped = λ g. record { state = ContinuityState.gapped; gap = g };
}
