-- ===== src/Service/EntityMappers.antt =====
-- internal/service/mappers.go: from the values of Linea-core to the messages of the entity services.
pub mod Int32
use linea_server.Prelude.{
  ℕ, String, Bool, true, false, Option, none, some, List, map, if◌then◌else◌,
}
use linea_server.Prelude.Int.{ℤ, pos}
use linea_server.Result.{Result, ok, err, bind_result}
use linea_server.Tenants.{Stores}
use linea_server.Service.Core.{Core}
use linea_server.Service.Model.{
  Certainty, ContinuityState, Gap, Continuity, RelationshipType, SourceType, TimeRange, Name,
  Person, Relationship, Source,
}
use linea_server.Service.EntityMessages.{
  PbCertainty, PbContinuityState, PbContinuity, PbRelationshipType, PbSourceType, PbTimeRange,
  PbName, PbPerson, PbRelationship, PbSource,
}
use linea_server.Service.EntityMappers.Int32.{int32}

unfoldable pub certainty_to_proto : Certainty → PbCertainty
certainty_to_proto Certainty.certain = PbCertainty.certain
certainty_to_proto Certainty.probable = PbCertainty.probable
certainty_to_proto Certainty.uncertain = PbCertainty.uncertain
certainty_to_proto (Certainty.unnamed n) = PbCertainty.unspecified

unfoldable pub certainty_from_proto : PbCertainty → Certainty
certainty_from_proto PbCertainty.certain = Certainty.certain
certainty_from_proto PbCertainty.probable = Certainty.probable
certainty_from_proto PbCertainty.uncertain = Certainty.uncertain
certainty_from_proto PbCertainty.unspecified = Certainty.unnamed 0
certainty_from_proto (PbCertainty.unknown n) = Certainty.unnamed 0

-- The message of a gap: its size only if it is known.
gap_to_proto : Gap → PbContinuity
gap_to_proto g = record {
  state = PbContinuityState.gapped;
  gap_known_size = g.known_size;
  gap_size = if g.known_size then int32 g.size else pos 0;
}

unfoldable pub continuity_to_proto : Continuity → PbContinuity
unfolding gap_to_proto
continuity_to_proto c = elim c.state [
  | ContinuityState.continuous ↦ record {
    state = PbContinuityState.continuous;
    gap_known_size = false;
    gap_size = pos 0;
  }
  | ContinuityState.gapped ↦ gap_to_proto c.gap
  | ContinuityState.unnamed n ↦ record {
    state = PbContinuityState.unspecified;
    gap_known_size = false;
    gap_size = pos 0;
  }
]

unfoldable pub rel_type_to_proto : RelationshipType → PbRelationshipType
rel_type_to_proto RelationshipType.parent_child = PbRelationshipType.parent_child
rel_type_to_proto RelationshipType.marriage = PbRelationshipType.marriage
rel_type_to_proto (RelationshipType.unnamed n) = PbRelationshipType.unspecified

unfoldable pub rel_type_from_proto : PbRelationshipType → RelationshipType
rel_type_from_proto PbRelationshipType.parent_child = RelationshipType.parent_child
rel_type_from_proto PbRelationshipType.marriage = RelationshipType.marriage
rel_type_from_proto PbRelationshipType.unspecified = RelationshipType.unnamed 0
rel_type_from_proto (PbRelationshipType.unknown n) = RelationshipType.unnamed 0

unfoldable pub source_type_to_proto : SourceType → PbSourceType
source_type_to_proto SourceType.primary = PbSourceType.primary
source_type_to_proto SourceType.secondary = PbSourceType.secondary
source_type_to_proto SourceType.oral = PbSourceType.oral
source_type_to_proto SourceType.derived = PbSourceType.derived
source_type_to_proto SourceType.other = PbSourceType.other
source_type_to_proto (SourceType.unnamed n) = PbSourceType.unspecified

unfoldable pub time_range_to_proto : TimeRange → Option PbTimeRange
time_range_to_proto tr =
    if tr.is_zero
    then none
    else some (record {
      earliest_known = tr.earliest.known_year;
      earliest_year = int32 tr.earliest.year;
      latest_known = tr.latest.known_year;
      latest_year = int32 tr.latest.year;
      calendar = tr.calendar;
      circa = tr.circa;
    })

unfoldable pub name_to_proto : Name → PbName
name_to_proto n = record {
  text = n.text;
  language = n.language;
  script = n.script;
  kind = n.kind;
  preferred = n.preferred;
}

module _ ⦃S : Stores⦄ ⦃C : Core⦄ where
  unfoldable pub continuity_from_proto : Option PbContinuity → Result Continuity
  continuity_from_proto none = ok C.new_continuous
  continuity_from_proto (some c) = elim c.state [
    | PbContinuityState.unspecified ↦ ok C.new_continuous
    | PbContinuityState.continuous ↦ ok C.new_continuous
    | PbContinuityState.gapped ↦
        if c.gap_known_size
        then bind_result (C.known_gap c.gap_size) (λ g. ok (C.new_gapped g))
        else ok (C.new_gapped C.unknown_gap)
    | PbContinuityState.unknown n ↦ ok C.new_continuous
  ]

  unfoldable pub person_to_proto : Person C.ModelId → PbPerson
  unfolding time_range_to_proto name_to_proto
  person_to_proto p = record {
    id = C.id_text p.id;
    unknown_ancestor = p.is_unknown_ancestor;
    names = map name_to_proto p.names;
    gender = p.gender;
    birth = if p.birth.is_zero then none else time_range_to_proto p.birth;
    death = if p.death.is_zero then none else time_range_to_proto p.death;
    notes = p.notes;
  }

  unfoldable pub relationship_to_proto : Relationship C.ModelId → PbRelationship
  unfolding rel_type_to_proto certainty_to_proto continuity_to_proto time_range_to_proto
  relationship_to_proto r = record {
    id = C.id_text r.id;
    from_person = C.id_text r.from_person;
    to_person = C.id_text r.to_person;
    kind = rel_type_to_proto r.kind;
    certainty = certainty_to_proto r.certainty;
    continuity = continuity_to_proto r.continuity;
    time_range = if r.time_range.is_zero then none else time_range_to_proto r.time_range;
    notes = r.notes;
    sources = map C.id_text r.sources;
  }

  unfoldable pub source_to_proto : Source C.ModelId → PbSource
  unfolding source_type_to_proto
  source_to_proto s = record {
    id = C.id_text s.id;
    kind = source_type_to_proto s.kind;
    citation = s.citation;
    author = s.author;
    title = s.title;
    date = s.date;
    locator = s.locator;
    notes = s.notes;
  }
