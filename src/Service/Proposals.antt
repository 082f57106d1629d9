-- ===== src/Service/Proposals.antt =====
-- internal/service/proposals.go: the lifecycle of proposals, over a store of Linea-core. A handler
-- takes the request's context; `now` is `time.Now().Unix()`, and a new proposal's id is drawn.
pub mod Gates
pub mod Bulk
pub mod Quota
use linea_server.Prelude.{
  ℕ, ◌+◌, String, str_eq, Bool, true, false, not, ◌&&◌, Option, none, some, List, [], ◌∷◌, ◌++◌,
  map, ◌==◌, if◌then◌else◌,
}
use linea_server.Result.{Result, ok, err, Error, bind_result}
use linea_server.Result.Exec.{Exec, continue, ◌>>=◌, ◌>>◌, require, return}
use linea_server.Platform.Types.{Role, role_viewer, role_contributor, role_curator}
use linea_server.Platform.Badger.{Badger}
use linea_server.Tenants.{Stores, Handle, Disk}
use linea_server.Quotas.{check_create_person, inc_person}
use linea_server.Service.{Context, State, invalid, map_error, try_write, resolve_store}
use linea_server.Service.Core.{ProposalState, ProposalAction, EntityKind, ProposalOptions, Core}
use linea_server.Service.StoreAccess.{lift, on_disk, open_view}
use linea_server.Service.Mappers.{
  PbProposal, PbProposalState, PbProposalAction, PbEntityKind, proposal_state_from_proto,
  action_from_proto, entity_kind_from_proto, id_from_proto, proposal_to_proto,
}

pub record CreateProposalRequest : Type 0 where
  pub genealogy_id : String
  pub action : PbProposalAction
  pub entity_kind : PbEntityKind
  pub target_id : Option String
  pub secondary_id : Option String
  pub payload : List ℕ
  pub reason : String
  pub sources : List (Option String)

pub record TransitionRequest : Type 0 where
  pub genealogy_id : String
  pub id : Option String
  pub reason : String

pub record BulkRejectRequest : Type 0 where
  pub genealogy_id : String
  pub ids : List (Option String)
  pub reason : String

pub record BulkRejectResult : Type 0 where
  pub id : Option String
  pub ok : Bool
  pub error : String

-- `filter != 0 && p.State() != filter`: the proposal is passed over.
state_number : ProposalState → ℕ
state_number ProposalState.draft = 0
state_number ProposalState.submitted = 1
state_number ProposalState.under_review = 2
state_number ProposalState.accepted = 3
state_number ProposalState.rejected = 4
state_number ProposalState.withdrawn = 5
state_number (ProposalState.unnamed n) = 6 + n

unfoldable pub is_skipped : ProposalState → ProposalState → Bool
unfolding state_number
is_skipped filter state =
    not (state_number filter == state_number (ProposalState.unnamed 0))
    && not (state_number state == state_number filter)

unfoldable pub is_create : ProposalAction → Bool
is_create ProposalAction.create = true
is_create _ = false

unfoldable pub is_person : EntityKind → Bool
is_person EntityKind.person = true
is_person _ = false

-- `if reason == "" { reason = "bulk reject" }`
unfoldable pub bulk_reason : String → String
bulk_reason reason = if str_eq reason "" then "bulk reject" else reason

person_quota_error : Error → Error
person_quota_error e = invalid "person quota exceeded"

module _ ⦃B : Badger⦄ ⦃S : Stores⦄ ⦃C : Core⦄ where
  unfoldable pub ids_from_proto : List (Option String) → Result (List C.ModelId)
  ids_from_proto [] = ok []
  ids_from_proto (p ∷ ps) =
      bind_result (id_from_proto p) (λ i. bind_result (ids_from_proto ps) (λ is. ok (i ∷ is)))

  unfoldable pub keep_state : ProposalState → List C.Proposal → List PbProposal
  unfolding is_skipped
  keep_state filter [] = []
  keep_state filter (p ∷ ps) =
      let rest = keep_state filter ps in
      if is_skipped filter (C.state p) then rest else proposal_to_proto p ∷ rest

  unfoldable pub get_proposal : Context → String → Option String → Exec State (PbProposal × ℕ)
  get_proposal ctx gid pid = do
    r ← resolve_store ctx ctx.subject gid role_viewer false
    i ← lift (id_from_proto pid)
    snap ← open_view r.0
    p ← lift (C.get_proposal snap i)
    return (proposal_to_proto p, C.version snap)

  unfoldable pub list_proposals :
      Context → String → PbProposalState → Exec State (List PbProposal × ℕ)
  unfolding keep_state
  list_proposals ctx gid filter = do
    r ← resolve_store ctx ctx.subject gid role_viewer false
    snap ← open_view r.0
    ps ← lift (C.proposals snap)
    return (keep_state (proposal_state_from_proto filter) ps, C.version snap)

  unfoldable pub create_proposal :
      Context → C.ModelId → CreateProposalRequest → Exec State (PbProposal × ℕ)
  unfolding ids_from_proto
  create_proposal ctx new_id req = do
    r ← resolve_store ctx ctx.subject req.genealogy_id role_contributor true
    target ← lift (id_from_proto req.target_id)
    secondary ← lift (id_from_proto req.secondary_id)
    sources ← lift (ids_from_proto req.sources)
    pp ← lift (
        C.new_proposal new_id (action_from_proto req.action)
          (entity_kind_from_proto req.entity_kind)
          (record {
            target_id = target;
            secondary_id = secondary;
            payload = req.payload;
            reason = req.reason;
            sources = sources;
            author = ctx.subject;
            created_at = ctx.now;
          }))
    v ← on_disk (C.put_proposal r.0 pp)
    return (proposal_to_proto pp, v)

  -- transition, and transitionWithReason: `fn` has the reason already.
  unfoldable pub transition :
      Context
      → TransitionRequest
      → Role
      → Bool
      → (Handle → C.ModelId → Disk → Result C.Proposal × Disk)
      → Exec State PbProposal
  transition ctx req min_role requires_proposal_submission fn = do
    r ← resolve_store ctx ctx.subject req.genealogy_id min_role requires_proposal_submission
    i ← lift (id_from_proto req.id)
    out ← on_disk (fn r.0 i)
    return (proposal_to_proto out)

  unfoldable pub submit : Context → TransitionRequest → Exec State PbProposal
  unfolding transition
  submit ctx req =
      transition ctx req role_contributor true (λ st i. C.submit st i ctx.subject ctx.now)

  unfoldable pub withdraw : Context → TransitionRequest → Exec State PbProposal
  unfolding transition
  withdraw ctx req =
      transition ctx req role_contributor false
        (λ st i. C.withdraw st i ctx.subject ctx.now req.reason)

  unfoldable pub claim : Context → TransitionRequest → Exec State PbProposal
  unfolding transition
  claim ctx req = transition ctx req role_curator false (λ st i. C.claim st i ctx.subject ctx.now)

  unfoldable pub reject : Context → TransitionRequest → Exec State PbProposal
  unfolding transition
  reject ctx req =
      transition ctx req role_curator false (λ st i. C.reject st i ctx.subject ctx.now req.reason)

  -- qcheckCreatePerson
  unfoldable pub check_person_quota : String → Exec State (Unit {0})
  unfolding person_quota_error
  check_person_quota gid s =
      (map_error person_quota_error (check_create_person s.limits gid s.platform), s)

  unfoldable pub accept : Context → TransitionRequest → Exec State PbProposal
  unfolding check_person_quota
  accept ctx req = do
    r ← resolve_store ctx ctx.subject req.genealogy_id role_curator false
    i ← lift (id_from_proto req.id)
    snap ← open_view r.0
    pending ← lift (C.get_proposal snap i)
    let creates_person = is_create (C.action pending) && is_person (C.entity_kind pending)
    if creates_person then check_person_quota req.genealogy_id else return tt
    out ← on_disk (C.accept r.0 i ctx.subject ctx.now)
    if creates_person then try_write (inc_person req.genealogy_id) else return tt
    return (proposal_to_proto out)

  -- What BulkReject reports for one id.
  unfoldable pub report : {A : Type 0} → Option String → Result A → BulkRejectResult
  report pid (ok a) = record { id = pid; ok = true; error = "" }
  report pid (err e) = record { id = pid; ok = false; error = C.error_text e }

  reject_parsed :
      Handle → Context → String → Option String → Result C.ModelId → Disk → BulkRejectResult × Disk
  unfolding report
  reject_parsed st ctx reason pid (ok i) disk =
      let (r, disk') = C.reject st i ctx.subject ctx.now reason disk in (report pid r, disk')
  reject_parsed st ctx reason pid (err e) disk = (report {A = C.ModelId} pid (err e), disk)

  -- The loop of BulkReject: no failure ends it.
  unfoldable pub reject_each :
      Handle → Context → String → List (Option String) → Disk → List BulkRejectResult × Disk
  unfolding reject_parsed
  reject_each st ctx reason [] disk = ([], disk)
  reject_each st ctx reason (pid ∷ pids) disk =
      let (r, disk') = reject_parsed st ctx reason pid (id_from_proto pid) disk in
      let (rs, last) = reject_each st ctx reason pids disk' in (r ∷ rs, last)

  unfoldable pub bulk_reject : Context → BulkRejectRequest → Exec State (List BulkRejectResult)
  unfolding reject_each
  bulk_reject ctx req = do
    r ← resolve_store ctx ctx.subject req.genealogy_id role_curator false
    λ s.
        (let (rs, disk) = reject_each r.0 ctx (bulk_reason req.reason) req.ids s.disk in
          (Result.ok rs, record s { disk = disk }))
