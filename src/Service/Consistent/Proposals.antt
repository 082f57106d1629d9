-- ===== src/Service/Consistent/Proposals.antt =====
-- The handlers of internal/service/proposals.go keep the invariant.
use linea_server.Prelude.{refl, String, Bool, true, false, ◌&&◌, Option}
use linea_server.Result.{Result}
use linea_server.Result.Exec.Triple.{Triple-bind, Triple-then, Triple-return, Triple-if}
use linea_server.Platform.Types.{Role, role_contributor, role_curator}
use linea_server.Platform.Badger.{Badger}
use linea_server.Tenants.{Stores, Handle, Disk}
use linea_server.Quotas.{inc_person}
use linea_server.Quotas.Untouched.{inc_person-Untouched}
use linea_server.Authz.Consistent.{IsConsistent, Untouched-IsConsistent}
use linea_server.Service.{Context}
use linea_server.Service.Core.{Core}
use linea_server.Service.Mappers.{
  PbProposalState, proposal_state_from_proto, id_from_proto, proposal_to_proto,
}
use linea_server.Service.Proposals.{
  CreateProposalRequest, TransitionRequest, BulkRejectRequest, ids_from_proto, keep_state,
  get_proposal, list_proposals, create_proposal, transition, submit, claim, withdraw, reject,
  accept, bulk_reject, check_person_quota, is_create, is_person,
}
use linea_server.Service.Consistent.{
  Keeps, aside-Triple, try_write-Triple, resolve_store-Keeps, lift-Keeps, on_disk-Keeps,
  open_view-Keeps,
}
use linea_server.Service.Consistent.Reads.{read_one-Keeps, read_all-Keeps}

module _ ⦃B : Badger⦄ ⦃S : Stores⦄ ⦃C : Core⦄ where
  pub get_proposal-Keeps :
      (ctx : Context) (gid : String) (pid : Option String) → Keeps (get_proposal ctx gid pid)
  unfolding get_proposal
  get_proposal-Keeps ctx gid pid =
      read_one-Keeps ctx gid pid C.get_proposal (λ p n. (proposal_to_proto p, n))

  pub list_proposals-Keeps :
      (ctx : Context) (gid : String) (filter : PbProposalState)
      → Keeps (list_proposals ctx gid filter)
  unfolding list_proposals
  list_proposals-Keeps ctx gid filter =
      read_all-Keeps ctx gid C.proposals
        (λ ps n. (keep_state (proposal_state_from_proto filter) ps, n))

  pub create_proposal-Keeps :
      (ctx : Context) (new_id : C.ModelId) (req : CreateProposalRequest)
      → Keeps (create_proposal ctx new_id req)
  unfolding create_proposal
  create_proposal-Keeps ctx new_id req =
      Triple-bind (resolve_store-Keeps ctx ctx.subject req.genealogy_id role_contributor true) (λ r.
        Triple-bind (lift-Keeps (id_from_proto req.target_id)) (λ target.
          Triple-bind (lift-Keeps (id_from_proto req.secondary_id)) (λ secondary.
            Triple-bind (lift-Keeps (ids_from_proto req.sources)) (λ sources.
              Triple-bind (lift-Keeps _) (λ pp.
                Triple-bind (on_disk-Keeps (C.put_proposal r.0 pp))
                  (λ v. Triple-return (proposal_to_proto pp, v) (λ s k. k)))))))

  transition-Keeps :
      (ctx : Context) (req : TransitionRequest) (min : Role) (submission : Bool)
      (fn : Handle → C.ModelId → Disk → Result C.Proposal × Disk)
      → Keeps (transition ctx req min submission fn)
  unfolding transition
  transition-Keeps ctx req min submission fn =
      Triple-bind (resolve_store-Keeps ctx ctx.subject req.genealogy_id min submission) (λ r.
        Triple-bind (lift-Keeps (id_from_proto req.id)) (λ i.
          Triple-bind (on_disk-Keeps (fn r.0 i))
            (λ out. Triple-return (proposal_to_proto out) (λ s k. k))))

  pub submit-Keeps : (ctx : Context) (req : TransitionRequest) → Keeps (submit ctx req)
  unfolding submit
  submit-Keeps ctx req = transition-Keeps ctx req role_contributor true _

  pub claim-Keeps : (ctx : Context) (req : TransitionRequest) → Keeps (claim ctx req)
  unfolding claim
  claim-Keeps ctx req = transition-Keeps ctx req role_curator false _

  pub withdraw-Keeps : (ctx : Context) (req : TransitionRequest) → Keeps (withdraw ctx req)
  unfolding withdraw
  withdraw-Keeps ctx req = transition-Keeps ctx req role_contributor false _

  pub reject-Keeps : (ctx : Context) (req : TransitionRequest) → Keeps (reject ctx req)
  unfolding reject
  reject-Keeps ctx req = transition-Keeps ctx req role_curator false _

  pub accept-Keeps : (ctx : Context) (req : TransitionRequest) → Keeps (accept ctx req)
  unfolding accept check_person_quota
  accept-Keeps ctx req =
      Triple-bind (resolve_store-Keeps ctx ctx.subject req.genealogy_id role_curator false) (λ r.
        Triple-bind (lift-Keeps (id_from_proto req.id)) (λ i.
          Triple-bind (open_view-Keeps r.0) (λ snap.
            Triple-bind (lift-Keeps (C.get_proposal snap i)) (λ pending.
              let creates = is_create (C.action pending) && is_person (C.entity_kind pending) in
              Triple-then
                (Triple-if creates
                  (λ on.
                    aside-Triple IsConsistent (check_person_quota req.genealogy_id) (λ s v. v)
                      (λ s. refl) (λ s. refl))
                  (λ off. Triple-return tt (λ s v. v)))
                (Triple-bind (on_disk-Keeps (C.accept r.0 i ctx.subject ctx.now)) (λ out.
                  Triple-then
                    (Triple-if creates
                      (λ on. try_write-Triple (inc_person req.genealogy_id) (λ s db v h.
                        Untouched-IsConsistent s.platform db _
                          (inc_person-Untouched req.genealogy_id s.platform h) v))
                      (λ off. Triple-return tt (λ s v. v)))
                    (Triple-return (proposal_to_proto out) (λ s v. v))))))))

  pub bulk_reject-Keeps : (ctx : Context) (req : BulkRejectRequest) → Keeps (bulk_reject ctx req)
  unfolding bulk_reject
  bulk_reject-Keeps ctx req =
      Triple-bind (resolve_store-Keeps ctx ctx.subject req.genealogy_id role_curator false)
        (λ r. aside-Triple IsConsistent _ (λ s v. v) (λ s. refl) (λ s. refl))
