-- ===== src/Service/Consistent/Reachable.antt =====
-- Whatever requests a server has served, in any order, its stored data and its decision cache agree.
use linea_server.Prelude.{◌≡◌, String, str_eq, false, Option}
use linea_server.Result.{Result, ok, err, not_found}
use linea_server.Result.Exec.Triple.{Post, Post-ok}
use linea_server.Result.Exec.{Exec}
use linea_server.Platform.Badger.{Badger}
use linea_server.Platform.Keys.{IsId}
use linea_server.Platform.Store.{get_genealogy}
use linea_server.Authz.{resolve_uncached}
use linea_server.Authz.Coherence.{resolve_transparent}
use linea_server.Authz.Consistent.{IsConsistent}
use linea_server.Tenants.{Stores}
use linea_server.Service.{Context, State, resolve}
use linea_server.Service.Core.{Core}
use linea_server.Service.Proto.{
  CreateGenealogyRequest, UpdateVisibilityRequest, UpsertMembershipRequest, BanUserRequest,
}
use linea_server.Service.Mappers.{PbProposalState}
use linea_server.Service.Genealogies.{
  create_genealogy, get_genealogy_rpc, update_visibility, delete_genealogy_rpc,
}
use linea_server.Service.Genealogies.Members.{
  upsert_membership, remove_member, leave_genealogy, ban_user, unban_user, list_members,
}
use linea_server.Service.Genealogies.ListGenealogies.{list_genealogies}
use linea_server.Service.Proposals.{
  CreateProposalRequest, TransitionRequest, BulkRejectRequest, get_proposal, list_proposals,
  create_proposal, submit, claim, withdraw, reject, accept, bulk_reject,
}
use linea_server.Service.Entities.{
  get_person, list_persons, get_relationship, list_relationships, get_source, list_sources,
}
use linea_server.Service.Queries.{FindPathsRequest, NkcaRequest, find_paths, nkca}
use linea_server.Service.Consistent.{Sound, Keeps}
use linea_server.Service.Consistent.Genealogies.{
  create_genealogy-Triple, get_genealogy_rpc-Keeps, update_visibility-Keeps,
}
use linea_server.Service.Consistent.Genealogies.Delete.{delete_genealogy_rpc-Triple}
use linea_server.Service.Consistent.Members.{
  upsert_membership-Keeps, remove_member-Keeps, leave_genealogy-Keeps, ban_user-Keeps,
  unban_user-Keeps, list_members-Keeps,
}
use linea_server.Service.Consistent.Reads.{
  list_genealogies-Keeps, get_person-Keeps, list_persons-Keeps, get_relationship-Keeps,
  list_relationships-Keeps, get_source-Keeps, list_sources-Keeps, find_paths-Keeps, nkca-Keeps,
}
use linea_server.Service.Consistent.Proposals.{
  get_proposal-Keeps, list_proposals-Keeps, create_proposal-Keeps, submit-Keeps, claim-Keeps,
  withdraw-Keeps, reject-Keeps, accept-Keeps, bulk_reject-Keeps,
}

-- A handler that has run. The id of a new genealogy is not in use, and holds no "/", as a UUID does
-- not; nor does the one that LeaveGenealogy is given. DeleteGenealogy counts when it succeeds.
pub data Step ⦃B : Badger⦄ ⦃S : Stores⦄ ⦃C : Core⦄ : State → State → Type 0 where
  create_genealogy_served :
      {s : State} (ctx : Context) (gid : String) (req : CreateGenealogyRequest)
      → IsId gid
      → get_genealogy gid s.platform ≡ err not_found
      → Step s (create_genealogy ctx gid req s).1
  list_genealogies_served : {s : State} (ctx : Context) → Step s (list_genealogies ctx s).1
  get_genealogy_rpc_served :
      {s : State} (ctx : Context) (id : String) → Step s (get_genealogy_rpc ctx id s).1
  update_visibility_served :
      {s : State} (ctx : Context) (req : UpdateVisibilityRequest)
      → Step s (update_visibility ctx req s).1
  delete_genealogy_rpc_served :
      {s : State} (ctx : Context) (id : String)
      → (delete_genealogy_rpc ctx id s).0 ≡ ok tt
      → Step s (delete_genealogy_rpc ctx id s).1
  upsert_membership_served :
      {s : State} (ctx : Context) (req : UpsertMembershipRequest)
      → Step s (upsert_membership ctx req s).1
  remove_member_served :
      {s : State} (ctx : Context) (gid subject : String)
      → Step s (remove_member ctx gid subject s).1
  leave_genealogy_served :
      {s : State} (ctx : Context) (id : String) → IsId id → Step s (leave_genealogy ctx id s).1
  ban_user_served :
      {s : State} (ctx : Context) (req : BanUserRequest) → Step s (ban_user ctx req s).1
  unban_user_served :
      {s : State} (ctx : Context) (gid subject : String) → Step s (unban_user ctx gid subject s).1
  list_members_served :
      {s : State} (ctx : Context) (gid : String) → Step s (list_members ctx gid s).1
  get_proposal_served :
      {s : State} (ctx : Context) (gid : String) (pid : Option String)
      → Step s (get_proposal ctx gid pid s).1
  list_proposals_served :
      {s : State} (ctx : Context) (gid : String) (filter : PbProposalState)
      → Step s (list_proposals ctx gid filter s).1
  create_proposal_served :
      {s : State} (ctx : Context) (new_id : C.ModelId) (req : CreateProposalRequest)
      → Step s (create_proposal ctx new_id req s).1
  submit_served :
      {s : State} (ctx : Context) (req : TransitionRequest) → Step s (submit ctx req s).1
  withdraw_served :
      {s : State} (ctx : Context) (req : TransitionRequest) → Step s (withdraw ctx req s).1
  claim_served : {s : State} (ctx : Context) (req : TransitionRequest) → Step s (claim ctx req s).1
  reject_served :
      {s : State} (ctx : Context) (req : TransitionRequest) → Step s (reject ctx req s).1
  accept_served :
      {s : State} (ctx : Context) (req : TransitionRequest) → Step s (accept ctx req s).1
  bulk_reject_served :
      {s : State} (ctx : Context) (req : BulkRejectRequest) → Step s (bulk_reject ctx req s).1
  get_person_served :
      {s : State} (ctx : Context) (gid : String) (pid : Option String)
      → Step s (get_person ctx gid pid s).1
  list_persons_served :
      {s : State} (ctx : Context) (gid : String) → Step s (list_persons ctx gid s).1
  get_relationship_served :
      {s : State} (ctx : Context) (gid : String) (pid : Option String)
      → Step s (get_relationship ctx gid pid s).1
  list_relationships_served :
      {s : State} (ctx : Context) (gid : String) → Step s (list_relationships ctx gid s).1
  get_source_served :
      {s : State} (ctx : Context) (gid : String) (pid : Option String)
      → Step s (get_source ctx gid pid s).1
  list_sources_served :
      {s : State} (ctx : Context) (gid : String) → Step s (list_sources ctx gid s).1
  find_paths_served :
      {s : State} (ctx : Context) (req : FindPathsRequest) → Step s (find_paths ctx req s).1
  nkca_served : {s : State} (ctx : Context) (req : NkcaRequest) → Step s (nkca ctx req s).1

-- Any number of them, one after the other.
pub data Reach ⦃B : Badger⦄ ⦃S : Stores⦄ ⦃C : Core⦄ (s : State) : State → Type 0 where
  here : Reach s s
  next : {t u : State} → Reach s t → Step t u → Reach s u

module _ ⦃B : Badger⦄ ⦃S : Stores⦄ where
  Post-Sound : {A : Type 0} (r : Result A) (s : State) → Post Sound (λ _. Sound) r s → Sound s
  Post-Sound (ok a) s v = v
  Post-Sound (err e) s v = v

  after : {A : Type 0} (m : Exec State A) (s : State) → Keeps m → Sound s → Sound (m s).1
  after m s keeps v = Post-Sound (m s).0 (m s).1 (keeps.at s v)

module _ ⦃B : Badger⦄ ⦃S : Stores⦄ ⦃C : Core⦄ where
  Step-Sound : {s t : State} → Step s t → Sound s → Sound t
  Step-Sound {s} (create_genealogy_served ctx gid req is_id fresh) v =
      Post-Sound (create_genealogy ctx gid req s).0 _
        ((create_genealogy-Triple ctx gid req is_id).at s (v, fresh))
  Step-Sound {s} (list_genealogies_served ctx) v = after _ s (list_genealogies-Keeps ctx) v
  Step-Sound {s} (get_genealogy_rpc_served ctx id) v = after _ s (get_genealogy_rpc-Keeps ctx id) v
  Step-Sound {s} (update_visibility_served ctx req) v =
      after _ s (update_visibility-Keeps ctx req) v
  Step-Sound {s} (delete_genealogy_rpc_served ctx id done) v =
      Post-ok _ _ (delete_genealogy_rpc ctx id s).0 _ done
        ((delete_genealogy_rpc-Triple ctx id).at s v)
  Step-Sound {s} (upsert_membership_served ctx req) v =
      after _ s (upsert_membership-Keeps ctx req) v
  Step-Sound {s} (remove_member_served ctx gid subject) v =
      after _ s (remove_member-Keeps ctx gid subject) v
  Step-Sound {s} (leave_genealogy_served ctx id is_id) v =
      after _ s (leave_genealogy-Keeps ctx id is_id) v
  Step-Sound {s} (ban_user_served ctx req) v = after _ s (ban_user-Keeps ctx req) v
  Step-Sound {s} (unban_user_served ctx gid subject) v =
      after _ s (unban_user-Keeps ctx gid subject) v
  Step-Sound {s} (list_members_served ctx gid) v = after _ s (list_members-Keeps ctx gid) v
  Step-Sound {s} (get_proposal_served ctx gid pid) v = after _ s (get_proposal-Keeps ctx gid pid) v
  Step-Sound {s} (list_proposals_served ctx gid filter) v =
      after _ s (list_proposals-Keeps ctx gid filter) v
  Step-Sound {s} (create_proposal_served ctx new_id req) v =
      after _ s (create_proposal-Keeps ctx new_id req) v
  Step-Sound {s} (submit_served ctx req) v = after _ s (submit-Keeps ctx req) v
  Step-Sound {s} (withdraw_served ctx req) v = after _ s (withdraw-Keeps ctx req) v
  Step-Sound {s} (claim_served ctx req) v = after _ s (claim-Keeps ctx req) v
  Step-Sound {s} (reject_served ctx req) v = after _ s (reject-Keeps ctx req) v
  Step-Sound {s} (accept_served ctx req) v = after _ s (accept-Keeps ctx req) v
  Step-Sound {s} (bulk_reject_served ctx req) v = after _ s (bulk_reject-Keeps ctx req) v
  Step-Sound {s} (get_person_served ctx gid pid) v = after _ s (get_person-Keeps ctx gid pid) v
  Step-Sound {s} (list_persons_served ctx gid) v = after _ s (list_persons-Keeps ctx gid) v
  Step-Sound {s} (get_relationship_served ctx gid pid) v =
      after _ s (get_relationship-Keeps ctx gid pid) v
  Step-Sound {s} (list_relationships_served ctx gid) v =
      after _ s (list_relationships-Keeps ctx gid) v
  Step-Sound {s} (get_source_served ctx gid pid) v = after _ s (get_source-Keeps ctx gid pid) v
  Step-Sound {s} (list_sources_served ctx gid) v = after _ s (list_sources-Keeps ctx gid) v
  Step-Sound {s} (find_paths_served ctx req) v = after _ s (find_paths-Keeps ctx req) v
  Step-Sound {s} (nkca_served ctx req) v = after _ s (nkca-Keeps ctx req) v

  Reach-Sound : {s t : State} → Reach s t → Sound s → Sound t
  Reach-Sound here v = v
  Reach-Sound (next r st) v = Step-Sound st (Reach-Sound r v)

  -- Whatever handlers of the genealogies, proposals, entities and queries services have run, one
  -- after the other, for whomever, with whatever requests and errors, from a state that is
  -- consistent (genealogies stand under their own ids without "/", the two copies of a membership
  -- are equal, and the cached decisions are those of the database), the state is consistent, and
  -- the cached Resolve for a non-empty genealogy id gives what it would give without the cache. A
  -- new genealogy's id is not in use and holds no "/", the id that LeaveGenealogy is given holds
  -- no "/", and a DeleteGenealogy that fails does not count.
  pub served_requests-IsConsistent :
      {s t : State} (ctx : Context) (sub gid : String)
      → IsConsistent s.platform s.authz
      → Reach s t
      → str_eq gid "" ≡ false
      → IsConsistent t.platform t.authz
        × ((resolve ctx sub gid t).0 ≡ resolve_uncached sub gid t.platform)
  unfolding resolve
  served_requests-IsConsistent {s} {t} ctx sub gid v r named =
      let v' = Reach-Sound r v in
      (
        v',
        (resolve_transparent ctx.cache_read ctx.cache_write sub gid t.platform t.authz named
            v'.coherent).0,
      )
