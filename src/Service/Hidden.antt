-- ===== src/Service/Hidden.antt =====
-- What a caller learns of a genealogy that is kept from them: not even that it exists.
use linea_server.Prelude.{◌≡◌, refl, ◌∙◌, ◌⊎◌, inl, inr, String, str_eq, Bool, true, false, Option}
use linea_server.Result.{ok, err, Error, not_allowed, not_found, linea, person_not_found}
use linea_server.Result.Exec.{Exec}
use linea_server.Platform.Types.{
  Role, role_viewer, role_contributor, role_curator, visibility_private, visibility_unlisted,
  Genealogy,
}
use linea_server.Platform.Badger.{Badger}
use linea_server.Platform.Store.{get_genealogy, get_membership}
use linea_server.Authz.{resolve_uncached}
use linea_server.Authz.Coherence.{IsCoherent, resolve_transparent}
use linea_server.Tenants.{Stores}
use linea_server.Service.{Context, State, resolve, resolve_mapped, require_role, resolve_store}
use linea_server.Service.Core.{Core}
use linea_server.Service.Proto.{UpdateVisibilityRequest, UpsertMembershipRequest, BanUserRequest}
use linea_server.Service.Mappers.{PbProposalState}
use linea_server.Service.Genealogies.{get_genealogy_rpc, update_visibility, delete_genealogy_rpc}
use linea_server.Service.Genealogies.Members.{
  upsert_membership, remove_member, ban_user, unban_user, list_members,
}
use linea_server.Service.Proposals.{
  CreateProposalRequest, TransitionRequest, BulkRejectRequest, get_proposal, list_proposals,
  create_proposal, submit, claim, withdraw, reject, accept, bulk_reject, transition,
}
use linea_server.Service.Entities.{
  get_person, list_persons, get_relationship, list_relationships, get_source, list_sources,
}
use linea_server.Service.Queries.{FindPathsRequest, NkcaRequest, find_paths, nkca}

-- The handlers that work on one genealogy, all but LeaveGenealogy, with its id.
pub data WorksOn ⦃B : Badger⦄ ⦃S : Stores⦄ ⦃C : Core⦄ (ctx : Context)
    : String → (A : Type 0) → Exec State A → Type 1 where
  by_get_genealogy_rpc : (id : String) → WorksOn ctx id _ (get_genealogy_rpc ctx id)
  by_update_visibility :
      (req : UpdateVisibilityRequest) → WorksOn ctx req.id _ (update_visibility ctx req)
  by_delete_genealogy_rpc : (id : String) → WorksOn ctx id _ (delete_genealogy_rpc ctx id)
  by_upsert_membership :
      (req : UpsertMembershipRequest) → WorksOn ctx req.genealogy_id _ (upsert_membership ctx req)
  by_remove_member : (gid subject : String) → WorksOn ctx gid _ (remove_member ctx gid subject)
  by_ban_user : (req : BanUserRequest) → WorksOn ctx req.genealogy_id _ (ban_user ctx req)
  by_unban_user : (gid subject : String) → WorksOn ctx gid _ (unban_user ctx gid subject)
  by_list_members : (gid : String) → WorksOn ctx gid _ (list_members ctx gid)
  by_get_proposal :
      (gid : String) (pid : Option String) → WorksOn ctx gid _ (get_proposal ctx gid pid)
  by_list_proposals :
      (gid : String) (filter : PbProposalState) → WorksOn ctx gid _ (list_proposals ctx gid filter)
  by_create_proposal :
      (new_id : C.ModelId) (req : CreateProposalRequest)
      → WorksOn ctx req.genealogy_id _ (create_proposal ctx new_id req)
  by_submit : (req : TransitionRequest) → WorksOn ctx req.genealogy_id _ (submit ctx req)
  by_withdraw : (req : TransitionRequest) → WorksOn ctx req.genealogy_id _ (withdraw ctx req)
  by_claim : (req : TransitionRequest) → WorksOn ctx req.genealogy_id _ (claim ctx req)
  by_reject : (req : TransitionRequest) → WorksOn ctx req.genealogy_id _ (reject ctx req)
  by_accept : (req : TransitionRequest) → WorksOn ctx req.genealogy_id _ (accept ctx req)
  by_bulk_reject : (req : BulkRejectRequest) → WorksOn ctx req.genealogy_id _ (bulk_reject ctx req)
  by_get_person : (gid : String) (pid : Option String) → WorksOn ctx gid _ (get_person ctx gid pid)
  by_list_persons : (gid : String) → WorksOn ctx gid _ (list_persons ctx gid)
  by_get_relationship :
      (gid : String) (pid : Option String) → WorksOn ctx gid _ (get_relationship ctx gid pid)
  by_list_relationships : (gid : String) → WorksOn ctx gid _ (list_relationships ctx gid)
  by_get_source : (gid : String) (pid : Option String) → WorksOn ctx gid _ (get_source ctx gid pid)
  by_list_sources : (gid : String) → WorksOn ctx gid _ (list_sources ctx gid)
  by_find_paths : (req : FindPathsRequest) → WorksOn ctx req.genealogy_id _ (find_paths ctx req)
  by_nkca : (req : NkcaRequest) → WorksOn ctx req.genealogy_id _ (nkca ctx req)

abbrev pub denied : Error
denied = linea person_not_found "genealogy not found or access denied"

module _ ⦃B : Badger⦄ ⦃S : Stores⦄ where
  -- There is no genealogy of the id, or it is private and the caller is no member, or it is unlisted
  -- and the caller is anonymous.
  pub data IsHidden (ctx : Context) (gid : String) (s : State) : Type 0 where
    missing : get_genealogy gid s.platform ≡ err not_found → IsHidden ctx gid s
    private :
        (g : Genealogy)
        → get_genealogy gid s.platform ≡ ok g
        → g.visibility ≡ visibility_private
        → str_eq ctx.subject "" ≡ false
        → get_membership g.id ctx.subject s.platform ≡ err not_found
        → IsHidden ctx gid s
    anonymous :
        (g : Genealogy)
        → get_genealogy gid s.platform ≡ ok g
        → (g.visibility ≡ visibility_private) ⊎ (g.visibility ≡ visibility_unlisted)
        → ctx.subject ≡ ""
        → IsHidden ctx gid s

  hidden_uncached :
      (ctx : Context) (gid : String) (s : State)
      → IsHidden ctx gid s
      → resolve_uncached ctx.subject gid s.platform ≡ err not_allowed
  unfolding resolve_uncached
  hidden_uncached ctx gid s (missing h) = rw h refl
  hidden_uncached ctx gid s (private g h v named m) = rw (h, named, m, v) refl
  hidden_uncached ctx gid s (anonymous g h (inl v) anon) = rw (h, anon, v) refl
  hidden_uncached ctx gid s (anonymous g h (inr v) anon) = rw (h, anon, v) refl

  hidden_resolve :
      (ctx : Context) (gid : String) (s : State)
      → str_eq gid "" ≡ false
      → IsCoherent s.platform s.authz
      → IsHidden ctx gid s
      → (resolve_mapped ctx ctx.subject gid s).0 ≡ err denied
  unfolding resolve_mapped resolve
  hidden_resolve ctx gid s named v h =
      rw
        ((resolve_transparent ctx.cache_read ctx.cache_write ctx.subject gid s.platform s.authz
            named v).0
          ∙ hidden_uncached ctx gid s h)
        refl

  hidden_store :
      (ctx : Context) (gid : String) (min : Role) (submission : Bool) (s : State)
      → str_eq gid "" ≡ false
      → (resolve_mapped ctx ctx.subject gid s).0 ≡ err denied
      → (resolve_store ctx ctx.subject gid min submission s).0 ≡ err denied
  unfolding resolve_store
  hidden_store ctx gid min submission s named h = rw (named, h) refl

module _ ⦃B : Badger⦄ ⦃S : Stores⦄ ⦃C : Core⦄ where
  refused_handler :
      {ctx : Context} {gid : String} {A : Type 0} {m : Exec State A} (s : State)
      → WorksOn ctx gid A m
      → str_eq gid "" ≡ false
      → (resolve_mapped ctx ctx.subject gid s).0 ≡ err denied
      → (m s).0 ≡ err denied
  refused_handler {ctx} s (by_get_genealogy_rpc id) named h = unfold get_genealogy_rpc in rw h refl
  refused_handler {ctx} s (by_update_visibility req) named h =
      unfold update_visibility require_role in rw h refl
  refused_handler {ctx} s (by_delete_genealogy_rpc id) named h =
      unfold delete_genealogy_rpc require_role in rw h refl
  refused_handler {ctx} s (by_upsert_membership req) named h = unfold upsert_membership in rw h refl
  refused_handler {ctx} s (by_remove_member gid subject) named h = unfold remove_member in rw h refl
  refused_handler {ctx} s (by_ban_user req) named h = unfold ban_user require_role in rw h refl
  refused_handler {ctx} s (by_unban_user gid subject) named h =
      unfold unban_user require_role in rw h refl
  refused_handler {ctx} s (by_list_members gid) named h =
      unfold list_members require_role in rw h refl
  refused_handler {ctx} s (by_get_proposal gid pid) named h =
      unfold get_proposal in rw (hidden_store ctx gid role_viewer false s named h) refl
  refused_handler {ctx} s (by_list_proposals gid filter) named h =
      unfold list_proposals in rw (hidden_store ctx gid role_viewer false s named h) refl
  refused_handler {ctx} s (by_create_proposal new_id req) named h =
      unfold create_proposal in
      rw (hidden_store ctx req.genealogy_id role_contributor true s named h) refl
  refused_handler {ctx} s (by_submit req) named h =
      unfold submit transition in
      rw (hidden_store ctx req.genealogy_id role_contributor true s named h) refl
  refused_handler {ctx} s (by_withdraw req) named h =
      unfold withdraw transition in
      rw (hidden_store ctx req.genealogy_id role_contributor false s named h) refl
  refused_handler {ctx} s (by_claim req) named h =
      unfold claim transition in
      rw (hidden_store ctx req.genealogy_id role_curator false s named h) refl
  refused_handler {ctx} s (by_reject req) named h =
      unfold reject transition in
      rw (hidden_store ctx req.genealogy_id role_curator false s named h) refl
  refused_handler {ctx} s (by_accept req) named h =
      unfold accept in rw (hidden_store ctx req.genealogy_id role_curator false s named h) refl
  refused_handler {ctx} s (by_bulk_reject req) named h =
      unfold bulk_reject in rw (hidden_store ctx req.genealogy_id role_curator false s named h) refl
  refused_handler {ctx} s (by_get_person gid pid) named h =
      unfold get_person in rw (hidden_store ctx gid role_viewer false s named h) refl
  refused_handler {ctx} s (by_list_persons gid) named h =
      unfold list_persons in rw (hidden_store ctx gid role_viewer false s named h) refl
  refused_handler {ctx} s (by_get_relationship gid pid) named h =
      unfold get_relationship in rw (hidden_store ctx gid role_viewer false s named h) refl
  refused_handler {ctx} s (by_list_relationships gid) named h =
      unfold list_relationships in rw (hidden_store ctx gid role_viewer false s named h) refl
  refused_handler {ctx} s (by_get_source gid pid) named h =
      unfold get_source in rw (hidden_store ctx gid role_viewer false s named h) refl
  refused_handler {ctx} s (by_list_sources gid) named h =
      unfold list_sources in rw (hidden_store ctx gid role_viewer false s named h) refl
  refused_handler {ctx} s (by_find_paths req) named h =
      unfold find_paths in rw (hidden_store ctx req.genealogy_id role_viewer false s named h) refl
  refused_handler {ctx} s (by_nkca req) named h =
      unfold nkca in rw (hidden_store ctx req.genealogy_id role_viewer false s named h) refl

  -- Each handler that works on one genealogy, all but LeaveGenealogy, gives one and the same error
  -- for every non-empty id that no genealogy has, or whose genealogy is private and the caller no
  -- member of it, or unlisted or private and the caller anonymous, while the cached decisions are
  -- those of the database.
  pub hidden_genealogy :
      (ctx : Context) (gid : String) {A : Type 0} {m : Exec State A} (s : State)
      → str_eq gid "" ≡ false
      → IsCoherent s.platform s.authz
      → IsHidden ctx gid s
      → WorksOn ctx gid A m
      → (m s).0 ≡ err denied
  hidden_genealogy ctx gid s named v h w =
      refused_handler s w named (hidden_resolve ctx gid s named v h)
