-- ===== src/Service/Genealogies/Gates.antt =====
-- Who may change a genealogy's members and settings.
use linea_server.Prelude.{
  ℕ, ◌<◌, ◌≡◌, refl, ap, ◌∙◌, ◌⊎◌, inl, inr, String, str_eq, false, leb, arith, Bool-cases,
}
use linea_server.Result.{Result, ok, err, Error, not_allowed, Result-cases}
use linea_server.Result.Exec.{Exec}
use linea_server.Platform.Types.{Role, role_owner, role_curator}
use linea_server.Platform.Badger.{Badger}
use linea_server.Authz
use linea_server.Authz.{Decision, Cache, resolve_uncached}
use linea_server.Authz.Policy.{Grants, resolve_uncached_iff}
use linea_server.Authz.Coherence.{IsCoherent, resolve_transparent}
use linea_server.Tenants.{Stores}
use linea_server.Service.{Context, State, resolve, resolve_mapped, map_authz_error, require_role}
use linea_server.Service.Proto.{UpdateVisibilityRequest, UpsertMembershipRequest, BanUserRequest}
use linea_server.Service.Genealogies.{update_visibility, delete_genealogy_rpc}
use linea_server.Service.Genealogies.Members.{
  upsert_membership, remove_member, ban_user, unban_user,
}

module _ ⦃B : Badger⦄ ⦃S : Stores⦄ where
  -- The role that a change of a genealogy's members or settings asks of its caller.
  pub data Asks (ctx : Context) : String → Role → (A : Type 0) → Exec State A → Type 1 where
    by_upsert_membership :
        (req : UpsertMembershipRequest)
        → Asks ctx req.genealogy_id role_curator _ (upsert_membership ctx req)
    by_remove_member :
        (gid subject : String) → Asks ctx gid role_curator _ (remove_member ctx gid subject)
    by_ban_user :
        (req : BanUserRequest) → Asks ctx req.genealogy_id role_curator _ (ban_user ctx req)
    by_unban_user :
        (gid subject : String) → Asks ctx gid role_curator _ (unban_user ctx gid subject)
    by_update_visibility :
        (req : UpdateVisibilityRequest) → Asks ctx req.id role_owner _ (update_visibility ctx req)
    by_delete_genealogy_rpc : (id : String) → Asks ctx id role_owner _ (delete_genealogy_rpc ctx id)

  -- Every decision that the policy grants the caller, if there is one, is below the role.
  abbrev pub IsBelow : Context → String → Role → State → Type 0
  IsBelow ctx gid min s = (d : Decision) → Grants s.platform ctx.subject gid d → d.role < min

  -- Resolve refuses the caller, or answers less than the role.
  abbrev pub Lacks : Context → String → Role → State → Type 0
  Lacks ctx gid min s =
      ((e : Error) × ((resolve_mapped ctx ctx.subject gid s).0 ≡ err e))
      ⊎ ((d : Decision) × ((resolve_mapped ctx ctx.subject gid s).0 ≡ ok d) × (d.role < min))

  -- The handler fails, and the stored data, the open stores and the disk are untouched.
  pub record Refused {A : Type 0} (s : State) (r : Result A × State) : Type 0 where
    pub fails : (e : Error) × (r.0 ≡ err e)
    pub platform : r.1.platform ≡ s.platform
    pub tenants : r.1.tenants ≡ s.tenants
    pub disk : r.1.disk ≡ s.disk

  -- A failure that touches the cached decisions at most.
  pub failed :
      {A : Type 0} {s s' : State} (e : Error) (c : Cache)
      → s' ≡ record s { authz = c }
      → Refused {A = A} s (err e, s')
  failed {s = s} e c only = record {
    fails = (e, refl);
    platform = ap (λ (x : State). x.platform) only;
    tenants = ap (λ (x : State). x.tenants) only;
    disk = ap (λ (x : State). x.disk) only;
  }

  not_leb : (a b : ℕ) → a < b → leb b a ≡ false
  not_leb a b h = ground arith

  upsert-Refused :
      (ctx : Context) (req : UpsertMembershipRequest) (s : State)
      → Lacks ctx req.genealogy_id role_curator s
      → Refused s (upsert_membership ctx req s)
  unfolding upsert_membership resolve_mapped
  upsert-Refused ctx req s (inl (e, p)) = rw p (failed _ _ refl)
  upsert-Refused ctx req s (inr (d, p, lt)) =
      rw (p, not_leb d.role role_curator lt) (failed _ _ refl)

  remove-Refused :
      (ctx : Context) (gid subject : String) (s : State)
      → Lacks ctx gid role_curator s
      → Refused s (remove_member ctx gid subject s)
  unfolding remove_member resolve_mapped
  remove-Refused ctx gid subject s (inl (e, p)) = rw p (failed _ _ refl)
  remove-Refused ctx gid subject s (inr (d, p, lt)) =
      rw (p, not_leb d.role role_curator lt) (failed _ _ refl)

  ban-Refused :
      (ctx : Context) (req : BanUserRequest) (s : State)
      → Lacks ctx req.genealogy_id role_curator s
      → Refused s (ban_user ctx req s)
  unfolding ban_user require_role resolve_mapped
  ban-Refused ctx req s (inl (e, p)) = rw p (failed _ _ refl)
  ban-Refused ctx req s (inr (d, p, lt)) = rw (p, not_leb d.role role_curator lt) (failed _ _ refl)

  unban-Refused :
      (ctx : Context) (gid subject : String) (s : State)
      → Lacks ctx gid role_curator s
      → Refused s (unban_user ctx gid subject s)
  unfolding unban_user require_role resolve_mapped
  unban-Refused ctx gid subject s (inl (e, p)) = rw p (failed _ _ refl)
  unban-Refused ctx gid subject s (inr (d, p, lt)) =
      rw (p, not_leb d.role role_curator lt) (failed _ _ refl)

  update-Refused :
      (ctx : Context) (req : UpdateVisibilityRequest) (s : State)
      → Lacks ctx req.id role_owner s
      → Refused s (update_visibility ctx req s)
  unfolding update_visibility require_role resolve_mapped
  update-Refused ctx req s (inl (e, p)) = rw p (failed _ _ refl)
  update-Refused ctx req s (inr (d, p, lt)) = rw (p, not_leb d.role role_owner lt) (failed _ _ refl)

  delete-Refused :
      (ctx : Context) (id : String) (s : State)
      → Lacks ctx id role_owner s
      → Refused s (delete_genealogy_rpc ctx id s)
  unfolding delete_genealogy_rpc require_role resolve_mapped
  delete-Refused ctx id s (inl (e, p)) = rw p (failed _ _ refl)
  delete-Refused ctx id s (inr (d, p, lt)) = rw (p, not_leb d.role role_owner lt) (failed _ _ refl)

  pub policy-Lacks :
      (ctx : Context) (gid : String) (min : Role) (s : State)
      → IsCoherent s.platform s.authz
      → IsBelow ctx gid min s
      → Lacks ctx gid min s
  unfolding resolve_mapped resolve
  policy-Lacks ctx gid min s v below = elim (Bool-cases (str_eq gid "")) [
    | inl nameless ↦ inl (map_authz_error not_allowed, unfold Authz.resolve in rw nameless refl)
    | inr named ↦
        let same =
          (resolve_transparent ctx.cache_read ctx.cache_write ctx.subject gid s.platform s.authz
            named v).0 in
        elim (Result-cases (resolve_uncached ctx.subject gid s.platform)) [
          | inr (e, p) ↦ inl (map_authz_error e, rw (same ∙ p) refl)
          | inl (d, p) ↦ inr (
            d,
            rw (same ∙ p) refl,
            below d ((resolve_uncached_iff s.platform ctx.subject gid d).0 p),
          )
        ]
  ]

  lacking-Refused :
      {ctx : Context} {gid : String} {min : Role} {A : Type 0} {m : Exec State A} (s : State)
      → Asks ctx gid min A m
      → Lacks ctx gid min s
      → Refused s (m s)
  lacking-Refused {ctx} s (by_upsert_membership req) h = upsert-Refused ctx req s h
  lacking-Refused {ctx} s (by_remove_member gid subject) h = remove-Refused ctx gid subject s h
  lacking-Refused {ctx} s (by_ban_user req) h = ban-Refused ctx req s h
  lacking-Refused {ctx} s (by_unban_user gid subject) h = unban-Refused ctx gid subject s h
  lacking-Refused {ctx} s (by_update_visibility req) h = update-Refused ctx req s h
  lacking-Refused {ctx} s (by_delete_genealogy_rpc id) h = delete-Refused ctx id s h

  -- While the cached decisions are those of the database, a caller to whom the policy grants
  -- nothing on a genealogy, or only decisions below the role that a handler asks, gets an error
  -- from the handler, and the stored data, the open stores and the disk are untouched:
  -- UpsertMembership, RemoveMember, BanUser and UnbanUser ask Curator, UpdateVisibility and
  -- DeleteGenealogy ask Owner.
  pub role_gate :
      (ctx : Context) (gid : String) (min : Role) {A : Type 0} {m : Exec State A} (s : State)
      → Asks ctx gid min A m
      → IsCoherent s.platform s.authz
      → IsBelow ctx gid min s
      → Refused s (m s)
  role_gate ctx gid min s asks v below = lacking-Refused s asks (policy-Lacks ctx gid min s v below)
