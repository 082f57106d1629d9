-- ===== src/Service/Proposals/Gates.antt =====
-- resolveStore in front of the handlers of proposals: who is kept out.
use linea_server.Prelude.{
  ◌<◌, ◌≡◌, ◌≢◌, refl, ap, sym, subst, ◌∙◌, inl, inr, String, str_eq, str_eq_of_ne, Bool, true,
  false, leb, arith, Bool-cases,
}
use linea_server.Result.{Result, ok, err, Result-cases}
use linea_server.Result.Exec.{Exec, continue}
use linea_server.Platform.Types.{Role, role_contributor, role_curator}
use linea_server.Platform.Badger.{Badger}
use linea_server.Platform.Store.{is_banned}
use linea_server.Authz.Coherence.{IsCoherent}
use linea_server.Tenants.{Stores}
use linea_server.Service.{Context, State, resolve_mapped, resolve_store, check_ban}
use linea_server.Service.Core.{Core}
use linea_server.Service.Genealogies.Gates.{Lacks, IsBelow, Refused, failed, policy-Lacks}
use linea_server.Service.Proposals.{
  CreateProposalRequest, TransitionRequest, BulkRejectRequest, create_proposal, transition, submit,
  claim, accept, reject, bulk_reject,
}

module _ ⦃B : Badger⦄ ⦃S : Stores⦄ where
  -- What would follow a step that fails is not reached.
  continue-Refused :
      {A D : Type 0} {s : State} {r : Result A × State} (f : A → Exec State D)
      → Refused s r
      → Refused s (continue r.0 f r.1)
  continue-Refused {r = (ok a, s')} f out = absurd (cc (out.fails.1))
  continue-Refused {r = (err e, s')} f out = record {
    fails = (e, refl);
    platform = out.platform;
    tenants = out.tenants;
    disk = out.disk;
  }

  not_leb : (a b : Role) → a < b → leb b a ≡ false
  not_leb a b h = ground arith

  lt_of_leb : (a b : Role) → leb a b ≡ false → b < a
  lt_of_leb a b h = ground arith

  resolve_store-Refused :
      (ctx : Context) (gid : String) (min : Role) (submission : Bool) (s : State)
      → Lacks ctx gid min s
      → Refused s (resolve_store ctx ctx.subject gid min submission s)
  unfolding resolve_store
  resolve_store-Refused ctx gid min submission s lacks = elim (Bool-cases (str_eq gid "")) [
    | inl nameless ↦ rw nameless (failed _ _ refl)
    | inr named ↦ go named lacks
  ]
    where
      go :
          str_eq gid "" ≡ false
          → Lacks ctx gid min s
          → Refused s (resolve_store ctx ctx.subject gid min submission s)
      go named (inl (e, p)) = rw (named, p) (failed _ _ refl)
      go named (inr (d, p, lt)) = rw (named, p, not_leb d.role min lt) (failed _ _ refl)

  -- The ban stops who would pass otherwise, and the policy the others.
  resolve_store-banned :
      (ctx : Context) (gid : String) (min : Role) (s : State)
      → ctx.subject ≢ ""
      → is_banned gid ctx.subject s.platform ≡ ok true
      → Refused s (resolve_store ctx ctx.subject gid min true s)
  unfolding resolve_store check_ban resolve_mapped
  resolve_store-banned ctx gid min s author banned =
      elim (Result-cases (resolve_mapped ctx ctx.subject gid s).0) [
        | inr (e, p) ↦ resolve_store-Refused ctx gid min true s (inl (e, p))
        | inl (d, p) ↦ elim (Bool-cases (leb min d.role)) [
          | inr weak ↦
              resolve_store-Refused ctx gid min true s (inr (d, p, lt_of_leb min d.role weak))
          | inl strong ↦ elim (Bool-cases (str_eq gid "")) [
            | inl nameless ↦ rw nameless (failed _ _ refl)
            | inr named ↦ rw (named, p, strong, str_eq_of_ne _ _ author, banned) (failed _ _ refl)
          ]
        ]
      ]

module _ ⦃B : Badger⦄ ⦃S : Stores⦄ ⦃C : Core⦄ where
  -- While the cached decisions are those of the database, a caller to whom the policy grants
  -- nothing on a genealogy, or only decisions below Curator, gets an error from Claim, Accept,
  -- Reject and BulkReject, and the stored data, the open stores and the disk are untouched.
  pub curator_proposals_gate :
      (ctx : Context) (req : TransitionRequest) (bulk : BulkRejectRequest) (s : State)
      → bulk.genealogy_id ≡ req.genealogy_id
      → IsCoherent s.platform s.authz
      → IsBelow ctx req.genealogy_id role_curator s
      → Refused s (claim ctx req s)
        × Refused s (accept ctx req s)
        × Refused s (reject ctx req s)
        × Refused s (bulk_reject ctx bulk s)
  unfolding claim accept reject bulk_reject transition
  curator_proposals_gate ctx req bulk s same v below =
      let lacks = policy-Lacks ctx req.genealogy_id role_curator s v below in
      let out = resolve_store-Refused ctx req.genealogy_id role_curator false s lacks in
      let out_bulk =
        resolve_store-Refused ctx bulk.genealogy_id role_curator false s
          (subst (λ g. Lacks ctx g role_curator s) (sym same) lacks) in
      (
        continue-Refused _ out,
        continue-Refused _ out,
        continue-Refused _ out,
        continue-Refused _ out_bulk,
      )

  -- A named caller who is banned from a genealogy gets an error from CreateProposal and Submit,
  -- whatever role the policy gives, and the stored data, the open stores and the disk are
  -- untouched.
  pub banned_author :
      (ctx : Context) (new_id : C.ModelId) (create : CreateProposalRequest)
      (req : TransitionRequest) (s : State)
      → create.genealogy_id ≡ req.genealogy_id
      → ctx.subject ≢ ""
      → is_banned req.genealogy_id ctx.subject s.platform ≡ ok true
      → Refused s (create_proposal ctx new_id create s) × Refused s (submit ctx req s)
  unfolding create_proposal submit transition
  banned_author ctx new_id create req s same author banned =
      let out_create =
        resolve_store-banned ctx create.genealogy_id role_contributor s author
          (ap (λ g. is_banned g ctx.subject s.platform) same ∙ banned) in
      let out = resolve_store-banned ctx req.genealogy_id role_contributor s author banned in
      (continue-Refused _ out_create, continue-Refused _ out)
