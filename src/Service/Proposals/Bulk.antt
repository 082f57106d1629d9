-- ===== src/Service/Proposals/Bulk.antt =====
-- BulkReject reports on every id.
use linea_server.Prelude.{
  ◌≡◌, refl, inl, inr, String, str_eq, Option, List, [], ◌∷◌, true, false, if◌then◌else◌,
}
use linea_server.Result.{ok, err, Error, Result-cases}
use linea_server.Platform.Types.{role_curator}
use linea_server.Platform.Badger.{Badger}
use linea_server.Tenants.{Stores, Handle, Disk}
use linea_server.Authz.{Decision}
use linea_server.Service.{Context, State, resolve_store}
use linea_server.Service.Core.{Core}
use linea_server.Service.Mappers.{id_from_proto}
use linea_server.Service.Proposals.{
  BulkRejectRequest, BulkRejectResult, report, reject_parsed, reject_each, bulk_reason, bulk_reject,
}

pair_path : {A B : Type 0} {p : A × B} {a : A} → p.0 ≡ a → p ≡ (a, p.1)
pair_path {p = p} h = λ i. (h i, p.1)

module _ ⦃B : Badger⦄ ⦃S : Stores⦄ ⦃C : Core⦄ where
  -- The run of the rejections one after the other: what each id reports, and the disk it leaves.
  -- An id that is no identifier is reported and changes nothing.
  pub data Rejections (st : Handle) (ctx : Context) (reason : String)
      : List (Option String) → Disk → List BulkRejectResult → Disk → Type 0 where
    done : (disk : Disk) → Rejections st ctx reason [] disk [] disk
    rejected :
        (pid : Option String) (pids : List (Option String)) (i : C.ModelId) (p : C.Proposal)
        (disk next last : Disk) (rs : List BulkRejectResult)
        → id_from_proto pid ≡ ok i
        → C.reject st i ctx.subject ctx.now reason disk ≡ (ok p, next)
        → Rejections st ctx reason pids next rs last
        → Rejections st ctx reason
            (pid ∷ pids)
            disk
            (record { id = pid; ok = true; error = "" } ∷ rs)
            last
    failed :
        (pid : Option String) (pids : List (Option String)) (i : C.ModelId) (e : Error)
        (disk next last : Disk) (rs : List BulkRejectResult)
        → id_from_proto pid ≡ ok i
        → C.reject st i ctx.subject ctx.now reason disk ≡ (err e, next)
        → Rejections st ctx reason pids next rs last
        → Rejections st ctx reason
            (pid ∷ pids)
            disk
            (record { id = pid; ok = false; error = C.error_text e } ∷ rs)
            last
    malformed :
        (pid : Option String) (pids : List (Option String)) (e : Error) (disk last : Disk)
        (rs : List BulkRejectResult)
        → id_from_proto pid ≡ err e
        → Rejections st ctx reason pids disk rs last
        → Rejections st ctx reason
            (pid ∷ pids)
            disk
            (record { id = pid; ok = false; error = C.error_text e } ∷ rs)
            last

  module _ (st : Handle) (ctx : Context) (reason : String) where
    -- One id, and the rejections behind it.
    first_rejection :
        (pid : Option String) (pids : List (Option String)) (disk : Disk)
        → ((next : Disk)
            → Rejections st ctx reason pids next
                (reject_each st ctx reason pids next).0
                (reject_each st ctx reason pids next).1)
        → Rejections st ctx reason
            (pid ∷ pids)
            disk
            (reject_each st ctx reason (pid ∷ pids) disk).0
            (reject_each st ctx reason (pid ∷ pids) disk).1
    unfolding reject_each reject_parsed report
    first_rejection pid pids disk behind = elim (Result-cases (id_from_proto pid)) [
      | inr (e, p) ↦ rw p (malformed pid pids e disk _ _ p (behind disk))
      | inl (i, p) ↦
          let after = (C.reject st i ctx.subject ctx.now reason disk).1 in
          elim (Result-cases (C.reject st i ctx.subject ctx.now reason disk).0) [
            | inl (q, h) ↦
                rw (p, h) (rejected pid pids i q disk after _ _ p (pair_path h) (behind after))
            | inr (e, h) ↦
                rw (p, h) (failed pid pids i e disk after _ _ p (pair_path h) (behind after))
          ]
    ]

    reject_each-Rejections :
        (pids : List (Option String)) (disk : Disk)
        → Rejections st ctx reason pids disk
            (reject_each st ctx reason pids disk).0
            (reject_each st ctx reason pids disk).1
    reject_each-Rejections [] disk = unfold reject_each in done disk
    reject_each-Rejections (pid ∷ pids) disk =
        first_rejection pid pids disk (reject_each-Rejections pids)

  -- Once its gate is passed, BulkReject succeeds: in the order of the request it rejects each id
  -- that is one, with the reason of the request or "bulk reject", on the disk that the one before
  -- left; it reports success where the rejection succeeds and the error's text where that or the
  -- reading of the id fails, which does not end the loop; and it changes nothing but the disk.
  pub bulk_reject_lem :
      (ctx : Context) (req : BulkRejectRequest) (s : State) {r : Handle × Decision} {s' : State}
      → resolve_store ctx ctx.subject req.genealogy_id role_curator false s ≡ (ok r, s')
      → (rs : List BulkRejectResult) × (disk : Disk) × Rejections r.0 ctx
          (if str_eq req.reason "" then "bulk reject" else req.reason)
          req.ids
          s'.disk
          rs
          disk
        × (bulk_reject ctx req s ≡ (ok rs, record s' { disk = disk }))
  unfolding bulk_reject bulk_reason
  bulk_reject_lem ctx req s {r} {s'} h =
      let reason = bulk_reason req.reason in
      (
        (reject_each r.0 ctx reason req.ids s'.disk).0,
        (reject_each r.0 ctx reason req.ids s'.disk).1,
        reject_each-Rejections r.0 ctx reason req.ids s'.disk,
        rw h refl,
      )
