-- ===== src/Service/Consistent.antt =====
-- The steps that the handlers of internal/service are made of, and the invariant of the stored data
-- and the decision cache.
pub mod Members
pub mod Genealogies
pub mod Reads
pub mod Proposals
pub mod Reachable
use linea_server.Prelude.{
  ◌≡◌, refl, inl, inr, subst, sym, ◌∙◌, String, str_eq, Bool, true, false, Bool-cases, arith, leb,
  not, if◌then◌else◌,
}
use linea_server.Result.{Result, ok, err, Error, Result-cases}
use linea_server.Result.Exec.{Exec, continue, ◌>>=◌, ◌>>◌, require, return}
use linea_server.Result.Exec.Triple.{
  Post, Triple, Triple-bind, Triple-then, Triple-require, Triple-if, Triple-return, Triple-weaken,
}
use linea_server.Platform.Types.{Role}
use linea_server.Platform.Badger.{Badger, Db}
use linea_server.Platform.Keys.{IsId}
use linea_server.Platform.Store.{is_banned}
use linea_server.Authz
use linea_server.Authz.{Decision, Cache}
use linea_server.Authz.Coherence.{resolved_genealogy, resolve_transparent}
use linea_server.Authz.Consistent.{IsConsistent, resolve-IsConsistent, invalidate-IsConsistent}
use linea_server.Tenants.{Stores, Handle, Disk}
use linea_server.Service.{
  Context, State, invalid, resolve, resolve_mapped, invalidate, require_role, read, write,
  try_write, resolve_store, tenants_get, check_ban, map_authz_error, insufficient_role, map_error,
}
use linea_server.Service.Core.{Core}
use linea_server.Service.StoreAccess.{lift, on_disk, open_view}

module _ ⦃B : Badger⦄ ⦃S : Stores⦄ where
  abbrev pub Sound : State → Type 0
  Sound s = IsConsistent s.platform s.authz

  -- The invariant holds once Invalidate has run.
  abbrev pub Stale : String → String → State → Type 0
  Stale sub gid s = IsConsistent s.platform (Authz.invalidate sub gid s.authz)

  -- A genealogy that the policy knows.
  abbrev pub Known : String → State → Type 0
  Known gid s = Sound s × IsId gid

  -- The invariant is kept, whether the handler succeeds or fails.
  abbrev pub Keeps : {A : Type 0} → Exec State A → Type 0
  Keeps m = Triple Sound Sound m (λ _. Sound)

  resolved-IsId :
      (ctx : Context) (sub gid : String) (s : State) (d : Decision)
      → Sound s
      → (resolve ctx sub gid s).0 ≡ ok d
      → IsId gid
  unfolding resolve Authz.resolve
  resolved-IsId ctx sub gid s d v h = elim (Bool-cases (str_eq gid "")) [
    | inl nameless ↦ absurd (cc (rw nameless at h))
    | inr named ↦
        let e =
          (resolve_transparent ctx.cache_read ctx.cache_write sub gid s.platform s.authz named
            v.coherent).0 in
        let (g, p) = resolved_genealogy sub gid s.platform d (sym e ∙ h) in
        (v.well_keyed.named gid g p).1
  ]

  pub resolve_mapped-Triple :
      (ctx : Context) (sub gid : String)
      → Triple Sound Sound (resolve_mapped ctx sub gid) (λ d. Known gid)
  unfolding resolve_mapped
  resolve_mapped-Triple ctx sub gid = record { at = λ s v. go s v }
    where
      go :
          (s : State)
          → Sound s
          → Post Sound
              (λ d. Known gid)
              (resolve_mapped ctx sub gid s).0
              (resolve_mapped ctx sub gid s).1
      go s v =
          let kept =
            resolve-IsConsistent ctx.cache_read ctx.cache_write sub gid s.platform s.authz v in
          elim (Result-cases (resolve ctx sub gid s).0) [
            | inl (d, p) ↦ rw p (kept, resolved-IsId ctx sub gid s d v p)
            | inr (e, p) ↦ rw p kept
          ]

  pub require_role-Triple :
      (ctx : Context) (sub gid : String) (min : Role)
      → Triple Sound Sound (require_role ctx sub gid min) (λ _. Known gid)
  unfolding require_role
  require_role-Triple ctx sub gid min =
      Triple-bind (resolve_mapped-Triple ctx sub gid)
        (λ d. Triple-require (leb min d.role) (insufficient_role d.role min) (λ s v. v.0))

  pub read-Triple :
      {A : Type 0} {P : State → Type 0} (f : Db → Result A)
      → ((s : State) → P s → Sound s)
      → Triple Sound P (read f) (λ a s. P s × (f s.platform ≡ ok a))
  read-Triple {A} {P} f sound = record { at = λ s p. go s p (f s.platform) refl }
    where
      go :
          (s : State)
          → P s
          → (r : Result A) → f s.platform ≡ r
          → Post Sound (λ a t. P t × (f t.platform ≡ ok a)) r s
      go s p (ok a) e = (p, e)
      go s p (err x) e = sound s p

  pub write-Triple :
      {E P Q : State → Type 0} (f : Db → Result Db)
      → ((s : State) → P s → E s)
      → ((s : State) (db : Db) → P s → f s.platform ≡ ok db → Q (record s { platform = db }))
      → Triple E P (write f) (λ _. Q)
  write-Triple {E} {P} {Q} f fails wrote = record {
    at = λ s p. elim (Result-cases (f s.platform)) [
      | inl (db, e) ↦ rw e (wrote s db p e)
      | inr (x, e) ↦ rw e (fails s p)
    ];
  }

  -- An error of the write is dropped.
  pub try_write-Triple :
      {E P : State → Type 0} (f : Db → Result Db)
      → ((s : State) (db : Db) → P s → f s.platform ≡ ok db → P (record s { platform = db }))
      → Triple E P (try_write f) (λ _. P)
  try_write-Triple {E} {P} f wrote = record {
    at = λ s p. elim (Result-cases (f s.platform)) [
      | inl (db, e) ↦ rw e (wrote s db p e)
      | inr (x, e) ↦ rw e p
    ];
  }

  pub invalidate-Triple :
      (sub gid : String) → Triple Sound (Stale sub gid) (invalidate sub gid) (λ _. Sound)
  unfolding invalidate
  invalidate-Triple sub gid = record { at = λ s v. v }

  pub invalidate-Keeps : (sub gid : String) → Keeps (invalidate sub gid)
  unfolding invalidate
  invalidate-Keeps sub gid = record {
    at = λ s v. invalidate-IsConsistent sub gid s.platform s.authz v;
  }

  -- A step that changes neither the stored data nor the decision cache.
  pub aside-Triple :
      {A : Type 0} (R : Db → Cache → Type 0) (m : Exec State A)
      → ((s : State) → R s.platform s.authz → Sound s)
      → ((s : State) → (m s).1.platform ≡ s.platform)
      → ((s : State) → (m s).1.authz ≡ s.authz)
      → Triple Sound (λ s. R s.platform s.authz) m (λ _ s. R s.platform s.authz)
  aside-Triple {A} R m sound db cache = record {
    at = λ s v. go (m s).0 (m s).1 (rw (db s, cache s) v);
  }
    where
      go :
          (r : Result A) (t : State)
          → R t.platform t.authz
          → Post Sound (λ _ t. R t.platform t.authz) r t
      go (ok a) t v = v
      go (err e) t v = sound t v

  pub tenants_get-Keeps : (gid : String) → Keeps (tenants_get gid)
  unfolding tenants_get
  tenants_get-Keeps gid =
      aside-Triple IsConsistent (tenants_get gid) (λ s v. v) (λ s. refl) (λ s. refl)

  check_ban-Keeps : (subject gid : String) → Keeps (check_ban subject gid)
  unfolding check_ban
  check_ban-Keeps subject gid =
      Triple-bind (read-Triple (is_banned gid subject) (λ s v. v)) (λ banned.
        Triple-weaken (λ s p. p.0)
          (Triple-require (not banned) (invalid "banned from this genealogy") (λ s v. v)))

  pub resolve_store-Keeps :
      (ctx : Context) (subject gid : String) (min : Role) (submission : Bool)
      → Keeps (resolve_store ctx subject gid min submission)
  unfolding resolve_store
  resolve_store-Keeps ctx subject gid min submission =
      Triple-then
        (Triple-require (not (str_eq gid "")) (invalid "genealogy_id is required") (λ s v. v))
        (Triple-bind (resolve_mapped-Triple ctx subject gid) (λ d.
          Triple-weaken (λ s p. p.0)
            (Triple-then (Triple-require (leb min d.role) (insufficient_role d.role min) (λ s v. v))
              (Triple-then
                (Triple-if submission
                  (λ on.
                    Triple-if (str_eq subject "") (λ e. Triple-return tt (λ s v. v))
                      (λ e. check_ban-Keeps subject gid))
                  (λ off. Triple-return tt (λ s v. v)))
                (Triple-bind (tenants_get-Keeps gid) (λ st. Triple-return (st, d) (λ s v. v)))))))

  pub lift-Keeps : {A : Type 0} (r : Result A) → Keeps (lift r)
  lift-Keeps r = aside-Triple IsConsistent (lift r) (λ s v. v) (λ s. refl) (λ s. refl)

  pub on_disk-Keeps : {A : Type 0} (f : Disk → Result A × Disk) → Keeps (on_disk f)
  on_disk-Keeps f = aside-Triple IsConsistent (on_disk f) (λ s v. v) (λ s. refl) (λ s. refl)

  pub open_view-Keeps : ⦃C : Core⦄ (st : Handle) → Keeps (open_view st)
  open_view-Keeps ⦃C⦄ st =
      aside-Triple IsConsistent (open_view st) (λ s v. v) (λ s. refl) (λ s. refl)
