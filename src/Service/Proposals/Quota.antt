-- ===== src/Service/Proposals/Quota.antt =====
-- The bound on the persons of a genealogy: internal/service/proposals.go counts those that an
-- accepted proposal creates.
use linea_server.Prelude.{
  ℕ, ◌+◌, ◌≤◌, ◌<◌, ◌≡◌, ◌≢◌, refl, subst, inl, inr, String, str_eq, Bool, true, false, not, leb,
  ◌&&◌, if◌then◌else◌,
}
use linea_server.Result.{Result, ok, err, Result-cases}
use linea_server.Result.Exec.{Exec, require, return}
use linea_server.Result.Exec.Triple.{
  Post, Triple, Triple-bind, Triple-then, Triple-require, Triple-if, Triple-return, Triple-excuse,
}
use linea_server.Platform.Types.{Role, role_curator}
use linea_server.Platform.Badger.{Badger, Db}
use linea_server.Platform.Store.{is_banned}
use linea_server.Platform.Counters.{u64_mod, get_person_count}
use linea_server.Tenants.{Stores}
use linea_server.Quotas.{Limits, check_create_person, inc_person}
use linea_server.Quotas.Bounds.{person_quota}
use linea_server.Service.{
  Context, State, invalid, insufficient_role, read, try_write, resolve_mapped, resolve_store,
  check_ban, tenants_get,
}
use linea_server.Service.Core.{Core}
use linea_server.Service.StoreAccess.{lift, on_disk, open_view}
use linea_server.Service.Mappers.{id_from_proto, proposal_to_proto}
use linea_server.Service.Proposals.{
  TransitionRequest, accept, check_person_quota, is_create, is_person,
}

-- The persons counted for the genealogy are within the limit.
pub record IsWithin ⦃B : Badger⦄ (gid : String) (limits : Limits) (db : Db) : Type 0 where
  pub persons : ℕ
  pub counted : get_person_count gid db ≡ ok persons
  pub bounded : persons ≤ limits.max_persons_per_genealogy

module _ ⦃B : Badger⦄ ⦃S : Stores⦄ where
  -- A step that changes neither the stored data nor the limits.
  aside-Post :
      {A : Type 0} (R : Db → Limits → Type 0) (r : Result A) (s : State)
      → R s.platform s.limits
      → Post (λ t. R t.platform t.limits) (λ _ t. R t.platform t.limits) r s
  aside-Post R (ok a) s p = p
  aside-Post R (err e) s p = p

  abbrev Frames : {A : Type 0} → (Db → Limits → Type 0) → Exec State A → Type 0
  Frames R m =
      Triple (λ t. R t.platform t.limits) (λ t. R t.platform t.limits) m
        (λ _ t. R t.platform t.limits)

  aside-Frames :
      {A : Type 0} (R : Db → Limits → Type 0) (m : Exec State A)
      → ((s : State) → (m s).1.platform ≡ s.platform)
      → ((s : State) → (m s).1.limits ≡ s.limits)
      → Frames R m
  aside-Frames R m db limits = record {
    at = λ s p. aside-Post R (m s).0 (m s).1 (rw (db s, limits s) p);
  }

  require-Frames :
      (R : Db → Limits → Type 0) (b : Bool) (e : linea_server.Result.Error) → Frames R (require b e)
  require-Frames R b e = Triple-require b e (λ s p. p)

  check_ban-Frames : (R : Db → Limits → Type 0) (sub gid : String) → Frames R (check_ban sub gid)
  unfolding check_ban
  check_ban-Frames R sub gid =
      Triple-bind (aside-Frames R (read (is_banned gid sub)) (λ s. refl) (λ s. refl))
        (λ banned. require-Frames R (not banned) (invalid "banned from this genealogy"))

  resolve_store-Frames :
      (R : Db → Limits → Type 0) (ctx : Context) (sub gid : String) (min : Role) (submission : Bool)
      → Frames R (resolve_store ctx sub gid min submission)
  unfolding resolve_store resolve_mapped tenants_get
  resolve_store-Frames R ctx sub gid min submission =
      Triple-then (require-Frames R (not (str_eq gid "")) (invalid "genealogy_id is required")) (
        Triple-bind (aside-Frames R (resolve_mapped ctx sub gid) (λ s. refl) (λ s. refl)) (λ d.
          Triple-then (require-Frames R (leb min d.role) (insufficient_role d.role min)) (
            Triple-then
              (Triple-if submission
                (λ on.
                  Triple-if (str_eq sub "") (λ e. Triple-return tt (λ s p. p))
                    (λ e. check_ban-Frames R sub gid))
                (λ off. Triple-return tt (λ s p. p)))
              (Triple-bind (aside-Frames R (tenants_get gid) (λ s. refl) (λ s. refl))
                (λ st. Triple-return (st, d) (λ s p. p))))))

module _ ⦃B : Badger⦄ ⦃S : Stores⦄ ⦃C : Core⦄ (gid : String) (limits : Limits) where
  abbrev Within : Db → Limits → Type 0
  Within db l = IsWithin gid limits db × (l ≡ limits)

  -- The check has passed, if there is a person to create.
  abbrev Checked : Bool → Db → Limits → Type 0
  Checked creates db l = Within db l × (creates ≡ true → check_create_person limits gid db ≡ ok tt)

  abbrev At : (Db → Limits → Type 0) → State → Type 0
  At R s = R s.platform s.limits

  check-Triple :
      (creates : Bool)
      → Triple
          (At Within)
          (At Within)
          (if creates then check_person_quota gid else return tt)
          (λ _. At (Checked creates))
  unfolding check_person_quota
  check-Triple creates =
      Triple-if creates
        (λ on. record {
          at = λ s p. elim (Result-cases (check_create_person s.limits gid s.platform)) [
            | inl (_, room) ↦
                rw room (p, λ c. subst (λ l. check_create_person l gid s.platform ≡ ok tt) p.1 room)
            | inr (e, full) ↦ rw full p
          ];
        })
        (λ off. Triple-return tt (λ s p. (p, λ on. absurd (cc (on, off)))))

  count-Triple :
      (creates : Bool)
      → limits.max_persons_per_genealogy ≢ 0
      → limits.max_persons_per_genealogy < u64_mod
      → Triple
          (At Within)
          (At (Checked creates))
          (if creates then try_write (inc_person gid) else return tt)
          (λ _. At Within)
  count-Triple creates limited small =
      Triple-if creates
        (λ on. record {
          at = λ s ((w, same), check). elim (Result-cases (inc_person gid s.platform)) [
            | inr (e, h) ↦ rw h (w, same)
            | inl (db, h) ↦
                let (n, le) =
                  person_quota limits gid s.platform w.persons limited small w.counted (check on)
                    h in
                rw h (record { persons = 1 + w.persons; counted = n; bounded = le }, same)
          ];
        })
        (λ off. Triple-return tt (λ s p. p.0))

module _ ⦃B : Badger⦄ ⦃S : Stores⦄ ⦃C : Core⦄ where
  accept-Triple :
      (ctx : Context) (req : TransitionRequest) (limits : Limits)
      → limits.max_persons_per_genealogy ≢ 0
      → limits.max_persons_per_genealogy < u64_mod
      → Triple
          (At req.genealogy_id limits (Within req.genealogy_id limits))
          (At req.genealogy_id limits (Within req.genealogy_id limits))
          (accept ctx req)
          (λ _. At req.genealogy_id limits (Within req.genealogy_id limits))
  unfolding accept
  accept-Triple ctx req limits limited small =
      let gid = req.genealogy_id in
      let R = Within gid limits in
      Triple-bind (resolve_store-Frames R ctx ctx.subject gid role_curator false) (λ r.
        Triple-bind (aside-Frames R (lift (id_from_proto req.id)) (λ s. refl) (λ s. refl)) (λ i.
          Triple-bind (aside-Frames R (open_view r.0) (λ s. refl) (λ s. refl)) (λ snap.
            Triple-bind (aside-Frames R (lift (C.get_proposal snap i)) (λ s. refl) (λ s. refl))
              (λ pending.
                let creates = is_create (C.action pending) && is_person (C.entity_kind pending) in
                Triple-then (check-Triple gid limits creates) (
                  Triple-bind
                    (Triple-excuse (λ s p. p.0)
                      (aside-Frames (Checked gid limits creates)
                        (on_disk (C.accept r.0 i ctx.subject ctx.now)) (λ s. refl) (λ s. refl)))
                    (λ out.
                      Triple-then (count-Triple gid limits creates limited small)
                        (Triple-return (proposal_to_proto out) (λ s p. p))))))))

  Post_either :
      {A : Type 0} (P : State → Type 0) (r : Result A) (s : State) → Post P (λ _. P) r s → P s
  Post_either P (ok a) s p = p
  Post_either P (err e) s p = p

  -- Accept keeps the persons that are counted for its genealogy within the limit, if they were,
  -- under a limit that is set and fits the counter, whoever calls it, and whether it succeeds or
  -- fails.
  pub accept-IsWithin :
      (ctx : Context) (req : TransitionRequest) (s : State)
      → s.limits.max_persons_per_genealogy ≢ 0
      → s.limits.max_persons_per_genealogy < u64_mod
      → IsWithin req.genealogy_id s.limits s.platform
      → IsWithin req.genealogy_id s.limits (accept ctx req s).1.platform
  accept-IsWithin ctx req s limited small w =
      (Post_either (At req.genealogy_id s.limits (Within req.genealogy_id s.limits))
        (accept ctx req s).0 (accept ctx req s).1
        ((accept-Triple ctx req s.limits limited small).at s (w, refl))).0
