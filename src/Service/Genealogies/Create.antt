-- ===== src/Service/Genealogies/Create.antt =====
-- What CreateGenealogy stores when it succeeds, and what it counts.
pub mod Stored
use linea_server.Prelude.{
  ℕ, ◌+◌, ◌≡◌, ◌≢◌, ◌≤◌, ◌<◌, refl, ap, eq_iff, subst, ◌∙◌, ◌⊎◌, inl, inr, String, str_eq, true,
  false, not, ◌&&◌, ◌==◌, trim_space, arith, Bool-cases, if◌then◌else◌,
}
use linea_server.Result.{ok, Result-cases}
use linea_server.Result.Exec.{return}
use linea_server.Result.Exec.Triple.{
  Post-ok, Triple, Triple-then, Triple-guard, Triple-if, Triple-return,
}
use linea_server.Platform.Types.{visibility_private, role_owner, Genealogy, Membership}
use linea_server.Platform.Badger.{Badger, Db}
use linea_server.Platform.Keys.{IsId}
use linea_server.Platform.Store.{
  put_genealogy, get_genealogy, put_membership, get_membership, stamp_membership,
}
use linea_server.Platform.Store.Lookup.{
  get-put_membership, get-put_genealogy, get_genealogy-put_membership, get_membership-put_genealogy,
}
use linea_server.Platform.Untouched.{Untouched, Untouched-get_genealogy, Untouched-get_membership}
use linea_server.Platform.Counters.{u64_mod, get_user_private_gen_count}
use linea_server.Tenants.{Stores}
use linea_server.Quotas.Bounds.{private_quota}
use linea_server.Quotas.Untouched.{inc_private-Untouched, count-put_genealogy, count-put_membership}
use linea_server.Quotas.{Limits, check_create_private_genealogy, inc_private_genealogy}
use linea_server.Service.{Context, State, invalid, write, invalidate}
use linea_server.Service.Proto.{PbGenealogy, CreateGenealogyRequest}
use linea_server.Service.PlatformMappers.{visibility_from_proto}
use linea_server.Service.Consistent.{write-Triple}
use linea_server.Service.Genealogies.{or_private, check_private_quota, create_genealogy}

abbrev pub new_genealogy : Context → String → CreateGenealogyRequest → Genealogy
new_genealogy ctx gid req = record {
  id = gid;
  name = trim_space req.name;
  visibility = or_private (visibility_from_proto req.visibility);
  created_by = ctx.subject;
  created_at = ctx.now;
}

-- The creator's membership.
abbrev pub owner_row : Context → String → Membership
owner_row ctx gid = record {
  subject = ctx.subject;
  genealogy_id = gid;
  role = role_owner;
  granted_by = ctx.subject;
  granted_at = ctx.now_later;
}

module _ ⦃B : Badger⦄ ⦃S : Stores⦄ where
  -- A private genealogy is counted in the end, within the quota that was checked at first.
  abbrev Counted : Context → CreateGenealogyRequest → State → Db → State → Type 0
  Counted ctx req s db t =
      let private = or_private (visibility_from_proto req.visibility) == visibility_private in
      ((private ≡ true)
        × (check_create_private_genealogy s.limits ctx.subject s.platform ≡ ok tt)
        × (inc_private_genealogy ctx.subject db ≡ ok t.platform))
      ⊎ ((private ≡ false) × (db ≡ t.platform))

  -- The writes of a successful CreateGenealogy.
  pub record Creation (ctx : Context) (gid : String) (req : CreateGenealogyRequest) (s t : State)
      : Type 0 where
    pub named : not (str_eq ctx.subject "") ≡ true
    pub titled : not (str_eq (trim_space req.name) "") ≡ true
    pub with_genealogy : Db
    pub with_owner : Db
    pub stored : put_genealogy (new_genealogy ctx gid req) s.platform ≡ ok with_genealogy
    pub joined : put_membership ctx.now_later (owner_row ctx gid) with_genealogy ≡ ok with_owner
    pub counted : Counted ctx req s with_owner t

  abbrev Any : State → Type 0
  Any s = Unit {0}

  -- Nothing has changed since `s`, and the quota lets one more in.
  abbrev Checked : Context → CreateGenealogyRequest → State → State → Type 0
  Checked ctx req s t =
      (t ≡ s)
      × ((or_private (visibility_from_proto req.visibility) == visibility_private) ≡ true
          → check_create_private_genealogy s.limits ctx.subject s.platform ≡ ok tt)

  check_private_quota-Checked :
      (ctx : Context) (req : CreateGenealogyRequest) (s : State)
      → Triple Any
          (λ t. t ≡ s)
          (check_private_quota (or_private (visibility_from_proto req.visibility)) ctx.subject)
          (λ _. Checked ctx req s)
  unfolding check_private_quota
  check_private_quota-Checked ctx req s = record {
    at = λ t same.
        let private = or_private (visibility_from_proto req.visibility) == visibility_private in
        elim (Bool-cases private) [
          | inr other ↦ rw other (same, λ p. absurd (cc (p, other)))
          | inl secret ↦
              elim (Result-cases (check_create_private_genealogy t.limits ctx.subject t.platform)) [
                | inl (_, room) ↦
                    rw (secret, room)
                      (
                        same,
                        λ p.
                            subst
                              (λ x.
                                check_create_private_genealogy x.limits ctx.subject x.platform
                                ≡ ok tt)
                              same room,
                      )
                | inr (e, full) ↦ rw (secret, full) tt
              ]
        ];
  }

  -- The genealogy and the creator's membership are written, and not yet counted.
  record Joined (ctx : Context) (gid : String) (req : CreateGenealogyRequest) (s t : State)
      : Type 0 where
    pub room :
        (or_private (visibility_from_proto req.visibility) == visibility_private) ≡ true
        → check_create_private_genealogy s.limits ctx.subject s.platform ≡ ok tt
    pub with_genealogy : Db
    pub stored : put_genealogy (new_genealogy ctx gid req) s.platform ≡ ok with_genealogy
    pub joined : put_membership ctx.now_later (owner_row ctx gid) with_genealogy ≡ ok t.platform

  put_genealogy-Triple :
      (ctx : Context) (gid : String) (req : CreateGenealogyRequest) (s : State)
      → Triple Any (Checked ctx req s) (write (put_genealogy (new_genealogy ctx gid req))) (λ _ t.
        Checked ctx req s s
        × (put_genealogy (new_genealogy ctx gid req) s.platform ≡ ok t.platform))
  put_genealogy-Triple ctx gid req s =
      write-Triple (put_genealogy (new_genealogy ctx gid req)) (λ t p. tt)
        (λ t db p h. (
          (refl, p.1),
          subst (λ (x : State). put_genealogy (new_genealogy ctx gid req) x.platform ≡ ok db) p.0 h,
        ))

  put_owner-Triple :
      (ctx : Context) (gid : String) (req : CreateGenealogyRequest) (s : State)
      → Triple Any
          (λ t.
            Checked ctx req s s
            × (put_genealogy (new_genealogy ctx gid req) s.platform ≡ ok t.platform))
          (write (put_membership ctx.now_later (owner_row ctx gid)))
          (λ _. Joined ctx gid req s)
  put_owner-Triple ctx gid req s =
      write-Triple (put_membership ctx.now_later (owner_row ctx gid)) (λ t p. tt)
        (λ t db p h. record { room = p.0.1; with_genealogy = t.platform; stored = p.1; joined = h })

  abbrev Written : Context → String → CreateGenealogyRequest → State → State → Type 0
  Written ctx gid req s t =
      (db : Db) × (j : Joined ctx gid req s (record t { platform = db })) × Counted ctx req s db t

  count-Triple :
      (ctx : Context) (gid : String) (req : CreateGenealogyRequest) (s : State)
      → Triple Any
          (Joined ctx gid req s)
          (if or_private (visibility_from_proto req.visibility) == visibility_private
            then write (inc_private_genealogy ctx.subject)
            else return tt)
          (λ _. Written ctx gid req s)
  count-Triple ctx gid req s =
      Triple-if (or_private (visibility_from_proto req.visibility) == visibility_private)
        (λ secret.
          write-Triple (inc_private_genealogy ctx.subject) (λ t p. tt)
            (λ t db j h. (t.platform, j, inl (secret, j.room secret, h))))
        (λ other. Triple-return tt (λ t j. (t.platform, j, inr (other, refl))))

  create-Creation :
      (ctx : Context) (gid : String) (req : CreateGenealogyRequest) (s : State)
      → Triple Any (λ t. t ≡ s) (create_genealogy ctx gid req) (λ _. Creation ctx gid req s)
  unfolding create_genealogy invalidate
  create-Creation ctx gid req s =
      Triple-guard (not (str_eq ctx.subject "")) (invalid "authentication required") (λ t p. tt)
        (λ named.
          Triple-guard (not (str_eq (trim_space req.name) "")) (invalid "name is required")
            (λ t p. tt)
            (λ titled. Triple-then (check_private_quota-Checked ctx req s) (
              Triple-then (put_genealogy-Triple ctx gid req s) (
                Triple-then (put_owner-Triple ctx gid req s) (
                  Triple-then (count-Triple ctx gid req s) (record {
                    at = λ t (db, j, c). record {
                      named = named;
                      titled = titled;
                      with_genealogy = j.with_genealogy;
                      with_owner = db;
                      stored = j.stored;
                      joined = j.joined;
                      counted = c;
                    };
                  }))))))

  pub created :
      (ctx : Context) (gid : String) (req : CreateGenealogyRequest) (s : State) {r : PbGenealogy}
      → (create_genealogy ctx gid req s).0 ≡ ok r
      → Creation ctx gid req s (create_genealogy ctx gid req s).1
  created ctx gid req s h =
      Post-ok _ _ (create_genealogy ctx gid req s).0 _ h ((create-Creation ctx gid req s).at s refl)
