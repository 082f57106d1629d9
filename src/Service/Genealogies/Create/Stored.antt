-- ===== src/Service/Genealogies/Create/Stored.antt =====
-- What is stored and counted after a successful CreateGenealogy.
use linea_server.Prelude.{
  ℕ, ◌+◌, ◌≡◌, ◌≢◌, ◌≤◌, ◌<◌, refl, ap, eq_iff, subst, ◌∙◌, inl, inr, String, str_eq, ◌&&◌,
  trim_space, arith, if◌then◌else◌,
}
use linea_server.Result.{ok}
use linea_server.Platform.Types.{visibility_private}
use linea_server.Platform.Badger.{Badger, Db}
use linea_server.Platform.Keys.{IsId}
use linea_server.Platform.Store.{get_genealogy, get_membership, stamp_membership}
use linea_server.Platform.Store.Lookup.{
  get-put_membership, get-put_genealogy, get_genealogy-put_membership, get_membership-put_genealogy,
}
use linea_server.Platform.Untouched.{Untouched, Untouched-get_genealogy, Untouched-get_membership}
use linea_server.Platform.Counters.{u64_mod, get_user_private_gen_count}
use linea_server.Tenants.{Stores}
use linea_server.Quotas.Bounds.{private_quota}
use linea_server.Quotas.Untouched.{inc_private-Untouched, count-put_genealogy, count-put_membership}
use linea_server.Quotas.{Limits, check_create_private_genealogy}
use linea_server.Service.{Context, State}
use linea_server.Service.Proto.{PbGenealogy, CreateGenealogyRequest}
use linea_server.Service.PlatformMappers.{visibility_from_proto}
use linea_server.Service.Genealogies.{or_private, create_genealogy}
use linea_server.Service.Genealogies.Create.{Counted, created, new_genealogy, owner_row}

module _ ⦃B : Badger⦄ ⦃S : Stores⦄ where
  Counted-Untouched :
      (ctx : Context) (req : CreateGenealogyRequest) (s t : State) (db : Db)
      → Counted ctx req s db t
      → Untouched db t.platform
  Counted-Untouched ctx req s t db (inl (private, room, h)) = inc_private-Untouched ctx.subject db h
  Counted-Untouched ctx req s t db (inr (other, same)) =
      subst (Untouched db) same (record {
        genealogy = λ gid. refl;
        membership = λ gid sub. refl;
        reverse = λ sub gid. refl;
      })

  -- When CreateGenealogy succeeds, with ids that hold no "/", the caller is not anonymous and the
  -- trimmed name not empty; the genealogy is stored under its new id, the caller is its Owner, and
  -- every other genealogy and membership is what it was.
  pub create_genealogy_lem :
      (ctx : Context) (gid : String) (req : CreateGenealogyRequest) (s : State) {r : PbGenealogy}
      (a sub : String)
      → IsId gid
      → IsId a
      → (create_genealogy ctx gid req s).0 ≡ ok r
      → (ctx.subject ≢ "")
        × (trim_space req.name ≢ "")
        × (get_genealogy a (create_genealogy ctx gid req s).1.platform
            ≡ (if str_eq gid a then ok (new_genealogy ctx gid req) else get_genealogy a s.platform))
        × (get_membership a sub (create_genealogy ctx gid req s).1.platform ≡ (
            if str_eq gid a && str_eq ctx.subject sub
            then ok (stamp_membership ctx.now_later (owner_row ctx gid))
            else get_membership a sub s.platform))
  create_genealogy_lem ctx gid req s a sub is_id ia h =
      let c = created ctx gid req s h in
      let t = (create_genealogy ctx gid req s).1 in
      let u = Counted-Untouched ctx req s t c.with_owner c.counted in
      (
        ground (arith, c.named, eq_iff ctx.subject ""),
        ground (arith, c.titled, eq_iff (trim_space req.name) ""),
        Untouched-get_genealogy c.with_owner t.platform a u
            ∙ get_genealogy-put_membership ctx.now_later (owner_row ctx gid) c.with_genealogy a
                c.joined
            ∙ get-put_genealogy (new_genealogy ctx gid req) s.platform a c.stored,
        Untouched-get_membership c.with_owner t.platform a sub u
            ∙ get-put_membership ctx.now_later (owner_row ctx gid) c.with_genealogy a sub is_id ia
                c.joined
            ∙ ap
                (λ r.
                  if str_eq gid a && str_eq ctx.subject sub
                  then ok (stamp_membership ctx.now_later (owner_row ctx gid))
                  else r)
                (get_membership-put_genealogy (new_genealogy ctx gid req) s.platform a sub
                  c.stored),
      )

  check_same :
      (limits : Limits) (sub : String) (db db' : Db)
      → get_user_private_gen_count sub db' ≡ get_user_private_gen_count sub db
      → check_create_private_genealogy limits sub db ≡ ok tt
      → check_create_private_genealogy limits sub db' ≡ ok tt
  unfolding check_create_private_genealogy
  check_same limits sub db db' same h = rw same h

  private-Counted :
      (ctx : Context) (req : CreateGenealogyRequest) (s t : State) (db : Db) (cur : ℕ)
      → or_private (visibility_from_proto req.visibility) ≡ visibility_private
      → s.limits.max_private_genealogies_per_user ≢ 0
      → s.limits.max_private_genealogies_per_user < u64_mod
      → get_user_private_gen_count ctx.subject s.platform ≡ ok cur
      → get_user_private_gen_count ctx.subject db
        ≡ get_user_private_gen_count ctx.subject s.platform
      → Counted ctx req s db t
      → (get_user_private_gen_count ctx.subject t.platform ≡ ok (1 + cur))
        × (1 + cur ≤ s.limits.max_private_genealogies_per_user)
  private-Counted ctx req s t db cur private limited small n same (inl (_, room, h)) =
      private_quota s.limits ctx.subject db cur limited small (same ∙ n)
        (check_same s.limits ctx.subject s.platform db same room) h
  private-Counted ctx req s t db cur private limited small n same (inr (other, _)) =
      absurd (ground arith)

  -- When CreateGenealogy of a private genealogy succeeds, under a limit that is set and fits the
  -- counter, the caller's counter is one higher than before and within the limit.
  pub create_genealogy-private_quota :
      (ctx : Context) (gid : String) (req : CreateGenealogyRequest) (s : State) {r : PbGenealogy}
      (cur : ℕ)
      → or_private (visibility_from_proto req.visibility) ≡ visibility_private
      → s.limits.max_private_genealogies_per_user ≢ 0
      → s.limits.max_private_genealogies_per_user < u64_mod
      → get_user_private_gen_count ctx.subject s.platform ≡ ok cur
      → (create_genealogy ctx gid req s).0 ≡ ok r
      → (get_user_private_gen_count ctx.subject (create_genealogy ctx gid req s).1.platform
          ≡ ok (1 + cur))
        × (1 + cur ≤ s.limits.max_private_genealogies_per_user)
  create_genealogy-private_quota ctx gid req s cur private limited small n h =
      let c = created ctx gid req s h in
      private-Counted ctx req s (create_genealogy ctx gid req s).1 c.with_owner cur private limited
        small n
        (count-put_membership ctx.subject ctx.now_later (owner_row ctx gid) c.with_genealogy
            c.joined
          ∙ count-put_genealogy ctx.subject (new_genealogy ctx gid req) s.platform c.stored)
        c.counted
