-- ===== src/Service/Consistent/Genealogies/Delete.antt =====
-- DeleteGenealogy of internal/service/genealogies.go keeps the invariant when it succeeds, and owes the
-- call of Invalidate when it fails.
use linea_server.Prelude.{refl, String, ◌==◌, List, [], ◌∷◌, if◌then◌else◌}
use linea_server.Result.Exec.{return}
use linea_server.Result.Exec.Triple.{
  Triple, Triple-bind, Triple-then, Triple-if, Triple-return, Triple-weaken, Triple-excuse,
}
use linea_server.Platform.Types.{visibility_private, role_owner, Genealogy}
use linea_server.Platform.Badger.{Badger}
use linea_server.Platform.Keys.{IsId}
use linea_server.Platform.Store.{
  get_genealogy, delete_genealogy, delete_membership, iterate_memberships_for_genealogy,
}
use linea_server.Authz.Consistent.{IsConsistent, invalidate-IsConsistent, Untouched-IsConsistent}
use linea_server.Authz.Consistent.Writes.{
  clear_membership-IsConsistent, delete_genealogy-IsConsistent,
}
use linea_server.Tenants.{Stores}
use linea_server.Quotas.{dec_private_genealogy}
use linea_server.Quotas.Untouched.{dec_private-Untouched}
use linea_server.Service.{Context, State, try_write}
use linea_server.Service.Consistent.{
  Sound, Stale, Known, require_role-Triple, read-Triple, write-Triple, try_write-Triple,
  invalidate-Triple, aside-Triple,
}
use linea_server.Service.Genealogies.{
  drop_store, remove_on_disk, delete_memberships, collect_subject, delete_genealogy_rpc,
}

module _ ⦃B : Badger⦄ ⦃S : Stores⦄ where
  -- A genealogy of which everything cached is to be invalidated.
  abbrev Ending : String → State → Type 0
  Ending gid s = Stale "" gid s × IsId gid

  Sound-Stale : (gid : String) (s : State) → Sound s → Stale "" gid s
  Sound-Stale gid s v = invalidate-IsConsistent "" gid s.platform s.authz v

  delete_memberships-Triple :
      {E : State → Type 0} (gid : String) (subs : List String)
      → Triple E (Ending gid) (delete_memberships gid subs) (λ _. Ending gid)
  unfolding delete_memberships
  delete_memberships-Triple gid [] = Triple-return tt (λ s k. k)
  delete_memberships-Triple gid (sub ∷ subs) =
      Triple-then
        (try_write-Triple (delete_membership gid sub)
          (λ s db k h. (clear_membership-IsConsistent gid sub s.platform s.authz k.1 k.0 h, k.1)))
        (delete_memberships-Triple gid subs)

  drop_store-Triple : (a gid : String) → Triple Sound (Known a) (drop_store gid) (λ _. Known a)
  unfolding drop_store
  drop_store-Triple a gid =
      aside-Triple (λ db c. IsConsistent db c × IsId a) (drop_store gid) (λ s k. k.0) (λ s. refl)
        (λ s. refl)

  remove_on_disk-Triple :
      (a gid : String) → Triple Sound (Known a) (remove_on_disk gid) (λ _. Known a)
  unfolding remove_on_disk
  remove_on_disk-Triple a gid =
      aside-Triple (λ db c. IsConsistent db c × IsId a) (remove_on_disk gid) (λ s k. k.0)
        (λ s. refl) (λ s. refl)

  end_counter-Triple :
      {E : State → Type 0} (gid : String) (g : Genealogy)
      → Triple E
          (Stale "" gid)
          (if g.visibility == visibility_private
            then try_write (dec_private_genealogy g.created_by)
            else return tt)
          (λ _. Stale "" gid)
  end_counter-Triple gid g =
      Triple-if (g.visibility == visibility_private)
        (λ private. try_write-Triple (dec_private_genealogy g.created_by) (λ s db v h.
          Untouched-IsConsistent s.platform db _ (dec_private-Untouched g.created_by s.platform h)
            v))
        (λ other. Triple-return tt (λ s v. v))

  -- A failing DeleteGenealogy may have deleted memberships, and has not called Invalidate.
  pub delete_genealogy_rpc-Triple :
      (ctx : Context) (id : String)
      → Triple (Stale "" id) Sound (delete_genealogy_rpc ctx id) (λ _. Sound)
  unfolding delete_genealogy_rpc
  delete_genealogy_rpc-Triple ctx id =
      let excuse = Sound-Stale id in
      Triple-then (Triple-excuse excuse (require_role-Triple ctx ctx.subject id role_owner)) (
        Triple-bind (Triple-excuse excuse (read-Triple (get_genealogy id) (λ s k. k.0))) (λ g.
          Triple-weaken (λ s k. k.0)
            (Triple-then (Triple-excuse excuse (drop_store-Triple id id)) (
              Triple-then (Triple-excuse excuse (remove_on_disk-Triple id id)) (
                Triple-bind
                  (Triple-excuse excuse (
                    read-Triple (λ db. iterate_memberships_for_genealogy id collect_subject db [])
                      (λ s k. k.0)))
                  (λ mems.
                    Triple-weaken (λ s k. (excuse s k.0.0, k.0.1))
                      (Triple-then (delete_memberships-Triple id mems) (
                        Triple-then
                          (write-Triple {Q = Stale "" id} (delete_genealogy id) (λ s k. k.0)
                            (λ s db k h. delete_genealogy-IsConsistent id s.platform s.authz k.0 h))
                          (Triple-then (end_counter-Triple id g)
                            (Triple-excuse excuse (invalidate-Triple "" id)))))))))))
