-- ===== src/Service/Consistent/Genealogies.antt =====
-- The handlers of genealogies of internal/service/genealogies.go keep the invariant.
pub mod Delete
use linea_server.Prelude.{
  Bool-cases, ◌≡◌, refl, sym, subst, inl, inr, String, str_eq, not, ◌&&◌, ◌==◌, List, [], ◌∷◌,
  trim_space, if◌then◌else◌,
}
use linea_server.Result.{err, not_found, Result-cases}
use linea_server.Result.Exec.{return}
use linea_server.Result.Exec.Triple.{
  Triple, Triple-bind, Triple-then, Triple-require, Triple-if, Triple-return, Triple-weaken,
  Triple-excuse,
}
use linea_server.Platform.Types.{Visibility, visibility_private, role_owner, Genealogy, Membership}
use linea_server.Platform.Badger.{Badger}
use linea_server.Platform.Keys.{IsId}
use linea_server.Platform.Store.{
  put_genealogy, get_genealogy, delete_genealogy, put_membership, delete_membership,
  iterate_memberships_for_genealogy,
}
use linea_server.Authz
use linea_server.Authz.{Decision}
use linea_server.Authz.Consistent.{
  IsConsistent, IsVacant, invalidate-IsConsistent, Untouched-IsConsistent,
}
use linea_server.Authz.Consistent.Writes.{
  put_genealogy-IsConsistent, create-IsConsistent, first_membership-IsConsistent,
  clear_membership-IsConsistent, delete_genealogy-IsConsistent,
}
use linea_server.Tenants.{Stores}
use linea_server.Quotas.{
  check_create_private_genealogy, inc_private_genealogy, dec_private_genealogy,
}
use linea_server.Quotas.Untouched.{inc_private-Untouched, dec_private-Untouched}
use linea_server.Service.{Context, State, invalid, write, try_write}
use linea_server.Service.Proto.{CreateGenealogyRequest, UpdateVisibilityRequest}
use linea_server.Service.PlatformMappers.{visibility_from_proto, genealogy_to_proto}
use linea_server.Service.Consistent.{
  Sound, Stale, Known, Keeps, resolve_mapped-Triple, require_role-Triple, read-Triple, write-Triple,
  try_write-Triple, invalidate-Triple, invalidate-Keeps, aside-Triple,
}
use linea_server.Service.Genealogies.{
  check_private_quota, check_becomes_private, adjust_counter, drop_store, remove_on_disk,
  delete_memberships, collect_subject, or_private, create_genealogy, get_genealogy_rpc,
  update_visibility, delete_genealogy_rpc,
}

module _ ⦃B : Badger⦄ ⦃S : Stores⦄ where
  -- A state in which a genealogy's id is not in use.
  abbrev IsFree : String → State → Type 0
  IsFree gid s = Sound s × (get_genealogy gid s.platform ≡ err not_found)

  check_private_quota-Triple :
      {P : State → Type 0} (vis : Visibility) (sub : String)
      → ((s : State) → P s → Sound s)
      → Triple Sound P (check_private_quota vis sub) (λ _. P)
  unfolding check_private_quota
  check_private_quota-Triple {P} vis sub sound = record {
    at = λ s p. elim (Bool-cases (vis == visibility_private)) [
      | inr other ↦ rw other p
      | inl private ↦ elim (Result-cases (check_create_private_genealogy s.limits sub s.platform)) [
        | inl (_, room) ↦ rw (private, room) p
        | inr (e, full) ↦ rw (private, full) (sound s p)
      ]
    ];
  }

  inc_private-Keeps : (sub : String) → Keeps (write (inc_private_genealogy sub))
  inc_private-Keeps sub =
      write-Triple (inc_private_genealogy sub) (λ s v. v)
        (λ s db v h.
          Untouched-IsConsistent s.platform db s.authz (inc_private-Untouched sub s.platform h) v)

  -- The id of a new genealogy is not in use, and holds no "/", as a UUID does not.
  pub create_genealogy-Triple :
      (ctx : Context) (gid : String) (req : CreateGenealogyRequest)
      → IsId gid
      → Triple Sound (IsFree gid) (create_genealogy ctx gid req) (λ _. Sound)
  unfolding create_genealogy
  create_genealogy-Triple ctx gid req is_id =
      let name = trim_space req.name in
      let vis = or_private (visibility_from_proto req.visibility) in
      let g : Genealogy = record {
        id = gid;
        name = name;
        visibility = vis;
        created_by = ctx.subject;
        created_at = ctx.now;
      } in
      let m : Membership = record {
        subject = ctx.subject;
        genealogy_id = gid;
        role = role_owner;
        granted_by = ctx.subject;
        granted_at = ctx.now_later;
      } in
      Triple-then
        (Triple-require (not (str_eq ctx.subject "")) (invalid "authentication required")
          (λ s p. p.0))
        (Triple-then
          (Triple-require (not (str_eq name "")) (invalid "name is required") (λ s p. p.0))
          (Triple-then (check_private_quota-Triple vis ctx.subject (λ s p. p.0)) (
            Triple-then
              (write-Triple {Q = λ s. Sound s × IsVacant gid s.authz} (put_genealogy g) (λ s p. p.0)
                (λ s db p h. create-IsConsistent g s.platform s.authz is_id p.1 p.0 h))
              (Triple-then
                (write-Triple {Q = Sound} (put_membership ctx.now_later m) (λ s p. p.0)
                  (λ s db p h.
                    first_membership-IsConsistent ctx.now_later m s.platform s.authz is_id p.0 p.1
                      h))
                (Triple-then
                  (Triple-if (vis == visibility_private) (λ private. inc_private-Keeps ctx.subject)
                    (λ other. Triple-return tt (λ s v. v)))
                  (Triple-then (invalidate-Keeps ctx.subject gid)
                    (Triple-return (genealogy_to_proto g role_owner) (λ s v. v))))))))

  pub get_genealogy_rpc-Keeps : (ctx : Context) (id : String) → Keeps (get_genealogy_rpc ctx id)
  unfolding get_genealogy_rpc
  get_genealogy_rpc-Keeps ctx id = Triple-bind (resolve_mapped-Triple ctx ctx.subject id) (λ d.
      Triple-bind (read-Triple (get_genealogy id) (λ s k. k.0))
        (λ g. Triple-return (genealogy_to_proto g d.role) (λ s k. k.0.0)))

  check_becomes_private-Triple :
      {P : State → Type 0} (prev vis : Visibility) (owner : String)
      → ((s : State) → P s → Sound s)
      → Triple Sound P (check_becomes_private prev vis owner) (λ _. P)
  unfolding check_becomes_private
  check_becomes_private-Triple prev vis owner sound =
      Triple-if (not (prev == visibility_private) && vis == visibility_private)
        (λ becomes. check_private_quota-Triple visibility_private owner sound)
        (λ stays. Triple-return tt (λ s p. p))

  -- The counter's change leaves what Invalidate is still to do.
  adjust_counter-Triple :
      (prev vis : Visibility) (owner gid : String)
      → Triple Sound (Stale "" gid) (adjust_counter prev vis owner) (λ _. Stale "" gid)
  unfolding adjust_counter
  adjust_counter-Triple prev vis owner gid =
      Triple-if (prev == visibility_private && not (vis == visibility_private))
        (λ leaves. try_write-Triple (dec_private_genealogy owner) (λ s db v h.
          Untouched-IsConsistent s.platform db _ (dec_private-Untouched owner s.platform h) v))
        (λ other.
          Triple-if (not (prev == visibility_private) && vis == visibility_private)
            (λ enters. try_write-Triple (inc_private_genealogy owner) (λ s db v h.
              Untouched-IsConsistent s.platform db _ (inc_private-Untouched owner s.platform h) v))
            (λ stays. Triple-return tt (λ s v. v)))

  pub update_visibility-Keeps :
      (ctx : Context) (req : UpdateVisibilityRequest) → Keeps (update_visibility ctx req)
  unfolding update_visibility
  update_visibility-Keeps ctx req =
      let vis = visibility_from_proto req.visibility in
      Triple-then (require_role-Triple ctx ctx.subject req.id role_owner) (
        Triple-then
          (Triple-require (not (vis == 0)) (invalid "visibility is required") (λ s k. k.0))
          (Triple-bind (read-Triple (get_genealogy req.id) (λ s k. k.0)) (λ g.
            let g' = record g { visibility = vis } in
            Triple-then (check_becomes_private-Triple g.visibility vis g.created_by (λ s k. k.0.0))
              (Triple-then
                (write-Triple {Q = Stale "" req.id} (put_genealogy g') (λ s k. k.0.0)
                  (λ s db k h.
                    let (same, is_id) = k.0.0.well_keyed.named req.id g k.1 in
                    subst (λ i. IsConsistent db (Authz.invalidate "" i s.authz)) same
                      (put_genealogy-IsConsistent g' s.platform s.authz
                        (subst IsId (sym same) is_id) k.0.0 h)))
                (Triple-then (adjust_counter-Triple g.visibility vis g.created_by req.id) (
                  Triple-then (invalidate-Triple "" req.id)
                    (Triple-return (genealogy_to_proto g' role_owner) (λ s v. v))))))))
