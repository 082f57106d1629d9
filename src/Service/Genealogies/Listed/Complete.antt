-- ===== src/Service/Genealogies/Listed/Complete.antt =====
-- What the iterations of ListGenealogies leave in the listing.
use linea_server.Prelude.{
  ◌≡◌, refl, sym, ap, subst, has_prefix, has_prefix-⧺, ◌∙◌, inl, inr, String, str_eq, Bool, true,
  not, List, [], Bool-cases,
}
use linea_server.Result.{Result, ok, ok-inj, Result-cases}
use linea_server.Platform.Types.{visibility_public, Genealogy, Membership}
use linea_server.Platform.Json.{unmarshal_genealogy, unmarshal_membership}
use linea_server.Platform.Badger.{Badger, Db, Blob}
use linea_server.Platform.Keys.{genealogies_prefix, memberships_prefix, genealogy_key}
use linea_server.Platform.Store.Iterate.{iterate_keeps, iterate_hits, yielded, scanned, read_row}
use linea_server.Platform.Store.WellKeyed.{IsWellKeyed}
use linea_server.Platform.Store.{
  yield_record, get_genealogy, iterate_genealogies, iterate_memberships_for_user,
}
use linea_server.Tenants.{Stores}
use linea_server.Service.{Context, State}
use linea_server.Service.Proto.{PbGenealogy}
use linea_server.Service.Genealogies.ListGenealogies.{
  Listing, seen, list_member, list_public, list_memberships, list_genealogies,
}
use linea_server.Service.Genealogies.Listed.{
  IsListing, IsUnique, list_member-IsUnique, list_public-IsUnique, list_public-adds,
  list_public-goes, list_public-seen, lists,
}

genealogy-prefix : (gid : String) → has_prefix genealogies_prefix (genealogy_key gid) ≡ true
unfolding genealogies_prefix genealogy_key
genealogy-prefix gid = has_prefix-⧺ "g/" gid

module _ ⦃B : Badger⦄ where
  abbrev mine_step : Db → Membership → Listing → Listing × Bool
  mine_step db m l = (list_member (get_genealogy m.genealogy_id db) m.role l, true)

  abbrev mine_decode : Db → Blob → Listing → Result (Listing × Bool)
  mine_decode db = yield_record unmarshal_membership (mine_step db)

  abbrev all_decode : Bool → Blob → Listing → Result (Listing × Bool)
  all_decode b = yield_record unmarshal_genealogy (list_public b)

  mine-IsUnique :
      (sub : String) (db : Db) (l t : Listing)
      → iterate_memberships_for_user sub (mine_step db) db l ≡ ok t
      → IsUnique l
      → IsUnique t
  unfolding iterate_memberships_for_user
  mine-IsUnique sub db l t h u =
      let (kvs, p, i) = scanned (memberships_prefix sub) (mine_decode db) db l t h in
      iterate_keeps (mine_decode db) IsUnique kvs l t
        (λ v s r d x.
          let (m, q, f) = yielded unmarshal_membership (mine_step db) v s r d in
          subst (λ (y : Listing × Bool). IsUnique y.0) f
            (list_member-IsUnique (get_genealogy m.genealogy_id db) m.role s x))
        i u

  all-IsUnique :
      (b : Bool) (db : Db) (l t : Listing)
      → iterate_genealogies (list_public b) db l ≡ ok t
      → IsUnique l
      → IsUnique t
  unfolding iterate_genealogies
  all-IsUnique b db l t h u =
      let (kvs, p, i) = scanned genealogies_prefix (all_decode b) db l t h in
      iterate_keeps (all_decode b) IsUnique kvs l t
        (λ v s r d x.
          let (g, q, f) = yielded unmarshal_genealogy (list_public b) v s r d in
          subst (λ (y : Listing × Bool). IsUnique y.0) f (list_public-IsUnique b g s x))
        i u

  all-seen :
      (b : Bool) (gid : String) (g : Genealogy) (db : Db) (l t : Listing)
      → iterate_genealogies (list_public b) db l ≡ ok t
      → get_genealogy gid db ≡ ok g
      → g.visibility ≡ visibility_public
      → seen g.id t.0 ≡ true
  unfolding iterate_genealogies get_genealogy
  all-seen b gid g db l t h stored public =
      let (kvs, p, i) = scanned genealogies_prefix (all_decode b) db l t h in
      let (v, q, d) = read_row unmarshal_genealogy (genealogy_key gid) db g stored in
      iterate_hits (all_decode b) (λ x. seen g.id x.0 ≡ true) kvs l t (genealogy_key gid) v
        (λ w s r e x.
          let (a, c, f) = yielded unmarshal_genealogy (list_public b) w s r e in
          subst (λ (y : Listing × Bool). seen g.id y.0.0 ≡ true) f (list_public-seen g.id b a s x))
        (λ w s r e.
          let (a, c, f) = yielded unmarshal_genealogy (list_public b) w s r e in
          subst (λ (y : Listing × Bool). y.1 ≡ true) f (list_public-goes b a s))
        (λ s r e.
          let (a, c, f) = yielded unmarshal_genealogy (list_public b) v s r e in
          let same : g ≡ a = ok-inj (sym d ∙ c) in
          subst (λ (y : Listing × Bool). seen g.id y.0.0 ≡ true) f
            (subst (λ x. seen g.id (list_public b x s).0.0 ≡ true) same
              (list_public-adds b g s public)))
        (B.scan_complete db genealogies_prefix (genealogy_key gid) v p (genealogy-prefix gid) q) i

module _ ⦃B : Badger⦄ ⦃S : Stores⦄ where
  memberships-IsUnique :
      (sub : String) (s : State) (t : Listing)
      → (list_memberships sub ([], []) s).0 ≡ ok t
      → IsUnique t
  unfolding list_memberships
  memberships-IsUnique sub s t h =
      let start : IsUnique ([], []) = record { listed = λ a. unfold seen in refl; unique = tt } in
      elim (Bool-cases (str_eq sub "")) [
        | inl anon ↦ subst IsUnique (ok-inj (rw anon at h)) start
        | inr named ↦ mine-IsUnique sub s.platform ([], []) t (rw named at h) start
      ]

  memberships_state : (sub : String) (l : Listing) (s : State) → (list_memberships sub l s).1 ≡ s
  unfolding list_memberships
  memberships_state sub l s = elim (Bool-cases (str_eq sub "")) [
    | inl anon ↦ rw anon refl
    | inr named ↦ rw named refl
  ]

  -- A successful call has gathered the caller's memberships, then all genealogies.
  listed_in :
      (ctx : Context) (s : State) (out : List PbGenealogy)
      → (list_genealogies ctx s).0 ≡ ok out
      → (mine : Listing) × (all : Listing) × IsUnique mine
        × (iterate_genealogies (list_public (not (str_eq ctx.subject ""))) s.platform mine ≡ ok all)
        × (all.1 ≡ out)
  unfolding list_genealogies
  listed_in ctx s out h = elim (Result-cases (list_memberships ctx.subject ([], []) s).0) [
    | inr (e, p) ↦ absurd (cc (rw p at h))
    | inl (mine, p) ↦
        let b = not (str_eq ctx.subject "") in
        elim (Result-cases (iterate_genealogies (list_public b) s.platform mine)) [
          | inr (e, q) ↦ absurd (cc (rw (p, memberships_state ctx.subject ([], []) s, q) at h))
          | inl (all, q) ↦ (
            mine,
            all,
            memberships-IsUnique ctx.subject s mine p,
            q,
            ok-inj (rw (p, memberships_state ctx.subject ([], []) s, q) at h),
          )
        ]
  ]

  -- While genealogies stand under their own ids, a successful ListGenealogies lists every public
  -- genealogy, for whomever, and no id twice.
  pub list_genealogies_lem :
      (ctx : Context) (s : State) {out : List PbGenealogy} (gid : String) (g : Genealogy)
      → IsWellKeyed s.platform
      → get_genealogy gid s.platform ≡ ok g
      → g.visibility ≡ visibility_public
      → (list_genealogies ctx s).0 ≡ ok out
      → IsListing out × (lists gid out ≡ true)
  list_genealogies_lem ctx s {out} gid g w stored public h =
      let (mine, all, u, i, e) = listed_in ctx s out h in
      let b = not (str_eq ctx.subject "") in
      let v = all-IsUnique b s.platform mine all i u in
      let there : seen gid all.0 ≡ true =
        subst (λ a. seen a all.0 ≡ true) (w.named gid g stored).0
          (all-seen b gid g s.platform mine all i stored public) in
      (subst IsListing e v.unique, ap (lists gid) (sym e) ∙ sym (v.listed gid) ∙ there)
