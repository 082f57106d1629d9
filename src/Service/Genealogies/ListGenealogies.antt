-- ===== src/Service/Genealogies/ListGenealogies.antt =====
-- ListGenealogies of internal/service/genealogies.go: what the caller is a member of, then what is
-- public.
use linea_server.Prelude.{
  String, str_eq, Bool, true, false, not, List, [], ◌∷◌, ◌++◌, ◌==◌, if◌then◌else◌,
}
use linea_server.Result.{Result, ok, err}
use linea_server.Result.Exec.{Exec, ◌>>=◌, return}
use linea_server.Platform.Types.{visibility_public, Role, role_viewer, role_contributor, Genealogy}
use linea_server.Platform.Badger.{Badger}
use linea_server.Platform.Store.{get_genealogy, iterate_genealogies, iterate_memberships_for_user}
use linea_server.Tenants.{Stores}
use linea_server.Service.{Context, State, read}
use linea_server.Service.Proto.{PbGenealogy}
use linea_server.Service.PlatformMappers.{genealogy_to_proto}

-- `addUnique` of ListGenealogies, on the ids seen and the messages so far.
abbrev pub Listing : Type 0
Listing = List String × List PbGenealogy

unfoldable pub seen : String → List String → Bool
seen id [] = false
seen id (x ∷ xs) = if str_eq x id then true else seen id xs

unfoldable pub add_unique : Genealogy → Role → Listing → Listing
unfolding seen
add_unique g role (ids, out) =
    if seen g.id ids then (ids, out) else (g.id ∷ ids, out ++ genealogy_to_proto g role ∷ [])

-- The callback over the caller's memberships; one whose genealogy cannot be read is skipped.
unfoldable pub list_member : Result Genealogy → Role → Listing → Listing
unfolding add_unique
list_member (ok g) role l = add_unique g role l
list_member (err e) role l = l

-- The callback over all genealogies.
unfoldable pub list_public : Bool → Genealogy → Listing → Listing × Bool
unfolding add_unique
list_public authenticated g l =
    if not (g.visibility == visibility_public)
    then (l, true)
    else (add_unique g (if authenticated then role_contributor else role_viewer) l, true)

module _ ⦃B : Badger⦄ ⦃S : Stores⦄ where
  unfoldable pub list_memberships : String → Listing → Exec State Listing
  unfolding list_member
  list_memberships sub l s =
      if str_eq sub ""
      then (ok l, s)
      else read
          (λ db.
            iterate_memberships_for_user sub
              (λ m l'. (list_member (get_genealogy m.genealogy_id db) m.role l', true)) db l)
          s

  unfoldable pub list_genealogies : Context → Exec State (List PbGenealogy)
  unfolding list_memberships list_public
  list_genealogies ctx = do
    mine ← list_memberships ctx.subject ([], [])
    all ← read (λ db. iterate_genealogies (list_public (not (str_eq ctx.subject ""))) db mine)
    return all.1
