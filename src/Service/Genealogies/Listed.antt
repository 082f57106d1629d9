-- ===== src/Service/Genealogies/Listed.antt =====
-- What ListGenealogies lists: every public genealogy, and none twice.
pub mod Complete
use linea_server.Prelude.{
  ◌≡◌, refl, sym, ap, subst, has_prefix, has_prefix-⧺, ◌∙◌, inl, inr, String, str_eq, eq_iff,
  eq_refl, Bool, true, false, not, ◌||◌, List, [], ◌∷◌, ◌++◌, ◌==◌, arith, Bool-cases,
  if◌then◌else◌,
}
use linea_server.Result.{Result, ok, ok-inj, err, Result-cases}
use linea_server.Platform.Types.{
  visibility_public, Role, role_viewer, role_contributor, Genealogy, Membership,
}
use linea_server.Platform.Json.{unmarshal_genealogy, unmarshal_membership}
use linea_server.Platform.Badger.{Badger, Db, Blob}
use linea_server.Platform.Keys.{genealogies_prefix, memberships_prefix, genealogy_key}
use linea_server.Platform.Store.Iterate.{iterate_keeps, iterate_hits, yielded, scanned, read_row}
use linea_server.Platform.Store.WellKeyed.{IsWellKeyed}
use linea_server.Platform.Store.{
  yield_record, get_genealogy, iterate_genealogies, iterate_memberships_for_user,
}
use linea_server.Tenants.{Stores}
use linea_server.Service.{Context, State}
use linea_server.Service.Proto.{PbGenealogy}
use linea_server.Service.PlatformMappers.{genealogy_to_proto}
use linea_server.Service.Genealogies.ListGenealogies.{
  Listing, seen, add_unique, list_member, list_public, list_memberships, list_genealogies,
}

-- The listing has a genealogy of the id.
abbrev pub lists : String → List PbGenealogy → Bool
lists a [] = false
lists a (x ∷ xs) = str_eq x.id a || lists a xs

abbrev pub IsListing : List PbGenealogy → Type 0
IsListing [] = Unit {0}
IsListing (x ∷ xs) = (lists x.id xs ≡ false) × IsListing xs

-- The ids seen are those listed, and no id is listed twice.
record IsUnique (l : Listing) : Type 0 where
  pub listed : (a : String) → seen a l.0 ≡ lists a l.1
  pub unique : IsListing l.1

lists-append :
    (a : String) (xs : List PbGenealogy) (y : PbGenealogy)
    → lists a (xs ++ y ∷ []) ≡ (lists a xs || str_eq y.id a)
lists-append a [] y = ground arith
lists-append a (x ∷ xs) y = ground (arith, lists-append a xs y)

append-IsListing :
    (xs : List PbGenealogy) (y : PbGenealogy)
    → lists y.id xs ≡ false
    → IsListing xs
    → IsListing (xs ++ y ∷ [])
append-IsListing [] y new u = (refl, tt)
append-IsListing (x ∷ xs) y new u = (
  ground (arith, lists-append x.id xs y, eq_iff x.id y.id, eq_iff y.id x.id),
  append-IsListing xs y (ground arith) u.1,
)

add_unique-IsUnique :
    (g : Genealogy) (role : Role) (l : Listing) → IsUnique l → IsUnique (add_unique g role l)
unfolding add_unique seen genealogy_to_proto
add_unique-IsUnique g role (ids, out) u = elim (Bool-cases (seen g.id ids)) [
  | inl again ↦ rw again u
  | inr new ↦ rw new (record {
    listed = λ a. ground (arith, u.listed a, lists-append a out (genealogy_to_proto g role));
    unique = append-IsListing out (genealogy_to_proto g role) (sym (u.listed g.id) ∙ new) u.unique;
  })
]

list_member-IsUnique :
    (r : Result Genealogy) (role : Role) (l : Listing)
    → IsUnique l
    → IsUnique (list_member r role l)
unfolding list_member
list_member-IsUnique (ok g) role l u = add_unique-IsUnique g role l u
list_member-IsUnique (err e) role l u = u

list_public-IsUnique :
    (b : Bool) (g : Genealogy) (l : Listing) → IsUnique l → IsUnique (list_public b g l).0
unfolding list_public
list_public-IsUnique b g l u = elim (Bool-cases (g.visibility == visibility_public)) [
  | inl shown ↦ rw shown (add_unique-IsUnique g (if b then role_contributor else role_viewer) l u)
  | inr other ↦ rw other u
]

-- What has been seen stays seen.
add_unique-seen :
    (a : String) (g : Genealogy) (role : Role) (l : Listing)
    → seen a l.0 ≡ true
    → seen a (add_unique g role l).0 ≡ true
unfolding add_unique seen
add_unique-seen a g role (ids, out) h = ground arith

add_unique-adds :
    (g : Genealogy) (role : Role) (l : Listing) → seen g.id (add_unique g role l).0 ≡ true
unfolding add_unique seen
add_unique-adds g role (ids, out) = ground (arith, eq_refl g.id)

list_public-seen :
    (a : String) (b : Bool) (g : Genealogy) (l : Listing)
    → seen a l.0 ≡ true
    → seen a (list_public b g l).0.0 ≡ true
unfolding list_public
list_public-seen a b g l h = elim (Bool-cases (g.visibility == visibility_public)) [
  | inl shown ↦ rw shown (add_unique-seen a g (if b then role_contributor else role_viewer) l h)
  | inr other ↦ rw other h
]

list_public-adds :
    (b : Bool) (g : Genealogy) (l : Listing)
    → g.visibility ≡ visibility_public
    → seen g.id (list_public b g l).0.0 ≡ true
unfolding list_public
list_public-adds b g l h =
    let shown : (g.visibility == visibility_public) ≡ true = ground arith in
    rw shown (add_unique-adds g (if b then role_contributor else role_viewer) l)

list_public-goes : (b : Bool) (g : Genealogy) (l : Listing) → (list_public b g l).1 ≡ true
unfolding list_public
list_public-goes b g l = elim (Bool-cases (g.visibility == visibility_public)) [
  | inl shown ↦ rw shown refl
  | inr other ↦ rw other refl
]

list_member-seen :
    (a : String) (r : Result Genealogy) (role : Role) (l : Listing)
    → seen a l.0 ≡ true
    → seen a (list_member r role l).0 ≡ true
unfolding list_member
list_member-seen a (ok g) role l h = add_unique-seen a g role l h
list_member-seen a (err e) role l h = h
