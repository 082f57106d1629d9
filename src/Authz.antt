-- ===== src/Authz.antt =====
-- internal/authz/resolver.go: the decision on a request, and the cache in front of it. Times are
-- nanoseconds; each reading of the clock is an argument.
pub mod Policy
pub mod Coherence
pub mod Consistent
use linea_server.Prelude.{
  ℕ, ◌+◌, ◌≡◌, String, str_eq, Bool, true, false, not, ◌&&◌, ◌||◌, Option, none, some, List, [],
  ◌∷◌, ltb, ◌==◌, if◌then◌else◌,
}
use linea_server.Result.{Result, ok, err, Error, not_found, not_allowed, bind_result}
use linea_server.Platform.Types.{
  Role, role_none, role_viewer, role_contributor, Visibility, visibility_private,
  visibility_unlisted, visibility_public, Genealogy, Membership,
}
use linea_server.Platform.Badger.{Badger, Db}
use linea_server.Platform.Store.{get_genealogy, get_membership}

pub record Decision : Type 0 where
  pub genealogy_id : String
  pub role : Role
  pub implicit : Bool

-- implicitRole: the visibility -> role table.
unfoldable pub implicit_role : Visibility → Bool → Role
implicit_role v authenticated =
    if v == visibility_public
    then (if authenticated then role_contributor else role_viewer)
    else if v == visibility_unlisted
    then (if authenticated then role_contributor else role_none)
    else if v == visibility_private
    then role_none
    else role_none

-- Step 2 of resolveLocked: the role that the visibility implies, if there is one.
unfoldable pub implicit_decision : Genealogy → Bool → Result Decision
unfolding implicit_role
implicit_decision g authenticated =
    let role = implicit_role g.visibility authenticated in
    if role == role_none
    then err not_allowed
    else ok (record { genealogy_id = g.id; role = role; implicit = true })

-- Step 1 of resolveLocked, on what the read of the membership gave.
unfoldable pub explicit_decision : Genealogy → Result Membership → Result Decision
unfolding implicit_decision
explicit_decision g (ok m) = ok (record { genealogy_id = g.id; role = m.role; implicit = false })
explicit_decision g (err not_found) = implicit_decision g true
explicit_decision g (err e) = err e

-- ----- TTL cache -----

pub record CacheEntry : Type 0 where
  pub sub : String
  pub gid : String
  pub d : Decision
  pub exp : ℕ

pub record Cache : Type 0 where
  pub ttl : ℕ
  pub m : List CacheEntry

-- NewResolver's default of five seconds, for a TTL of zero.
unfoldable pub new_resolver : ℕ → Cache
new_resolver cache_ttl = record {
  ttl = if cache_ttl == 0 then 5_000_000_000 else cache_ttl;
  m = [];
}

abbrev is_key : String → String → CacheEntry → Bool
is_key sub gid e = str_eq e.sub sub && str_eq e.gid gid

find : String → String → List CacheEntry → Option CacheEntry
find sub gid [] = none
find sub gid (e ∷ es) = if is_key sub gid e then some e else find sub gid es

without : String → String → List CacheEntry → List CacheEntry
without sub gid [] = []
without sub gid (e ∷ es) =
    let rest = without sub gid es in if is_key sub gid e then rest else e ∷ rest

-- An entry counts until the clock has passed `exp`.
live : ℕ → Option CacheEntry → Option Decision
live now none = none
live now (some e) = if ltb e.exp now then none else some e.d

unfoldable pub cache_get : ℕ → String → String → Cache → Option Decision
unfolding live find
cache_get now sub gid c = live now (find sub gid c.m)

unfoldable pub cache_put : ℕ → String → String → Decision → Cache → Cache
unfolding without
cache_put now sub gid d c = record c {
  m = record { sub = sub; gid = gid; d = d; exp = now + c.ttl } ∷ without sub gid c.m;
}

-- The test of Invalidate; an empty text matches every key.
abbrev is_match : String → String → CacheEntry → Bool
is_match sub gid e = (str_eq sub "" || str_eq e.sub sub) && (str_eq gid "" || str_eq e.gid gid)

pub drop_matches : String → String → List CacheEntry → List CacheEntry
drop_matches sub gid [] = []
drop_matches sub gid (e ∷ es) =
    let rest = drop_matches sub gid es in if is_match sub gid e then rest else e ∷ rest

unfoldable pub invalidate : String → String → Cache → Cache
unfolding drop_matches
invalidate sub gid c = record c { m = drop_matches sub gid c.m }

module _ ⦃B : Badger⦄ where
  unfoldable pub resolve_locked : String → Genealogy → Db → Result Decision
  unfolding explicit_decision implicit_decision
  resolve_locked subject g db =
      if not (str_eq subject "")
      then explicit_decision g (get_membership g.id subject db)
      else implicit_decision g false

  -- Resolve behind the cache: an unknown genealogy is refused like a forbidden one.
  unfoldable pub resolve_read : String → Result Genealogy → Db → Result Decision
  unfolding resolve_locked
  resolve_read subject (ok g) db = resolve_locked subject g db
  resolve_read subject (err not_found) db = err not_allowed
  resolve_read subject (err e) db = err e

  unfoldable pub resolve_uncached : String → String → Db → Result Decision
  unfolding resolve_read
  resolve_uncached subject gid db = resolve_read subject (get_genealogy gid db) db

  -- A decision goes into the cache, an error does not.
  remember : ℕ → String → String → Result Decision → Cache → Result Decision × Cache
  remember now sub gid (ok d) c = (ok d, cache_put now sub gid d c)
  remember now sub gid (err e) c = (err e, c)

  resolve_after : ℕ → String → String → Option Decision → Db → Cache → Result Decision × Cache
  unfolding remember resolve_uncached
  resolve_after now sub gid (some d) db c = (ok d, c)
  resolve_after now sub gid none db c = remember now sub gid (resolve_uncached sub gid db) c

  -- Resolve, with the clock as the cache is read and as it is written.
  unfoldable pub resolve : ℕ → ℕ → String → String → Db → Cache → Result Decision × Cache
  unfolding resolve_after
  resolve now later subject gid db c =
      if str_eq gid ""
      then (err not_allowed, c)
      else resolve_after later subject gid (cache_get now subject gid c) db c
