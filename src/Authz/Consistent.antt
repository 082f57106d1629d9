-- ===== src/Authz/Consistent.antt =====
-- The stored data and the decision cache together: what a handler may leave behind. After a change,
-- the invariant may hold only once Invalidate has run.
pub mod Writes
use linea_server.Prelude.{
  ℕ, ◌≡◌, sym, ◌∙◌, inl, inr, String, str_eq, eq_iff, false, List, [], ◌∷◌, All, arith, Bool-cases,
  str_eq_of_ne,
}
use linea_server.Result.{ok, err, not_found}
use linea_server.Platform.Types.{ℤ, Genealogy, Membership}
use linea_server.Platform.Badger.{Badger, Db}
use linea_server.Platform.Keys.{membership_key, reverse_membership_key, IsId}
use linea_server.Platform.Keys.Apart.{membership-ne-genealogy, reverse-ne-genealogy}
use linea_server.Platform.Store.{
  get_genealogy, get_membership, put_genealogy, delete_genealogy, put_membership, delete_membership,
}
use linea_server.Platform.Store.Lookup.{
  get-put_genealogy, get_membership-put_genealogy, get-delete_genealogy,
  get_membership-delete_genealogy, get-put_membership, get-delete_membership,
  get_genealogy-put_membership, get_genealogy-delete_membership,
}
use linea_server.Platform.Store.Inversion.{put_membership-DidPut}
use linea_server.Platform.Store.WellKeyed.{
  IsWellKeyed, put_genealogy-IsWellKeyed, delete_genealogy-IsWellKeyed, put_membership-IsWellKeyed,
  delete_membership-IsWellKeyed,
}
use linea_server.Platform.Store.Indexed.{
  IsIndexed, put_genealogy-IsIndexed, put_membership-IsIndexed, delete_membership-IsIndexed,
}
use linea_server.Platform.Untouched.{
  Untouched, Untouched-IsWellKeyed, Untouched-IsIndexed, Untouched-get_genealogy,
  Untouched-get_membership,
}
use linea_server.Authz.{CacheEntry, Cache, drop_matches, invalidate, is_match, resolve}
use linea_server.Authz.Coherence.{
  IsCoherent, Agrees, drop_matches-All, keeps-Agrees, resolve_uncached-frame, resolved_genealogy,
  resolve_transparent, put_membership-IsCoherent, delete_membership-IsCoherent,
}

-- Genealogies stand under their own ids, the two copies of a membership are equal, and every cached
-- decision is the one that the database gives.
pub record IsConsistent ⦃B : Badger⦄ (db : Db) (c : Cache) : Type 0 where
  pub well_keyed : IsWellKeyed db
  pub indexed : IsIndexed db
  pub coherent : IsCoherent db c

-- No cached decision is about the genealogy.
abbrev pub IsVacant : String → Cache → Type 0
IsVacant gid c = All (λ (e : CacheEntry). str_eq e.gid gid ≡ false) c.m

module _ ⦃B : Badger⦄ where
  map-All :
      {P Q : CacheEntry → Type 0} (es : List CacheEntry)
      → ((e : CacheEntry) → P e → Q e)
      → All P es
      → All Q es
  map-All [] f h = tt
  map-All (e ∷ es) f h = (f e h.0, map-All es f h.1)

  map2-All :
      {P Q R : CacheEntry → Type 0} (es : List CacheEntry)
      → ((e : CacheEntry) → P e → Q e → R e)
      → All P es
      → All Q es
      → All R es
  map2-All [] f h k = tt
  map2-All (e ∷ es) f h k = (f e h.0 k.0, map2-All es f h.1 k.1)

  drop_matches-missed :
      (sub gid : String) (es : List CacheEntry)
      → All (λ (e : CacheEntry). is_match sub gid e ≡ false) (drop_matches sub gid es)
  unfolding drop_matches
  drop_matches-missed sub gid [] = tt
  drop_matches-missed sub gid (e ∷ es) = elim (Bool-cases (is_match sub gid e)) [
    | inl hit ↦ rw hit (drop_matches-missed sub gid es)
    | inr miss ↦ rw miss (miss, drop_matches-missed sub gid es)
  ]

  pub invalidate-IsConsistent :
      (sub gid : String) (db : Db) (c : Cache)
      → IsConsistent db c
      → IsConsistent db (invalidate sub gid c)
  unfolding invalidate
  invalidate-IsConsistent sub gid db c v = record {
    well_keyed = v.well_keyed;
    indexed = v.indexed;
    coherent = drop_matches-All (Agrees db) (Agrees db) sub gid c.m (λ e miss a. a) v.coherent;
  }

  pub resolve-IsConsistent :
      (now later : ℕ) (sub gid : String) (db : Db) (c : Cache)
      → IsConsistent db c
      → IsConsistent db (resolve now later sub gid db c).1
  resolve-IsConsistent now later sub gid db c v = elim (Bool-cases (str_eq gid "")) [
    | inl nameless ↦ unfold resolve in rw nameless v
    | inr named ↦ record {
      well_keyed = v.well_keyed;
      indexed = v.indexed;
      coherent = (resolve_transparent now later sub gid db c named v.coherent).1;
    }
  ]

  -- A decision that does not read what changed.
  same-Agrees :
      (db db' : Db) (e : CacheEntry)
      → get_genealogy e.gid db' ≡ get_genealogy e.gid db
      → ((a s : String) → get_membership a s db' ≡ get_membership a s db)
      → Agrees db e
      → Agrees db' e
  same-Agrees db db' e eg em a =
      resolve_uncached-frame e.sub e.gid db db' eg (λ g p. em g.id e.sub) ∙ a

  pub Untouched-IsConsistent :
      (db db' : Db) (c : Cache) → Untouched db db' → IsConsistent db c → IsConsistent db' c
  Untouched-IsConsistent db db' c u v = record {
    well_keyed = Untouched-IsWellKeyed db db' u v.well_keyed;
    indexed = Untouched-IsIndexed db db' u v.indexed;
    coherent =
        map-All c.m
          (λ e a.
            same-Agrees db db' e (Untouched-get_genealogy db db' e.gid u)
              (λ g s. Untouched-get_membership db db' g s u) a)
          v.coherent;
  }

  pub put_membership-IsConsistent :
      (now : ℤ) (m : Membership) (db : Db) {db' : Db} (c : Cache)
      → IsId m.genealogy_id
      → IsConsistent db c
      → put_membership now m db ≡ ok db'
      → IsConsistent db' (invalidate m.subject m.genealogy_id c)
  put_membership-IsConsistent now m db c is_id v h = record {
    well_keyed = put_membership-IsWellKeyed now m db v.well_keyed h;
    indexed = put_membership-IsIndexed now m db is_id v.indexed h;
    coherent = put_membership-IsCoherent now m db c is_id v.well_keyed v.coherent h;
  }

  pub delete_membership-IsConsistent :
      (gid sub : String) (db : Db) {db' : Db} (c : Cache)
      → IsId gid
      → IsConsistent db c
      → delete_membership gid sub db ≡ ok db'
      → IsConsistent db' (invalidate sub gid c)
  delete_membership-IsConsistent gid sub db c is_id v h = record {
    well_keyed = delete_membership-IsWellKeyed gid sub db v.well_keyed h;
    indexed = delete_membership-IsIndexed gid sub db is_id v.indexed h;
    coherent = delete_membership-IsCoherent gid sub db c is_id v.well_keyed v.coherent h;
  }
