-- ===== src/Authz/Coherence.antt =====
-- The decision cache is transparent: while its entries agree with the database, Resolve answers as
-- it would without the cache, and the invalidation after a change of membership keeps that so.
use linea_server.Prelude.{
  ℕ, ◌≡◌, refl, sym, ◌∙◌, inl, inr, String, str_eq, eq_iff, false, ◌&&◌, some, List, [], ◌∷◌, All,
  arith, Bool-cases, Option-cases,
}
use linea_server.Result.{ok, Result-cases}
use linea_server.Platform.Types.{ℤ, Genealogy, Membership}
use linea_server.Platform.Badger.{Badger, Db}
use linea_server.Platform.Keys.{IsId}
use linea_server.Platform.Store.{get_genealogy, get_membership, put_membership, delete_membership}
use linea_server.Platform.Store.Lookup.{
  get-put_membership, get-delete_membership, get_genealogy-put_membership,
  get_genealogy-delete_membership,
}
use linea_server.Platform.Store.WellKeyed.{IsWellKeyed}
use linea_server.Authz.{
  Decision, CacheEntry, Cache, find, without, drop_matches, cache_get, cache_put, invalidate,
  is_key, is_match, resolve_uncached, resolve,
}

module _ ⦃B : Badger⦄ where
  -- A cached decision is the one that the database gives.
  abbrev pub Agrees : Db → CacheEntry → Type 0
  Agrees db e = resolve_uncached e.sub e.gid db ≡ ok e.d

  abbrev pub IsCoherent : Db → Cache → Type 0
  IsCoherent db c = All (Agrees db) c.m

  find-Agrees :
      (db : Db) (sub gid : String) (es : List CacheEntry) (e : CacheEntry)
      → All (Agrees db) es
      → find sub gid es ≡ some e
      → resolve_uncached sub gid db ≡ ok e.d
  unfolding find
  find-Agrees db sub gid [] e h p = cc
  find-Agrees db sub gid (x ∷ es) e h p = elim (Bool-cases (is_key sub gid x)) [
    | inl hit ↦ ground (arith, eq_iff x.sub sub, eq_iff x.gid gid)
    | inr miss ↦ find-Agrees db sub gid es e h.1 (ground arith)
  ]

  without-All :
      (P : CacheEntry → Type 0) (sub gid : String) (es : List CacheEntry)
      → All P es
      → All P (without sub gid es)
  unfolding without
  without-All P sub gid [] h = tt
  without-All P sub gid (x ∷ es) h = elim (Bool-cases (is_key sub gid x)) [
    | inl hit ↦ rw hit (without-All P sub gid es h.1)
    | inr miss ↦ rw miss (h.0, without-All P sub gid es h.1)
  ]

  cache_get-Agrees :
      (now : ℕ) (db : Db) (sub gid : String) (c : Cache) (d : Decision)
      → IsCoherent db c
      → cache_get now sub gid c ≡ some d
      → resolve_uncached sub gid db ≡ ok d
  unfolding cache_get
  cache_get-Agrees now db sub gid c d h p = elim (Option-cases (find sub gid c.m)) [
    | inl miss ↦ cc (miss)
    | inr (e, hit) ↦ ground (arith, find-Agrees db sub gid c.m e h hit)
  ]

  cache_put-IsCoherent :
      (now : ℕ) (db : Db) (sub gid : String) (c : Cache) (d : Decision)
      → IsCoherent db c
      → resolve_uncached sub gid db ≡ ok d
      → IsCoherent db (cache_put now sub gid d c)
  unfolding cache_put
  cache_put-IsCoherent now db sub gid c d h p = (p, without-All (Agrees db) sub gid c.m h)

  -- While the cached decisions are those of the database, Resolve for a non-empty genealogy id
  -- gives what it would give without the cache, at any time, and leaves the cache so.
  pub resolve_transparent :
      (now later : ℕ) (sub gid : String) (db : Db) (c : Cache)
      → str_eq gid "" ≡ false
      → IsCoherent db c
      → ((resolve now later sub gid db c).0 ≡ resolve_uncached sub gid db)
        × IsCoherent db (resolve now later sub gid db c).1
  resolve_transparent now later sub gid db c named h =
      elim (Option-cases (cache_get now sub gid c)) [
        | inr (d, hit) ↦
            unfold resolve in rw (named, hit) (sym (cache_get-Agrees now db sub gid c d h hit), h)
        | inl miss ↦ elim (Result-cases (resolve_uncached sub gid db)) [
          | inl (d, p) ↦
              unfold resolve in
              rw (named, miss, p) (refl, cache_put-IsCoherent later db sub gid c d h p)
          | inr (e, p) ↦ unfold resolve in rw (named, miss, p) (refl, h)
        ]
      ]

  -- The decisions on a pair depend on its genealogy and its membership alone.
  pub resolve_uncached-frame :
      (sub gid : String) (db db' : Db)
      → get_genealogy gid db' ≡ get_genealogy gid db
      → ((g : Genealogy)
          → get_genealogy gid db ≡ ok g
          → get_membership g.id sub db' ≡ get_membership g.id sub db)
      → resolve_uncached sub gid db' ≡ resolve_uncached sub gid db
  unfolding resolve_uncached
  resolve_uncached-frame sub gid db db' eg em = elim (Result-cases (get_genealogy gid db)) [
    | inl (g, p) ↦ ground (arith, em g p)
    | inr (e, p) ↦ ground arith
  ]

  -- The entries that Invalidate leaves still agree, if the change touched one pair only.
  pub drop_matches-All :
      (P Q : CacheEntry → Type 0) (sub gid : String) (es : List CacheEntry)
      → ((e : CacheEntry) → is_match sub gid e ≡ false → P e → Q e)
      → All P es
      → All Q (drop_matches sub gid es)
  unfolding drop_matches
  drop_matches-All P Q sub gid [] f h = tt
  drop_matches-All P Q sub gid (e ∷ es) f h = elim (Bool-cases (is_match sub gid e)) [
    | inl hit ↦ rw hit (drop_matches-All P Q sub gid es f h.1)
    | inr miss ↦ rw miss (f e miss h.0, drop_matches-All P Q sub gid es f h.1)
  ]

  -- What a cached success tells of the genealogy that it is about.
  pub resolved_genealogy :
      (sub gid : String) (db : Db) (d : Decision)
      → resolve_uncached sub gid db ≡ ok d
      → (g : Genealogy) × (get_genealogy gid db ≡ ok g)
  unfolding resolve_uncached
  resolved_genealogy sub gid db d h = elim (Result-cases (get_genealogy gid db)) [
    | inl found ↦ found
    | inr (e, p) ↦ absurd (ground arith)
  ]

  -- An entry that the invalidation of one pair passes over keeps its decision, when the change left
  -- the genealogies and the memberships of the other pairs alone.
  pub keeps-Agrees :
      (sub gid : String) (db db' : Db)
      → IsWellKeyed db
      → ((a : String) → get_genealogy a db' ≡ get_genealogy a db)
      → ((a s : String)
          → IsId a
          → (str_eq gid a && str_eq sub s) ≡ false
          → get_membership a s db' ≡ get_membership a s db)
      → (e : CacheEntry) → is_match sub gid e ≡ false
      → Agrees db e
      → Agrees db' e
  keeps-Agrees sub gid db db' w eg em e miss h =
      resolve_uncached-frame e.sub e.gid db db' (eg e.gid) (λ g p.
        let (named, is_id) = w.named e.gid g p in
        em g.id e.sub (rw named is_id) (
          ground
            (arith, eq_iff e.sub sub, eq_iff e.gid gid, eq_iff gid g.id, eq_iff sub e.sub, named)))
      ∙ h

  -- After PutMembership, with an id that holds no "/", the call of Invalidate for its subject and
  -- genealogy leaves only cached decisions that the new database gives, if all were those of the
  -- old one, whose genealogies stand under their own ids.
  pub put_membership-IsCoherent :
      (now : ℤ) (m : Membership) (db : Db) {db' : Db} (c : Cache)
      → IsId m.genealogy_id
      → IsWellKeyed db
      → IsCoherent db c
      → put_membership now m db ≡ ok db'
      → IsCoherent db' (invalidate m.subject m.genealogy_id c)
  unfolding invalidate
  put_membership-IsCoherent now m db {db'} c hm w h p =
      drop_matches-All (Agrees db) (Agrees db') m.subject m.genealogy_id c.m
        (keeps-Agrees m.subject m.genealogy_id db db' w
          (λ a. get_genealogy-put_membership now m db a p)
          (λ a s ia other. ground (arith, get-put_membership now m db a s hm ia p)))
        h

  -- After DeleteMembership, with an id that holds no "/", the call of Invalidate for its subject
  -- and genealogy leaves only cached decisions that the new database gives, if all were those of
  -- the old one, whose genealogies stand under their own ids.
  pub delete_membership-IsCoherent :
      (gid sub : String) (db : Db) {db' : Db} (c : Cache)
      → IsId gid
      → IsWellKeyed db
      → IsCoherent db c
      → delete_membership gid sub db ≡ ok db'
      → IsCoherent db' (invalidate sub gid c)
  unfolding invalidate
  delete_membership-IsCoherent gid sub db {db'} c hg w h p =
      drop_matches-All (Agrees db) (Agrees db') sub gid c.m
        (keeps-Agrees sub gid db db' w (λ a. get_genealogy-delete_membership gid sub db a p)
          (λ a s ia other. ground (arith, get-delete_membership gid sub db a s hg ia p)))
        h
