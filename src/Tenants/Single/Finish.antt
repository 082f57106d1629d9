-- ===== src/Tenants/Single/Finish.antt =====
-- The second critical section of Get, Drop and Close keep the invariant.
use linea_server.Prelude.{
  ◌≡◌, refl, ap, ◌∙◌, sym, subst, inl, inr, String, eq_iff, true, false, none, some, List, [], ◌∷◌,
  arith, Bool-cases, Option-cases,
}
use linea_server.Result.{Result, ok, err, Error, panic}
use linea_server.Tenants.{
  Stores, Handle, Disk, Entry, Manager, member, unload, find, find_index, remove, delete_index,
  get_finish, drop, close,
}
use linea_server.Tenants.Entries.{find-remove, remove-IsDistinct, length-remove-le}
use linea_server.Tenants.Eviction.{IsIndexed, Evicted, evict-Evicted}
use linea_server.Tenants.Single.{System, take_one, IsSound, member-unload}
use linea_server.Tenants.Single.Opening.{take_one-unload, unload-NoRepeat, finish_installs}

module _ ⦃S : Stores⦄ where
  ok-inj : {A : Type 0} {a b : A} → Result.ok a ≡ ok b → a ≡ b
  ok-inj h = cc

  pub find_pushed :
      (k : String) (e : Entry) (es idx : List Entry)
      → find k idx ≡ find k es
      → find k (e ∷ idx) ≡ find k (e ∷ es)
  unfolding find
  find_pushed k e es idx h = rw h

  -- The end of a load that failed.
  failed-IsSound :
      (s : System) (id : String) (disk : Disk)
      → IsSound s
      → IsSound (record {
        m = record s.m { loading = unload id s.m.loading };
        disk = disk;
        opening = unload id s.opening;
      })
  failed-IsSound s id disk v = record {
    indexed = λ op.
        let x = v.indexed op in
        record {
          room = x.room;
          bounded = x.bounded;
          distinct = x.distinct;
          idx = x.idx;
          index = x.index;
          agree = x.agree;
        };
    emptied = v.emptied;
    loading = ap (unload id) v.loading;
    single = unload-NoRepeat id s.opening v.single;
    apart = λ k h. v.apart k (ground (arith, member-unload id k s.opening));
  }

  installed-IsSound :
      (s : System) (id : String) (st : Handle) (disk : Disk) (m' : Manager) (disk' : Disk)
      → IsSound s
      → (x : IsIndexed s.m) → s.m.closed ≡ false
      → Evicted
          (record { id = id; store = st })
          s.m.cache
          (record { id = id; store = st } ∷ x.idx)
          (record s.m { loading = unload id s.m.loading })
          disk
          m'
      → IsSound (record { m = m'; disk = disk'; opening = unload id s.opening })
  unfolding find
  installed-IsSound s id st disk m' disk' v x op e = record {
    indexed = λ _. e.indexed;
    emptied = λ c. cc (c, op, e.rest.closed);
    loading = ap (unload id) v.loading ∙ sym e.rest.loading;
    single = unload-NoRepeat id s.opening v.single;
    apart = λ k h. elim (Option-cases (find k m'.cache)) [
      | inl absent ↦ absent
      | inr (y, f) ↦
          absurd
            (ground (arith, e.kept k y f, member-unload id k s.opening, v.apart k, eq_iff id k))
    ];
  }

  pub finish_closed :
      (m : Manager) (id : String) (st : Handle) (disk : Disk)
      → m.index ≡ none
      → get_finish id (ok st) m disk ≡ (err (panic "assignment to entry in nil map"), disk)
  unfolding get_finish
  finish_closed m id st disk h = ground arith

  install-IsSound :
      (s : System) (id : String) (st : Handle) (disk : Disk) (m' : Manager) (disk' : Disk)
      → IsSound s
      → member id s.opening ≡ true
      → get_finish id (ok st) s.m disk ≡ (ok m', disk')
      → IsSound (record { m = m'; disk = disk'; opening = unload id s.opening })
  install-IsSound s id st disk m' disk' v busy h = elim (Bool-cases s.m.closed) [
    | inl closed ↦ absurd (cc (finish_closed s.m id st disk (v.emptied closed).1))
    | inr op ↦
        let x = v.indexed op in
        let e : Entry = record { id = id; store = st } in
        let absent = v.apart id busy in
        let m1 = record s.m { loading = unload id s.m.loading } in
        let ev =
          evict-Evicted e s.m.cache (e ∷ x.idx) m1 disk x.room (absent, x.distinct)
            (λ k. find_pushed k e s.m.cache x.idx (x.agree k)) x.bounded in
        let same = sym (finish_installs s.m id st disk x absent) ∙ h in
        installed-IsSound s id st disk m' disk' v x op (
          subst (λ m2. Evicted e s.m.cache (e ∷ x.idx) m1 disk m2) (ok-inj (ap (λ r. r.0) same)) ev)
  ]

  finish_failed :
      (m : Manager) (id : String) (e : Error) (disk : Disk)
      → get_finish id (err e) m disk ≡ (ok (record m { loading = unload id m.loading }), disk)
  unfolding get_finish
  finish_failed m id e disk = refl

  pub finish-IsSound :
      (s : System) (id : String) (st : Result Handle) (disk : Disk) (m' : Manager) (disk' : Disk)
      → IsSound s
      → member id s.opening ≡ true
      → get_finish id st s.m disk ≡ (ok m', disk')
      → IsSound (record { m = m'; disk = disk'; opening = take_one id s.opening })
  finish-IsSound s id (ok st) disk m' disk' v busy h =
      rw (take_one-unload id s.opening v.single) (install-IsSound s id st disk m' disk' v busy h)
  finish-IsSound s id (err e) disk m' disk' v busy h = rw (take_one-unload id s.opening v.single) (
      subst (λ m2. IsSound (record { m = m2; disk = disk'; opening = unload id s.opening }))
        (ok-inj (ap (λ r. r.0) (sym (finish_failed s.m id e disk) ∙ h)))
        (failed-IsSound s id disk' v))

  -- Drop of an id that is not cached, and of one that is.
  drop_absent :
      (id : String) (m : Manager) (disk : Disk)
      → find_index id m.index ≡ none
      → drop id m disk ≡ (ok tt, m, disk)
  unfolding drop
  drop_absent id m disk h = ground arith

  drop_cached :
      (id : String) (m : Manager) (disk : Disk) (e : Entry)
      → find_index id m.index ≡ some e
      → (drop id m disk).1 ≡ record m { cache = remove id m.cache; index = delete_index id m.index }
  unfolding drop
  drop_cached id m disk e h = ground arith

  removed-IsSound :
      (s : System) (id : String) (disk : Disk)
      → IsSound s
      → (x : IsIndexed s.m) → s.m.closed ≡ false
      → IsSound (record s {
        m = record s.m { cache = remove id s.m.cache; index = delete_index id s.m.index };
        disk = disk;
      })
  removed-IsSound s id disk v x op = record {
    indexed = λ _. record {
      room = x.room;
      bounded = omega (arith, length-remove-le id s.m.cache, x.bounded);
      distinct = remove-IsDistinct id s.m.cache x.distinct;
      idx = remove id x.idx;
      index = ap (delete_index id) x.index;
      agree = λ k. ground (arith, find-remove id k x.idx, find-remove id k s.m.cache, x.agree k);
    };
    emptied = λ c. cc (c, op);
    loading = v.loading;
    single = v.single;
    apart = λ k h. ground (arith, find-remove id k s.m.cache, v.apart k);
  }

  pub drop-IsSound :
      (s : System) (id : String)
      → IsSound s
      → IsSound (record s { m = (drop id s.m s.disk).1; disk = (drop id s.m s.disk).2 })
  drop-IsSound s id v = elim (Option-cases (find_index id s.m.index)) [
    | inl f ↦ rw (drop_absent id s.m s.disk f) v
    | inr (e, f) ↦ elim (Bool-cases s.m.closed) [
      | inl closed ↦ absurd (ground (arith, v.emptied closed))
      | inr op ↦
          rw (drop_cached id s.m s.disk e f)
            (removed-IsSound s id (drop id s.m s.disk).2 v (v.indexed op) op)
    ]
  ]

  close_again : (m : Manager) (disk : Disk) → m.closed ≡ true → close m disk ≡ (ok tt, m, disk)
  unfolding close
  close_again m disk h = ground arith

  pub close_first :
      (m : Manager) (disk : Disk)
      → m.closed ≡ false
      → (close m disk).1 ≡ record m { closed = true; cache = []; index = none }
  unfolding close
  close_first m disk h = ground arith

  pub close-IsSound :
      (s : System)
      → IsSound s
      → IsSound (record s { m = (close s.m s.disk).1; disk = (close s.m s.disk).2 })
  close-IsSound s v = elim (Bool-cases s.m.closed) [
    | inl closed ↦ rw (close_again s.m s.disk closed) v
    | inr op ↦ rw (close_first s.m s.disk op) (record {
      indexed = λ c. cc (c);
      emptied = λ c. (refl, refl);
      loading = v.loading;
      single = v.single;
      apart = λ id h. unfold find in refl;
    })
  ]
