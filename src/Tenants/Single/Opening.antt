-- ===== src/Tenants/Single/Opening.antt =====
-- Get of internal/tenants/manager.go up to its opening, and the moves of its list.
use linea_server.Prelude.{
  ◌≡◌, refl, ap, ◌∙◌, sym, inl, inr, String, str_eq, eq_iff, true, false, none, some, List, [], ◌∷◌,
  arith, Bool-cases, Option-cases,
}
use linea_server.Result.{ok, plain, shutdown}
use linea_server.Tenants.{
  Stores, Handle, Disk, Entry, Manager, failed, hit, wait, start, member, unload, find, find_index,
  evict_locked, move_to_front, get_begin, get_finish,
}
use linea_server.Tenants.Entries.{find-remove, find_id, remove-IsDistinct, length-remove}
use linea_server.Tenants.Eviction.{IsIndexed}
use linea_server.Tenants.Single.{IsSound, NoRepeat, System, member-unload, opened, take_one}

module _ ⦃S : Stores⦄ where
  unload_absent : (id : String) (xs : List String) → member id xs ≡ false → unload id xs ≡ xs
  unload_absent id [] h = refl
  unload_absent id (x ∷ xs) h = ground (arith, unload_absent id xs)

  pub take_one-unload :
      (id : String) (xs : List String) → NoRepeat xs → take_one id xs ≡ unload id xs
  take_one-unload id [] d = refl
  take_one-unload id (x ∷ xs) d =
      ground (arith, take_one-unload id xs d.1, unload_absent id xs, eq_iff x id)

  pub unload-NoRepeat : (id : String) (xs : List String) → NoRepeat xs → NoRepeat (unload id xs)
  unload-NoRepeat id [] d = tt
  unload-NoRepeat id (x ∷ xs) d = elim (Bool-cases (str_eq x id)) [
    | inl same ↦ rw same (unload-NoRepeat id xs d.1)
    | inr other ↦ rw other (ground (arith, member-unload id x xs), unload-NoRepeat id xs d.1)
  ]

  pub find-moved :
      (m : Manager) (k : String) (e : Entry)
      → find k m.cache ≡ some e
      → (j : String) → find j (move_to_front e m.cache) ≡ find j m.cache
  unfolding move_to_front find
  find-moved m k e f j =
      ground (arith, find-remove e.id j m.cache, find_id k m.cache e f, eq_iff e.id j)

  -- MoveToFront changes the order and nothing else.
  moved-IsIndexed :
      (m : Manager) (k : String) (e : Entry)
      → IsIndexed m
      → find k m.cache ≡ some e
      → IsIndexed (record m { cache = move_to_front e m.cache })
  unfolding move_to_front
  moved-IsIndexed m k e x f =
      let same = find_id k m.cache e f in
      let f' : find e.id m.cache ≡ some e = ap (λ j. find j m.cache) same ∙ f in
      record {
        room = x.room;
        bounded = omega (arith, length-remove e.id m.cache e x.distinct f', x.bounded);
        distinct = (
          ground (arith, find-remove e.id e.id m.cache, eq_iff e.id e.id),
          remove-IsDistinct e.id m.cache x.distinct,
        );
        idx = x.idx;
        index = x.index;
        agree = λ j. x.agree j ∙ sym (find-moved m k e f j);
      }

  -- What a look-up in the index finds stands in the list.
  pub find_cached :
      (m : Manager) (id : String) (e : Entry)
      → IsIndexed m
      → find_index id m.index ≡ some e
      → find id m.cache ≡ some e
  find_cached m id e x h = ground (arith, x.index, x.agree id)

  pub find_uncached :
      (m : Manager) (id : String)
      → IsIndexed m
      → find_index id m.index ≡ none
      → find id m.cache ≡ none
  find_uncached m id x h = ground (arith, x.index, x.agree id)

  -- The three ends of the first critical section that touch the manager or start a load.
  hit-IsSound :
      (s : System) (k : String) (e : Entry)
      → IsSound s
      → s.m.closed ≡ false
      → find k s.m.cache ≡ some e
      → IsSound (record s { m = record s.m { cache = move_to_front e s.m.cache } })
  hit-IsSound s k e v op f = record {
    indexed = λ c. moved-IsIndexed s.m k e (v.indexed op) f;
    emptied = λ c. cc (c, op);
    loading = v.loading;
    single = v.single;
    apart = λ j h. find-moved s.m k e f j ∙ v.apart j h;
  }

  start-IsSound :
      (s : System) (id : String)
      → IsSound s
      → s.m.closed ≡ false
      → find id s.m.cache ≡ none
      → member id s.m.loading ≡ false
      → IsSound
          (record s { m = record s.m { loading = id ∷ s.m.loading }; opening = id ∷ s.opening })
  start-IsSound s id v op absent free = record {
    indexed = λ c.
        let x = v.indexed op in
        record {
          room = x.room;
          bounded = x.bounded;
          distinct = x.distinct;
          idx = x.idx;
          index = x.index;
          agree = x.agree;
        };
    emptied = v.emptied;
    loading = ap (λ xs. id ∷ xs) v.loading;
    single = (ap (member id) v.loading ∙ free, v.single);
    apart = λ j h. ground (arith, v.apart j, eq_iff id j, absent);
  }

  begin_blank :
      (id : String) (m : Manager)
      → str_eq id "" ≡ true
      → get_begin id m ≡ (failed (plain "tenants: id is required"), m)
  unfolding get_begin
  begin_blank id m blank = ground arith

  pub begin_closed :
      (id : String) (m : Manager)
      → str_eq id "" ≡ false
      → m.closed ≡ true
      → get_begin id m ≡ (failed shutdown, m)
  unfolding get_begin
  begin_closed id m named closed = ground arith

  pub begin_hit :
      (id : String) (m : Manager) (e : Entry)
      → str_eq id "" ≡ false
      → m.closed ≡ false
      → find_index id m.index ≡ some e
      → get_begin id m ≡ (hit e.store, record m { cache = move_to_front e m.cache })
  unfolding get_begin
  begin_hit id m e named op f = ground arith

  pub begin_wait :
      (id : String) (m : Manager)
      → str_eq id "" ≡ false
      → m.closed ≡ false
      → find_index id m.index ≡ none
      → member id m.loading ≡ true
      → get_begin id m ≡ (wait, m)
  unfolding get_begin
  begin_wait id m named op f busy = ground arith

  pub begin_start :
      (id : String) (m : Manager)
      → str_eq id "" ≡ false
      → m.closed ≡ false
      → find_index id m.index ≡ none
      → member id m.loading ≡ false
      → get_begin id m ≡ (start, record m { loading = id ∷ m.loading })
  unfolding get_begin
  begin_start id m named op f free = ground arith

  pub begin-IsSound :
      (s : System) (id : String)
      → IsSound s
      → IsSound (record s {
        m = (get_begin id s.m).1;
        opening = opened (get_begin id s.m).0 id s.opening;
      })
  begin-IsSound s id v = elim (Bool-cases (str_eq id "")) [
    | inl blank ↦ rw (begin_blank id s.m blank) v
    | inr named ↦ elim (Bool-cases s.m.closed) [
      | inl closed ↦ rw (begin_closed id s.m named closed) v
      | inr op ↦ elim (Option-cases (find_index id s.m.index)) [
        | inr (e, f) ↦
            rw (begin_hit id s.m e named op f)
              (hit-IsSound s id e v op (find_cached s.m id e (v.indexed op) f))
        | inl f ↦ elim (Bool-cases (member id s.m.loading)) [
          | inl busy ↦ rw (begin_wait id s.m named op f busy) v
          | inr free ↦
              rw (begin_start id s.m named op f free)
                (start-IsSound s id v op (find_uncached s.m id (v.indexed op) f) free)
        ]
      ]
    ]
  ]

  -- The second critical section installs the new store in front.
  pub finish_installs :
      (m : Manager) (id : String) (st : Handle) (disk : Disk) (x : IsIndexed m)
      → find id m.cache ≡ none
      → let e : Entry = record { id = id; store = st } in
        let m1 = record m { loading = unload id m.loading } in
        let r = evict_locked (record m1 { cache = e ∷ m.cache; index = some (e ∷ x.idx) }) disk in
        get_finish id (ok st) m disk ≡ (ok r.0, r.1)
  unfolding get_finish
  finish_installs m id st disk x absent = ground (arith, x.index, x.agree id)
