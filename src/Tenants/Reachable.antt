-- ===== src/Tenants/Reachable.antt =====
-- What holds of every state that the goroutines of a server can reach from a new manager.
use linea_server.Prelude.{
  ◌≤◌, ◌≡◌, refl, ap, subst, ◌∙◌, sym, ◌⊎◌, inl, inr, Bool-cases, Option-cases, eq_refl, String,
  true, false, none, some, [], ◌∷◌, arith,
}
use linea_server.Result.{Result, ok, err, panic}
use linea_server.Tenants.{
  Stores, Handle, Disk, Config, Entry, Manager, new_manager, member, unload, find, get_finish,
  get_begin, evict_locked, drop, close, len,
}
use linea_server.Tenants.Eviction.{evict-Evicted, evict_locked-cfg}
use linea_server.Tenants.Single.{
  System, Step, begin, finish, drop_one, close_all, Reach, here, next, IsSound, NoRepeat,
  member-unload,
}
use linea_server.Tenants.Single.Opening.{begin-IsSound, finish_installs}
use linea_server.Tenants.Single.Finish.{
  finish-IsSound, drop-IsSound, close-IsSound, finish_closed, find_pushed, close_first,
}

module _ ⦃S : Stores⦄ where
  Step-IsSound : {s t : System} → Step s t → IsSound s → IsSound t
  Step-IsSound {s} (begin id) v = begin-IsSound s id v
  Step-IsSound {s} (finish id st disk m' disk' busy h) v =
      finish-IsSound s id st disk m' disk' v busy h
  Step-IsSound {s} (drop_one id) v = drop-IsSound s id v
  Step-IsSound {s} close_all v = close-IsSound s v

  pub Reach-IsSound : {s t : System} → Reach s t → IsSound s → IsSound t
  Reach-IsSound here v = v
  Reach-IsSound (next r st) v = Step-IsSound st (Reach-IsSound r v)

  abbrev pub fresh : Manager → Disk → System
  fresh m disk = record { m = m; disk = disk; opening = [] }

  new_manager_lem :
      (cfg : Config) (m : Manager)
      → new_manager cfg ≡ ok m
      → (1 ≤ cfg.max_open)
        × (record { cfg = cfg; cache = []; index = some []; loading = []; closed = false } ≡ m)
  unfolding new_manager
  new_manager_lem cfg m h = ground arith

  pub new_manager-IsSound :
      (cfg : Config) (m : Manager) (disk : Disk) → new_manager cfg ≡ ok m → IsSound (fresh m disk)
  new_manager-IsSound cfg m disk h =
      let (room, same) = new_manager_lem cfg m h in
      subst (λ m'. IsSound (fresh m' disk)) same
        (record {
          indexed = λ _. record {
            room = room;
            bounded = omega arith;
            distinct = tt;
            idx = [];
            index = refl;
            agree = λ k. refl;
          };
          emptied = λ c. cc (c);
          loading = refl;
          single = tt;
          apart = λ id c. cc (c);
        })

  finish-cfg :
      (id : String) (st : Result Handle) (m : Manager) (disk : Disk) (m' : Manager) (disk' : Disk)
      → get_finish id st m disk ≡ (ok m', disk')
      → m'.cfg ≡ m.cfg
  unfolding get_finish
  finish-cfg id (err e) m disk m' disk' h = ground arith
  finish-cfg id (ok st) m disk m' disk' h = elim (Option-cases m.index) [
    | inl nil ↦ ground arith
    | inr (idx, p) ↦
        let e : Entry = record { id = id; store = st } in
        ground (
          arith,
          evict_locked-cfg
              (record m {
                loading = unload id m.loading;
                cache = e ∷ m.cache;
                index = some (e ∷ idx);
              })
              disk,
        )
  ]

  Step-cfg : {s t : System} → Step s t → t.m.cfg ≡ s.m.cfg
  Step-cfg {s} (begin id) = unfold get_begin in ground arith
  Step-cfg {s} (finish id st disk m' disk' busy h) = finish-cfg id st s.m disk m' disk' h
  Step-cfg {s} (drop_one id) = unfold drop in ground arith
  Step-cfg {s} close_all = unfold close in ground arith

  Reach-cfg : {s t : System} → Reach s t → t.m.cfg ≡ s.m.cfg
  Reach-cfg here = refl
  Reach-cfg (next r st) = Step-cfg st ∙ Reach-cfg r

  bounded_len : (t : System) → IsSound t → len t.m ≤ t.m.cfg.max_open
  bounded_len t v = elim (Bool-cases t.m.closed) [
    | inl closed ↦ rw ((v.emptied closed).0) (omega arith)
    | inr op ↦ (v.indexed op).bounded
  ]

  -- In every state that calls of Get, Drop and Close, in any interleaving of their critical
  -- sections, can reach from a new manager: no id is being opened twice, none is being opened
  -- while its store is cached, and at most the configured number of stores is cached.
  pub single_open :
      (cfg : Config) {m : Manager} (disk : Disk) {t : System} (id : String)
      → new_manager cfg ≡ ok m
      → Reach (fresh m disk) t
      → NoRepeat t.opening
        × ((member id t.opening ≡ false) ⊎ (find id t.m.cache ≡ none))
        × (len t.m ≤ cfg.max_open)
  single_open cfg {m} disk {t} id h r =
      let v = Reach-IsSound r (new_manager-IsSound cfg m disk h) in
      let same : t.m.cfg ≡ cfg = Reach-cfg r ∙ ap (λ x. x.cfg) (sym (new_manager_lem cfg m h).1) in
      (
        v.single,
        elim (Bool-cases (member id t.opening)) [
          | inl busy ↦ inr (v.apart id busy)
          | inr idle ↦ inl idle
        ],
        omega (arith, bounded_len t v, ap (λ (c : Config). c.max_open) same),
      )

  -- While a manager so reached is not closed, an opening that gives a store ends without a panic,
  -- whatever other calls did meanwhile, and leaves that very store in the cache and the id no
  -- longer loading.
  pub finish_caches :
      (cfg : Config) {m : Manager} (disk : Disk) {t : System} (id : String) (st : Handle)
      (disk1 : Disk)
      → new_manager cfg ≡ ok m
      → Reach (fresh m disk) t
      → t.m.closed ≡ false
      → member id t.opening ≡ true
      → (m' : Manager) × (disk' : Disk) × (get_finish id (ok st) t.m disk1 ≡ (ok m', disk'))
        × (find id m'.cache ≡ some (record { id = id; store = st }))
        × (member id m'.loading ≡ false)
  finish_caches cfg {m} disk {t} id st disk1 h r op busy =
      let v = Reach-IsSound r (new_manager-IsSound cfg m disk h) in
      let x = v.indexed op in
      let e : Entry = record { id = id; store = st } in
      let absent = v.apart id busy in
      let m1 = record t.m { loading = unload id t.m.loading } in
      let pushed = record m1 { cache = e ∷ t.m.cache; index = some (e ∷ x.idx) } in
      let ev =
        evict-Evicted e t.m.cache (e ∷ x.idx) m1 disk1 x.room (absent, x.distinct)
          (λ k. find_pushed k e t.m.cache x.idx (x.agree k)) x.bounded in
      (
        (evict_locked pushed disk1).0,
        (evict_locked pushed disk1).1,
        finish_installs t.m id st disk1 x absent,
        ev.newest,
        ap (member id) ev.rest.loading
            ∙ ground (arith, member-unload id id t.m.loading, eq_refl id),
      )

  -- Once Close has run on an open manager, an opening that was under way and gives a store panics:
  -- it writes to the index, which Close has set to nil.
  pub close_then_finish_panics :
      (m : Manager) (id : String) (st : Handle) (disk disk1 : Disk)
      → m.closed ≡ false
      → get_finish id (ok st) (close m disk).1 disk1
        ≡ (err (panic "assignment to entry in nil map"), disk1)
  close_then_finish_panics m id st disk disk1 op =
      finish_closed (close m disk).1 id st disk1 (ap (λ m'. m'.index) (close_first m disk op))
