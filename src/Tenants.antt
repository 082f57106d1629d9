-- ===== src/Tenants.antt =====
-- internal/tenants/manager.go: the bounded LRU of open per-genealogy stores. `Get` runs in three
-- parts, as its mutex divides it: `get_begin` and `get_finish` under the mutex, and the opening of
-- the store between them, where other calls may run.
pub mod Entries
pub mod Eviction
pub mod Termination
pub mod Single
pub mod Reachable
use linea_server.Prelude.{
  ℕ, zero, suc, String, str_eq, Bool, true, false, Option, none, some, List, [], ◌∷◌, length, ltb,
  ◌⧺◌, if◌then◌else◌,
}
use linea_server.Result.{Result, ok, err, Error, plain, panic, shutdown}

-- Linea-core's Badger stores and the file system below them: a handle is a `*badger.Store`.
pub record Stores : Type 1 where
  pub Disk : Type 0
  pub Handle : Type 0
  pub open_store : String → Disk → Result Handle × Disk
  pub close_store : Handle → Disk → Result (Unit {0}) × Disk
  pub remove_all : String → Disk → Result (Unit {0}) × Disk

abbrev pub Disk : ⦃S : Stores⦄ → Type 0
Disk ⦃S⦄ = S.Disk

abbrev pub Handle : ⦃S : Stores⦄ → Type 0
Handle ⦃S⦄ = S.Handle

pub record Config : Type 0 where
  pub root : String
  pub max_open : ℕ

pub record Entry ⦃S : Stores⦄ : Type 0 where
  pub id : String
  pub store : Handle

-- `index` maps an id to its element of `cache`, front first; it is `none` as a nil map. `loading`
-- holds the ids whose store is being opened.
pub record Manager ⦃S : Stores⦄ : Type 0 where
  pub cfg : Config
  pub cache : List Entry
  pub index : Option (List Entry)
  pub loading : List String
  pub closed : Bool

-- filepath.Join, for a root and an id that are clean.
abbrev pub join : String → String → String
join root id = root ⧺ "/" ⧺ id

-- An id in a set of ids, and the set without it.
abbrev pub member : String → List String → Bool
member id [] = false
member id (x ∷ xs) = if str_eq x id then true else member id xs

abbrev pub unload : String → List String → List String
unload id [] = []
unload id (x ∷ xs) = let rest = unload id xs in if str_eq x id then rest else x ∷ rest

module _ ⦃S : Stores⦄ where
  unfoldable pub find : String → List Entry → Option Entry
  find id [] = none
  find id (e ∷ es) = if str_eq e.id id then some e else find id es

  unfoldable pub remove : String → List Entry → List Entry
  remove id [] = []
  remove id (e ∷ es) = let rest = remove id es in if str_eq e.id id then rest else e ∷ rest

  -- A look-up in a nil map finds nothing.
  abbrev pub find_index : String → Option (List Entry) → Option Entry
  find_index id none = none
  find_index id (some es) = find id es

  abbrev pub delete_index : String → Option (List Entry) → Option (List Entry)
  delete_index id none = none
  delete_index id (some es) = some (remove id es)

  unfoldable pub new_manager : Config → Result Manager
  new_manager cfg =
      if str_eq cfg.root ""
      then err (plain "tenants: Config.Root is required")
      else if ltb cfg.max_open 1
      then err (plain "tenants: Config.MaxOpen must be >= 1")
      else ok (record { cfg = cfg; cache = []; index = some []; loading = []; closed = false })

  -- `cache.MoveToFront(elem)`
  unfoldable pub move_to_front : Entry → List Entry → List Entry
  unfolding remove
  move_to_front e es = e ∷ remove e.id es

  -- `cache.Back()` and what stands in front of it.
  unfoldable pub split_back : List Entry → Option (List Entry × Entry)
  split_back [] = none
  split_back (e ∷ es) = elim (split_back es) [ none ↦ some ([], e) | some r ↦ some (e ∷ r.0, r.1) ]

  -- One round of evictLocked: the tail leaves the list and the index, and is closed.
  unfoldable pub evict_tail : Option (List Entry × Entry) → Manager → Disk → Manager × Disk
  evict_tail none m disk = (m, disk)
  evict_tail (some (front, e)) m disk = (
    record m { cache = front; index = delete_index e.id m.index },
    (S.close_store e.store disk).1,
  )

  -- evictLocked, a round for each element of the list at most.
  unfoldable pub evict_rounds : ℕ → Manager → Disk → Manager × Disk
  unfolding evict_tail
  evict_rounds zero m disk = (m, disk)
  evict_rounds (suc n) m disk = elim (ltb m.cfg.max_open (length m.cache)) [
    | false ↦ (m, disk)
    | true ↦ let (m', disk') = evict_tail (split_back m.cache) m disk in evict_rounds n m' disk'
  ]

  unfoldable pub evict_locked : Manager → Disk → Manager × Disk
  unfolding evict_rounds split_back
  evict_locked m disk = evict_rounds (length m.cache) m disk

  -- installLocked without an element for the id; writing to a nil map panics.
  install_new : Entry → Option (List Entry) → Manager → Disk → Result Manager × Disk
  install_new e none m disk = (err (panic "assignment to entry in nil map"), disk)
  install_new e (some idx) m disk =
      let (m', disk') =
        evict_locked (record m { cache = e ∷ m.cache; index = some (e ∷ idx) }) disk in
      (ok m', disk')

  install_from : Option Entry → Entry → Manager → Disk → Result Manager × Disk
  unfolding install_new move_to_front
  install_from (some elem) e m disk =
      (ok (record m { cache = move_to_front elem m.cache }), (S.close_store e.store disk).1)
  install_from none e m disk = install_new e m.index m disk

  unfoldable pub install_locked : String → Handle → Manager → Disk → Result Manager × Disk
  unfolding install_from
  install_locked id st m disk =
      install_from (find_index id m.index) (record { id = id; store = st }) m disk

-- How the first critical section of Get ends: with an error, a cached store, another call to wait
-- for, or a store to open.
pub data Begin ⦃S : Stores⦄ : Type 0 where
  failed : Error → Begin
  hit : Handle → Begin
  wait : Begin
  start : Begin

module _ ⦃S : Stores⦄ where
  begin_miss : String → Manager → Begin × Manager
  begin_miss id m =
      if member id m.loading then (wait, m) else (start, record m { loading = id ∷ m.loading })

  begin_from : Option Entry → String → Manager → Begin × Manager
  unfolding begin_miss move_to_front
  begin_from (some e) id m = (hit e.store, record m { cache = move_to_front e m.cache })
  begin_from none id m = begin_miss id m

  unfoldable pub get_begin : String → Manager → Begin × Manager
  unfolding begin_from find
  get_begin id m =
      if str_eq id ""
      then (failed (plain "tenants: id is required"), m)
      else if m.closed
      then (failed shutdown, m)
      else begin_from (find_index id m.index) id m

  -- The second critical section, with what the opening gave.
  unfoldable pub get_finish : String → Result Handle → Manager → Disk → Result Manager × Disk
  unfolding install_locked
  get_finish id (err e) m disk = (ok (record m { loading = unload id m.loading }), disk)
  get_finish id (ok st) m disk =
      install_locked id st (record m { loading = unload id m.loading }) disk

  -- openLocked
  unfoldable pub open_locked : String → Manager → Disk → Result Handle × Disk
  open_locked id m disk = S.open_store (join m.cfg.root id) disk

  -- Get with no other call in between. A panic in the second section ends the process.
  get_opened : Result Handle → Result Manager × Disk → Manager → Result Handle × Manager × Disk
  get_opened st (ok m', disk) m = (st, m', disk)
  get_opened st (err e, disk) m = (err e, m, disk)

  get_from : Begin × Manager → String → Disk → Result Handle × Manager × Disk
  unfolding get_opened get_finish open_locked
  get_from (failed e, m) id disk = (err e, m, disk)
  get_from (hit st, m) id disk = (ok st, m, disk)
  get_from (wait, m) id disk = (err (plain "another call has to finish first"), m, disk)
  get_from (start, m) id disk =
      let (st, disk') = open_locked id m disk in get_opened st (get_finish id st m disk') m

  unfoldable pub get : String → Manager → Disk → Result Handle × Manager × Disk
  unfolding get_from get_begin
  get id m disk = get_from (get_begin id m) id disk

  drop_from : Option Entry → String → Manager → Disk → Result (Unit {0}) × Manager × Disk
  unfolding remove
  drop_from none id m disk = (ok tt, m, disk)
  drop_from (some e) id m disk =
      let (r, disk') = S.close_store e.store disk in
      (r, record m { cache = remove id m.cache; index = delete_index id m.index }, disk')

  unfoldable pub drop : String → Manager → Disk → Result (Unit {0}) × Manager × Disk
  unfolding drop_from find
  drop id m disk = drop_from (find_index id m.index) id m disk

  unfoldable pub remove_on_disk : String → Manager → Disk → Result (Unit {0}) × Disk
  remove_on_disk id m disk = S.remove_all (join m.cfg.root id) disk

  -- The first error of two.
  abbrev first_error : Result (Unit {0}) → Result (Unit {0}) → Result (Unit {0})
  first_error (ok _) r = r
  first_error (err e) r = err e

  -- The loop of Close, with `firstErr` so far.
  close_all : List Entry → Result (Unit {0}) → Disk → Result (Unit {0}) × Disk
  close_all [] first disk = (first, disk)
  close_all (e ∷ es) first disk =
      let (r, disk') = S.close_store e.store disk in close_all es (first_error first r) disk'

  unfoldable pub close : Manager → Disk → Result (Unit {0}) × Manager × Disk
  unfolding close_all
  close m disk =
      if m.closed
      then (ok tt, m, disk)
      else let (r, disk') = close_all m.cache (ok tt) disk in
        (r, record m { closed = true; cache = []; index = none }, disk')

  abbrev pub len : Manager → ℕ
  len m = length m.cache
