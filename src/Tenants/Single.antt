-- ===== src/Tenants/Single.antt =====
-- Goroutines that use one manager of internal/tenants/manager.go, as steps between its critical
-- sections: no genealogy is ever opened twice in parallel, or while its store is cached, and the
-- cache never holds more stores than allowed.
pub mod Opening
pub mod Finish
use linea_server.Prelude.{
  ℕ, suc, ◌≤◌, ◌≡◌, ◌≢◌, refl, ap, ◌∙◌, sym, ◌⊎◌, inl, inr, String, str_eq, eq_iff, eq_of_str_eq,
  Bool, true, false, Option, none, some, List, [], ◌∷◌, All, length, arith, Bool-cases,
  Option-cases, if◌then◌else◌,
}
use linea_server.Result.{Result, ok, err, Error, plain, panic, shutdown}
use linea_server.Tenants.{
  Stores, Handle, Disk, Entry, Manager, Begin, failed, hit, wait, start, member, unload, find,
  find_index, remove, delete_index, evict_locked, move_to_front, install_locked, get_begin,
  get_finish, drop, close,
}
use linea_server.Tenants.Entries.{
  IsDistinct, find-remove, find_id, remove-IsDistinct, length-remove, length-remove-le,
}
use linea_server.Tenants.Eviction.{IsIndexed, SameRest, Evicted, evict-Evicted}

-- The manager, the disk, and the ids that goroutines are opening outside the mutex.
pub record System ⦃S : Stores⦄ : Type 0 where
  pub m : Manager
  pub disk : Disk
  pub opening : List String

-- One goroutine that opens `id` is done.
abbrev pub take_one : String → List String → List String
take_one id [] = []
take_one id (x ∷ xs) = if str_eq x id then xs else x ∷ take_one id xs

module _ ⦃S : Stores⦄ where
  abbrev pub opened : Begin → String → List String → List String
  opened start id opening = id ∷ opening
  opened _ id opening = opening

  -- A critical section runs as a whole. What an opening gives, and does to the disk, is open.
  pub data Step (s : System) : System → Type 0 where
    begin :
        (id : String)
        → Step s (record s {
          m = (get_begin id s.m).1;
          opening = opened (get_begin id s.m).0 id s.opening;
        })
    finish :
        (id : String) (st : Result Handle) (disk : Disk) (m' : Manager) (disk' : Disk)
        → member id s.opening ≡ true
        → get_finish id st s.m disk ≡ (ok m', disk')
        → Step s (record { m = m'; disk = disk'; opening = take_one id s.opening })
    drop_one :
        (id : String)
        → Step s (record s { m = (drop id s.m s.disk).1; disk = (drop id s.m s.disk).2 })
    close_all : Step s (record s { m = (close s.m s.disk).1; disk = (close s.m s.disk).2 })

  pub data Reach (s : System) : System → Type 0 where
    here : Reach s s
    next : {t u : System} → Reach s t → Step t u → Reach s u

  abbrev pub NoRepeat : List String → Type 0
  NoRepeat [] = Unit {0}
  NoRepeat (x ∷ xs) = (member x xs ≡ false) × NoRepeat xs

  pub record IsSound (s : System) : Type 0 where
    pub indexed : s.m.closed ≡ false → IsIndexed s.m
    pub emptied : s.m.closed ≡ true → (s.m.cache ≡ []) × (s.m.index ≡ none)
    pub loading : s.opening ≡ s.m.loading
    pub single : NoRepeat s.opening
    pub apart : (id : String) → member id s.opening ≡ true → find id s.m.cache ≡ none

pub member-unload :
    (id k : String) (xs : List String)
    → member k (unload id xs) ≡ (if str_eq id k then false else member k xs)
member-unload id k [] = ground arith
member-unload id k (x ∷ xs) =
    ground (arith, member-unload id k xs, eq_iff x id, eq_iff x k, eq_iff id k)
