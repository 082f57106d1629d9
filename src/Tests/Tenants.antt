-- ===== src/Tests/Tenants.antt =====
-- The manager of the stores, with one place: two stores are opened at the same time.
use linea_server.Prelude.{
  ℕ, ◌≡◌, ◌≤◌, refl, ◌⊎◌, false, some, none, List, [], ◌∷◌, ◌++◌, length, arith,
}
use linea_server.Result.{ok, err, panic}
use linea_server.Tenants.{
  Config, Entry, Manager, evict_rounds, evict_locked, new_manager, member, find, len, get_begin,
  get_finish, close,
}
use linea_server.Tenants.Single.{System, Reach, here, next, begin, NoRepeat}
use linea_server.Tenants.Termination.{evict_locked_terminates}
use linea_server.Tenants.Reachable.{fresh, single_open, finish_caches, close_then_finish_panics}
use linea_server.Tests.Files.{files}

abbrev cfg : Config
cfg = record { root = "data"; max_open = 1 }

abbrev pub m0 : Manager
m0 = record { cfg = cfg; cache = []; index = some []; loading = []; closed = false }

m0-new : new_manager cfg ≡ ok m0
unfolding new_manager
m0-new = refl

abbrev both : System
both = record { m = record m0 { loading = "b" ∷ "a" ∷ [] }; disk = 0; opening = "b" ∷ "a" ∷ [] }

Reach-both : Reach (fresh m0 0) both
unfolding get_begin
Reach-both = next (next here (begin "a")) (begin "b")

single_open_example :
    NoRepeat both.opening
    × ((member "a" both.opening ≡ false) ⊎ (find "a" both.m.cache ≡ none))
    × (len both.m ≤ cfg.max_open)
single_open_example = single_open cfg 0 "a" m0-new Reach-both

finish_caches_example :
    (m' : Manager) × (disk' : ℕ) × (get_finish "a" (ok "data/a") both.m 0 ≡ (ok m', disk'))
    × (find "a" m'.cache ≡ some (record { id = "a"; store = "data/a" }))
    × (member "a" m'.loading ≡ false)
finish_caches_example = finish_caches cfg 0 "a" "data/a" 0 m0-new Reach-both refl refl

close_then_finish_panics_example :
    get_finish "a" (ok "data/a") (close both.m 0).1 7
    ≡ (err (panic "assignment to entry in nil map"), 7)
close_then_finish_panics_example = close_then_finish_panics both.m "a" "data/a" 0 7 refl

-- Three stores where there is room for one.
abbrev crowded : Manager
crowded = record m0 {
  cache =
      record { id = "c"; store = "data/c" }
      ∷ record { id = "b"; store = "data/b" }
      ∷ record { id = "a"; store = "data/a" }
      ∷ [];
}

evict_locked_terminates_example :
    (evict_rounds 7 crowded 0 ≡ evict_locked crowded 0)
    × (length (evict_locked crowded 0).0.cache ≤ 1)
    × ((closed : List Entry) × (crowded.cache ≡ (evict_locked crowded 0).0.cache ++ closed))
evict_locked_terminates_example = evict_locked_terminates 7 crowded 0 (omega arith)
