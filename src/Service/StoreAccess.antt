-- ===== src/Service/StoreAccess.antt =====
-- How the handlers of internal/service reach a store of Linea-core: a step that only fails, one that
-- reads the disk or changes it, and the opening of a snapshot, which a handler closes at its end.
use linea_server.Result.{Result}
use linea_server.Result.Exec.{Exec}
use linea_server.Platform.Badger.{Badger}
use linea_server.Tenants.{Stores, Handle, Disk}
use linea_server.Service.{State}
use linea_server.Service.Core.{Core}

module _ ⦃B : Badger⦄ ⦃S : Stores⦄ where
  abbrev pub lift : {A : Type 0} → Result A → Exec State A
  lift r s = (r, s)

  abbrev pub on_disk : {A : Type 0} → (Disk → Result A × Disk) → Exec State A
  on_disk f s = let (r, disk) = f s.disk in (r, record s { disk = disk })

  abbrev pub open_view : ⦃C : Core⦄ → Handle → Exec State C.Snapshot
  open_view ⦃C⦄ st s = (C.view st s.disk, s)
