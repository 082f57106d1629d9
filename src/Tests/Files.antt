-- ===== src/Tests/Files.antt =====
-- Linea-core's stores in memory: a handle is its directory, the disk counts the closings.
use linea_server.Prelude.{ℕ, ◌+◌, String}
use linea_server.Result.{ok}
use linea_server.Tenants.{Stores}

instance abbrev pub files : Stores
files = record {
  Disk = ℕ;
  Handle = String;
  open_store = λ path closings. (ok path, closings);
  close_store = λ h closings. (ok tt, closings + 1);
  remove_all = λ path closings. (ok tt, closings);
}
