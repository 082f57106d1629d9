-- ===== src/Service/Version.antt =====
-- internal/service/server.go: the version service, which needs no genealogy.
use linea_server.Prelude.{ℕ, String}

pub record VersionResponse : Type 0 where
  pub spec_version : String
  pub server_version : String
  pub graph_version : ℕ
  pub tenant_id : String

unfoldable pub version : String → VersionResponse
version server_version = record {
  spec_version = "v1.1.0";
  server_version = server_version;
  graph_version = 0;
  tenant_id = "";
}
