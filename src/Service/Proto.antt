-- ===== src/Service/Proto.antt =====
-- The messages of proto/linea/v1/genealogies.proto that the handlers take and give. An enum is
-- open: `unknown` is a number that the schema does not name. A time stamp is its seconds.
use linea_server.Prelude.{ℕ, String, Option}
use linea_server.Platform.Types.{ℤ}

pub data PbVisibility : Type 0 where
  unspecified private unlisted public : PbVisibility
  unknown : ℕ → PbVisibility

pub data PbRole : Type 0 where
  unspecified none viewer contributor curator owner : PbRole
  unknown : ℕ → PbRole

pub record PbGenealogy : Type 0 where
  pub id : String
  pub name : String
  pub visibility : PbVisibility
  pub created_by : String
  pub created_at : Option ℤ
  pub my_role : PbRole

pub record PbMembership : Type 0 where
  pub subject : String
  pub genealogy_id : String
  pub role : PbRole
  pub granted_by : String
  pub granted_at : Option ℤ

pub record PbBan : Type 0 where
  pub subject : String
  pub genealogy_id : String
  pub reason : String
  pub by : String
  pub at : Option ℤ

pub record CreateGenealogyRequest : Type 0 where
  pub name : String
  pub visibility : PbVisibility

pub record UpdateVisibilityRequest : Type 0 where
  pub id : String
  pub visibility : PbVisibility

pub record UpsertMembershipRequest : Type 0 where
  pub genealogy_id : String
  pub subject : String
  pub role : PbRole

pub record BanUserRequest : Type 0 where
  pub genealogy_id : String
  pub subject : String
  pub reason : String
