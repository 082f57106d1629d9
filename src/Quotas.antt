-- ===== src/Quotas.antt =====
-- internal/quotas/quotas.go: the limits, and the checks against the platform counters.
pub mod Bounds
pub mod Untouched
use linea_server.Prelude.{ℕ, leb, ◌==◌, String, if◌then◌else◌}
use linea_server.Result.{Result, ok, err, quota_exceeded, bind_result}
use linea_server.Platform.Types.{pos, negsuc}
use linea_server.Platform.Badger.{Badger, Db}
use linea_server.Platform.Counters.{
  get_user_private_gen_count, get_person_count, inc_user_private_gen_count, inc_person_count,
}

pub record Limits : Type 0 where
  pub max_private_genealogies_per_user : ℕ
  pub max_persons_per_genealogy : ℕ

-- Default
abbrev pub default_limits : Limits
default_limits = record { max_private_genealogies_per_user = 5; max_persons_per_genealogy = 1000 }

-- `cur >= max`
check_room : ℕ → ℕ → Result (Unit {0})
check_room max cur = if leb max cur then err quota_exceeded else ok tt

module _ ⦃B : Badger⦄ where
  unfoldable pub check_create_private_genealogy : Limits → String → Db → Result (Unit {0})
  unfolding check_room
  check_create_private_genealogy limits sub db =
      if limits.max_private_genealogies_per_user == 0
      then ok tt
      else bind_result (get_user_private_gen_count sub db)
          (check_room limits.max_private_genealogies_per_user)

  unfoldable pub check_create_person : Limits → String → Db → Result (Unit {0})
  unfolding check_room
  check_create_person limits gid db =
      if limits.max_persons_per_genealogy == 0
      then ok tt
      else bind_result (get_person_count gid db) (check_room limits.max_persons_per_genealogy)

  unfoldable pub inc_private_genealogy : String → Db → Result Db
  inc_private_genealogy sub db =
      bind_result (inc_user_private_gen_count sub (pos 1) db) (λ r. ok r.1)

  -- `negsuc 0` is -1.
  unfoldable pub dec_private_genealogy : String → Db → Result Db
  dec_private_genealogy sub db =
      bind_result (inc_user_private_gen_count sub (negsuc 0) db) (λ r. ok r.1)

  unfoldable pub inc_person : String → Db → Result Db
  inc_person gid db = bind_result (inc_person_count gid (pos 1) db) (λ r. ok r.1)
