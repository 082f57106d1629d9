-- ===== src/Tests/Quotas.antt =====
-- The quotas on a database with no counter yet.
use linea_server.Prelude.{◌+◌, ◌%◌, ◌≤◌, ◌≡◌, refl, str_eq, [], ◌∷◌, arith, if◌then◌else◌}
use linea_server.Result.{ok}
use linea_server.Prelude.Int.{◌+ℤ◌, pos_part}
use linea_server.Platform.Types.{pos}
use linea_server.Platform.Badger.{bytes}
use linea_server.Platform.Keys.{person_count_key, user_private_gen_count_key}
use linea_server.Platform.Counters.{
  u64_mod, put_uint64, read_counter, inc_counter, get_person_count, inc_person_count,
  get_user_private_gen_count, inc_user_private_gen_count,
}
use linea_server.Platform.Counters.Laws.{read-inc_counter}
use linea_server.Quotas.{
  default_limits, check_create_person, check_create_private_genealogy, inc_person,
  inc_private_genealogy,
}
use linea_server.Quotas.Bounds.{person_quota, private_quota}
use linea_server.Tests.Memory.{memory, Pairs}

abbrev one_person : Pairs
one_person = (person_count_key "g1", bytes (put_uint64 1)) ∷ []

abbrev one_private : Pairs
one_private = (user_private_gen_count_key "ann", bytes (put_uint64 1)) ∷ []

no_person : get_person_count "g1" [] ≡ ok 0
unfolding get_person_count
no_person = refl

may_create : check_create_person default_limits "g1" [] ≡ ok tt
unfolding check_create_person get_person_count
may_create = refl

counted : inc_person "g1" [] ≡ ok one_person
unfolding inc_person inc_person_count inc_counter
counted = refl

person_quota_example : (get_person_count "g1" one_person ≡ ok (1 + 0)) × (1 + 0 ≤ 1000)
person_quota_example =
    person_quota default_limits "g1" [] 0 (λ e. omega arith) (omega arith) no_person may_create
      counted

no_private : get_user_private_gen_count "ann" [] ≡ ok 0
unfolding get_user_private_gen_count
no_private = refl

may_create_private : check_create_private_genealogy default_limits "ann" [] ≡ ok tt
unfolding check_create_private_genealogy get_user_private_gen_count
may_create_private = refl

counted_private : inc_private_genealogy "ann" [] ≡ ok one_private
unfolding inc_private_genealogy inc_user_private_gen_count inc_counter
counted_private = refl

private_quota_example : (get_user_private_gen_count "ann" one_private ≡ ok (1 + 0)) × (1 + 0 ≤ 5)
private_quota_example =
    private_quota default_limits "ann" [] 0 (λ e. omega arith) (omega arith) no_private
      may_create_private counted_private

read_nothing : read_counter "c" [] ≡ ok 0
unfolding read_counter
read_nothing = refl

written : inc_counter "c" (pos 2) [] ≡ ok (2, ("c", bytes (put_uint64 2)) ∷ [])
unfolding inc_counter
written = refl

read-inc_counter_example :
    (2 ≡ pos_part (pos 0 +ℤ pos 2) % u64_mod)
    × (read_counter "c" (("c", bytes (put_uint64 2)) ∷ [])
        ≡ (if str_eq "c" "c" then ok 2 else read_counter "c" []))
read-inc_counter_example = read-inc_counter "c" (pos 2) [] "c" 0 read_nothing (omega arith) written
