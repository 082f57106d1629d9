-- ===== src/Service/EntityMappers/Int32.antt =====
-- Go's conversion `int32(x)` of an `int`: the low 32 bits, read as a signed number.
use Prim.Native.Nat.{◌^◌}
use linea_server.Prelude.{ℕ, ◌-◌, ◌%◌, ◌≤◌, ◌<◌, ◌≡◌, ltb, arith, if◌then◌else◌}
use linea_server.Prelude.Int.{ℤ, pos, negsuc, pos_part, neg_part}

-- The low 32 bits of the two's complement.
unfoldable pub low_bits : ℤ → ℕ
low_bits (pos n) = n % 2 ^ 32
low_bits (negsuc n) = 2 ^ 32 - 1 - n % 2 ^ 32

unfoldable pub sign_extend : ℕ → ℤ
sign_extend r = if ltb r (2 ^ 31) then pos r else negsuc (2 ^ 32 - 1 - r)

unfoldable pub int32 : ℤ → ℤ
unfolding low_bits sign_extend
int32 x = sign_extend (low_bits x)

-- What fits 32 bits is not changed.
pub int32_lem : (x : ℤ) → pos_part x < 2 ^ 31 → neg_part x ≤ 2 ^ 31 → int32 x ≡ x
unfolding int32
int32_lem (pos n) h k = ground arith
int32_lem (negsuc n) h k = ground arith
