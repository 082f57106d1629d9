-- ===== src/Prelude/Float64.antt =====
-- What the limiter does with a `float64`, and the laws of IEEE 754 that its guarantees rest on.
use Prim.Native.Nat.{ℕ, suc, ◌≤◌, ◌^◌}
use mathlib.Core.Path.{◌≡◌}
use mathlib.Core.Bool.{Bool, true, false}
use linea_server.Prelude.Int.{ℤ, pos}

abbrev pub exact_limit : ℕ
exact_limit = 2 ^ 53

-- The operations, which the processor computes: `of_nat` is the value of an integer
-- constant, and `seconds` what `Duration.Seconds` gives for nanoseconds.
pub record Float64 : Type 1 where
  pub Value : Type 0
  pub of_nat : ℕ → Value
  pub seconds : ℤ → Value
  pub add : Value → Value → Value
  pub sub : Value → Value → Value
  pub mul : Value → Value → Value
  pub less : Value → Value → Bool
  pub at_most : Value → Value → Bool

-- A law holds of every value, an infinity or a NaN too, but for the bound that it states: each
-- whole number up to 2^53 is a value of its own.
pub record IsIeee ⦃F : Float64⦄ : Type 0 where
  -- A strict order.
  pub less_irrefl : (x : F.Value) → F.less x x ≡ false
  pub less_trans : (x y z : F.Value) → F.less x y ≡ true → F.less y z ≡ true → F.less x z ≡ true
  pub at_most_none :
      (x : F.Value) → F.less (F.of_nat 0) x ≡ false → F.at_most (F.of_nat 1) x ≡ false
  pub at_most_some :
      (m : ℕ) → suc m ≤ exact_limit → F.at_most (F.of_nat 1) (F.of_nat (suc m)) ≡ true
  -- No time makes nothing more, at whatever rate, and leaves a whole number at a whole rate.
  pub add_nothing :
      (c x r : F.Value)
      → F.less c x ≡ false
      → F.less c (F.add x (F.mul (F.seconds (pos 0)) r)) ≡ false
  pub add_zero :
      (m k : ℕ)
      → k ≤ exact_limit
      → F.add (F.of_nat m) (F.mul (F.seconds (pos 0)) (F.of_nat k)) ≡ F.of_nat m
  -- Rounding keeps the order, and whole numbers are exact.
  pub sub_one :
      (m : ℕ) (x : F.Value)
      → suc m ≤ exact_limit
      → F.less (F.of_nat (suc m)) x ≡ false
      → F.less (F.of_nat m) (F.sub x (F.of_nat 1)) ≡ false
  pub sub_exact : (m : ℕ) → suc m ≤ exact_limit → F.sub (F.of_nat (suc m)) (F.of_nat 1) ≡ F.of_nat m
  pub less_exact : (m n : ℕ) → m ≤ n → F.less (F.of_nat n) (F.of_nat m) ≡ false
