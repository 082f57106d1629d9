-- ===== src/Tests/Ratelimit.antt =====
-- The token bucket: three requests of one key at once, with a burst of two.
use Prim.Native.Nat.{min}
use linea_server.Prelude.{ℕ, ◌≤◌, ◌≡◌, refl, inr, String, List, [], ◌∷◌, arith}
use linea_server.Ratelimit.{Bucket, new_bucket, find, allow, granted}
use linea_server.Ratelimit.Requests.{At}
use linea_server.Ratelimit.Burst.{granted_burst}
use linea_server.Ratelimit.Full.{IsWhole, IsFull, asked, granted_full}
use linea_server.Tests.Floats.{integers, integers-IsIeee}

abbrev small : Bucket
small = new_bucket (record {
  capacity = integers.of_nat 2;
  refill_per_second = integers.of_nat 1;
  idle_timeout = 0;
})

abbrev burst : List (String × ℕ)
burst = ("a", 12) ∷ ("b", 11) ∷ ("a", 12) ∷ ("a", 12) ∷ []

burst-granted : granted "a" burst small ≡ 2
unfolding granted allow new_bucket
burst-granted = refl

burst-At : At 12 "a" burst
burst-At = (λ e. refl, (λ e. absurd (cc (e)), (λ e. refl, (λ e. refl, tt))))

-- Most of its tokens are spent, when the key comes back.
abbrev spent : Bucket
spent = (allow "a" 5 (allow "a" 4 small).0).0

granted_burst_example : granted "a" burst spent ≤ 2
unfolding allow new_bucket
granted_burst_example =
    granted_burst integers-IsIeee "a" 12 2 burst spent refl (omega arith) burst-At

-- A minute later it is full again.
abbrev later : List (String × ℕ)
later = ("a", 60_000_000_000) ∷ ("a", 60_000_000_000) ∷ ("a", 60_000_000_000) ∷ []

later-At : At 60_000_000_000 "a" later
later-At = (λ e. refl, (λ e. refl, (λ e. refl, tt)))

spent-IsWhole : IsWhole 2 1 spent
unfolding allow new_bucket
spent-IsWhole = record {
  capacity = refl;
  refill_per_second = refl;
  small = omega arith;
  small_rate = omega arith;
}

spent-IsFull : IsFull "a" 60_000_000_000 spent
unfolding allow new_bucket find
spent-IsFull = inr (_, refl, refl)

granted_full_example : granted "a" later spent ≡ min (asked "a" later) 2
granted_full_example =
    granted_full integers-IsIeee "a" 60_000_000_000 2 1 later spent spent-IsWhole spent-IsFull
      later-At
