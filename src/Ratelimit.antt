-- ===== src/Ratelimit.antt =====
-- internal/ratelimit/ratelimit.go: the token bucket. Times are nanoseconds; tokens are `float64`,
-- whose operations are an argument. A call whose clock was read before that of an earlier call
-- refills by a negative amount, as in the source.
pub mod Requests
pub mod Burst
pub mod Full
use linea_server.Prelude.{
  ℕ, ◌+◌, String, str_eq, Bool, true, false, Option, none, some, List, [], ◌∷◌, ltb, ◌==◌,
  if◌then◌else◌,
}
use linea_server.Prelude.Int.{sub_ℕ}
use linea_server.Prelude.Float64.{Float64}

module _ ⦃F : Float64⦄ where
  pub record Entry : Type 0 where
    pub tokens : F.Value
    pub updated : ℕ

  pub record Config : Type 0 where
    pub capacity : F.Value
    pub refill_per_second : F.Value
    pub idle_timeout : ℕ

  pub record Bucket : Type 0 where
    pub capacity : F.Value
    pub refill_per_second : F.Value
    pub idle_timeout : ℕ
    pub buckets : List (String × Entry)

  -- `if cfg.IdleTimeout <= 0`: ten minutes.
  unfoldable pub new_bucket : Config → Bucket
  new_bucket cfg = record {
    capacity = cfg.capacity;
    refill_per_second = cfg.refill_per_second;
    idle_timeout = if cfg.idle_timeout == 0 then 600_000_000_000 else cfg.idle_timeout;
    buckets = [];
  }

  unfoldable pub find : String → List (String × Entry) → Option Entry
  find k [] = none
  find k ((j, e) ∷ l) = if str_eq j k then some e else find k l

  unfoldable pub store : String → Entry → List (String × Entry) → List (String × Entry)
  store k e [] = (k, e) ∷ []
  store k e ((j, x) ∷ l) = if str_eq j k then (j, e) ∷ l else (j, x) ∷ store k e l

  -- `if e.tokens > b.capacity`
  abbrev pub cap_at : F.Value → F.Value → F.Value
  cap_at capacity t = if F.less capacity t then capacity else t

  -- `e.tokens + dt * b.refillPerSecond`
  abbrev pub refilled : F.Value → ℕ → Entry → F.Value
  refilled rate now e = F.add e.tokens (F.mul (F.seconds (sub_ℕ now e.updated)) rate)

  -- The entry that Allow tests: a new one is full, an old one is refilled and capped.
  unfoldable pub refill : F.Value → F.Value → ℕ → Option Entry → Entry
  refill capacity rate now none = record { tokens = capacity; updated = now }
  refill capacity rate now (some e) = record {
    tokens = cap_at capacity (refilled rate now e);
    updated = now;
  }

  -- `if e.tokens >= 1 { e.tokens--; return true }`
  unfoldable pub take_token : Entry → Entry × Bool
  take_token e =
      if F.at_most (F.of_nat 1) e.tokens
      then (record e { tokens = F.sub e.tokens (F.of_nat 1) }, true)
      else (e, false)

  unfoldable pub allow : String → ℕ → Bucket → Bucket × Bool
  unfolding find store refill take_token
  allow key now b =
      let (e, granted) =
        take_token (refill b.capacity b.refill_per_second now (find key b.buckets)) in
      (record b { buckets = store key e b.buckets }, granted)

  -- `now.Sub(e.updated) > b.idleTimeout`
  abbrev is_idle : ℕ → ℕ → Entry → Bool
  is_idle idle now e = ltb (e.updated + idle) now

  drop_idle : ℕ → ℕ → List (String × Entry) → List (String × Entry)
  drop_idle idle now [] = []
  drop_idle idle now ((k, e) ∷ l) =
      let rest = drop_idle idle now l in if is_idle idle now e then rest else (k, e) ∷ rest

  -- One tick of the sweeper.
  unfoldable pub sweep : ℕ → Bucket → Bucket
  unfolding drop_idle
  sweep now b = record b { buckets = drop_idle b.idle_timeout now b.buckets }

  -- The requests of one server, each a key and the clock's reading, in the order of the mutex; the
  -- number of those for `key` that were let through.
  unfoldable pub granted : String → List (String × ℕ) → Bucket → ℕ
  granted key [] b = 0
  granted key ((k, now) ∷ calls) b =
      let (b', yes_no) = allow k now b in
      let rest = granted key calls b' in
      if str_eq k key then (if yes_no then 1 + rest else rest) else rest

-- AlwaysAllow
always_allow : String → Bool
always_allow key = true
