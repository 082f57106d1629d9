-- ===== src/Ratelimit/Burst.antt =====
-- What one key gets at one reading of the clock, whatever other keys do in between.
use linea_server.Prelude.{
  ℕ, zero, suc, ◌+◌, ◌≤◌, ◌≡◌, refl, sym, subst, ◌∙◌, inl, inr, String, str_eq, Bool, true, false,
  Option, none, some, List, [], ◌∷◌, arith, Bool-cases,
}
use linea_server.Prelude.Float64.{Float64, IsIeee, exact_limit}
use linea_server.Ratelimit.{
  Entry, Bucket, find, cap_at, refilled, refill, take_token, allow, granted,
}
use linea_server.Ratelimit.Requests.{
  plus, At, taken, find-allow_ne, find-allow, granted_cons, granted_cons_ne, refilled_still,
  taken_updated,
}

plus_le : {a m n : ℕ} (g : Bool) → a ≤ m → plus g m ≤ n → plus g a ≤ n
plus_le true le h = omega arith
plus_le false le h = omega arith

module _ ⦃F : Float64⦄ (law : IsIeee) where
  -- No more than the whole number.
  abbrev Within : ℕ → F.Value → Type 0
  Within n t = F.less (F.of_nat n) t ≡ false

  cap_at-Within : (n : ℕ) (capacity t : F.Value) → Within n t → Within n (cap_at capacity t)
  cap_at-Within n capacity t h = elim (Bool-cases (F.less capacity t)) [
    | inr fits ↦ rw fits h
    | inl over ↦ elim (Bool-cases (F.less (F.of_nat n) capacity)) [
      | inr low ↦ rw (over, low) refl
      | inl high ↦ absurd (cc (law.less_trans (F.of_nat n) capacity t high over, h))
    ]
  ]

  cap_at_capacity : (c : ℕ) (t : F.Value) → Within c (cap_at (F.of_nat c) t)
  cap_at_capacity c t = elim (Bool-cases (F.less (F.of_nat c) t)) [
    | inr fits ↦ rw (fits, fits) refl
    | inl over ↦ rw (over, law.less_irrefl (F.of_nat c)) refl
  ]

  -- What is left, and the token that was taken, fit what was there.
  take_token-Within :
      (n : ℕ) (e : Entry)
      → n ≤ exact_limit
      → Within n e.tokens
      → (m : ℕ) × (m ≤ n) × Within m (take_token e).0.tokens × (plus (take_token e).1 m ≤ n)
  unfolding take_token
  take_token-Within n e small h = elim (Bool-cases (F.at_most (F.of_nat 1) e.tokens)) [
    | inr short ↦ rw short (n, omega arith, h, omega arith)
    | inl enough ↦ rw enough (go n enough small h)
  ]
    where
      go :
          (n : ℕ)
          → F.at_most (F.of_nat 1) e.tokens ≡ true
          → n ≤ exact_limit
          → Within n e.tokens
          → (m : ℕ) × (m ≤ n) × Within m (F.sub e.tokens (F.of_nat 1)) × (1 + m ≤ n)
      go zero enough small h = absurd (cc (enough, law.at_most_none e.tokens h))
      go (suc m) enough small h = (m, omega arith, law.sub_one m e.tokens small h, omega arith)

  taken_known-Within :
      (b : Bucket) (now n : ℕ) (e : Entry)
      → e.updated ≡ now
      → n ≤ exact_limit
      → Within n e.tokens
      → (m : ℕ) × (m ≤ n)
        × Within m (taken b now (some e)).0.tokens
        × (plus (taken b now (some e)).1 m ≤ n)
  unfolding refill
  taken_known-Within b now n e at_now small h =
      take_token-Within n (refill b.capacity b.refill_per_second now (some e)) small (
        cap_at-Within n b.capacity (refilled b.refill_per_second now e) (
          subst (Within n) (sym (refilled_still b.refill_per_second now e at_now))
            (law.add_nothing (F.of_nat n) e.tokens b.refill_per_second h)))

  granted_known :
      (key : String) (now n : ℕ) (calls : List (String × ℕ)) (b : Bucket) (e : Entry)
      → find key b.buckets ≡ some e
      → e.updated ≡ now
      → n ≤ exact_limit
      → Within n e.tokens
      → At now key calls
      → granted key calls b ≤ n
  granted_known key now n [] b e f at_now small h at = unfold granted in omega arith
  granted_known key now n ((k, time) ∷ calls) b e f at_now small h at =
      elim (Bool-cases (str_eq k key)) [
        | inr other ↦ rw (granted_cons_ne key k time calls b other) (
            granted_known key now n calls (allow k time b).0 e
              (find-allow_ne k key time b other ∙ f) at_now small h at.1)
        | inl same ↦
            let (m, le, kept, sum) =
              taken_known-Within b time n e (at_now ∙ sym (at.0 same)) small h in
            let rest =
              granted_known key now m calls (allow k time b).0 (taken b time (some e)).0
                (find-allow key k time b same f) (taken_updated b time (some e) ∙ at.0 same)
                (omega arith) kept at.1 in
            rw (granted_cons key k time calls b same f) (plus_le (taken b time (some e)).1 rest sum)
      ]

  taken_first-Within :
      (b : Bucket) (now c : ℕ) (o : Option Entry)
      → b.capacity ≡ F.of_nat c
      → c ≤ exact_limit
      → (m : ℕ) × (m ≤ c) × Within m (taken b now o).0.tokens × (plus (taken b now o).1 m ≤ c)
  unfolding refill
  taken_first-Within b now c none cap small =
      take_token-Within c (refill b.capacity b.refill_per_second now none) small
        (rw cap (law.less_irrefl (F.of_nat c)))
  taken_first-Within b now c (some e) cap small =
      take_token-Within c (refill b.capacity b.refill_per_second now (some e)) small
        (rw cap (cap_at_capacity c (refilled b.refill_per_second now e)))

  -- Of the requests of one key that read the clock at one time, interleaved with any requests of
  -- other keys, whatever the limiter holds before them, no more are granted than its capacity, a
  -- whole number up to 2^53, with `float64` as IEEE 754 has it.
  pub granted_burst :
      (key : String) (now c : ℕ) (calls : List (String × ℕ)) (b : Bucket)
      → b.capacity ≡ F.of_nat c
      → c ≤ exact_limit
      → At now key calls
      → granted key calls b ≤ c
  granted_burst key now c [] b cap small at = unfold granted in omega arith
  granted_burst key now c ((k, time) ∷ calls) b cap small at = elim (Bool-cases (str_eq k key)) [
    | inr other ↦
        rw (granted_cons_ne key k time calls b other)
          (granted_burst key now c calls (allow k time b).0 (unfold allow in cap) small at.1)
    | inl same ↦
        let o = find key b.buckets in
        let (m, le, kept, sum) = taken_first-Within b time c o cap small in
        let rest =
          granted_known key now m calls (allow k time b).0 (taken b time o).0
            (find-allow key k time b same refl) (taken_updated b time o ∙ at.0 same) (omega arith)
            kept at.1 in
        rw (granted_cons key k time calls b same refl) (plus_le (taken b time o).1 rest sum)
  ]
