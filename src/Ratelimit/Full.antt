-- ===== src/Ratelimit/Full.antt =====
-- That the limiter gives a key its whole burst.
use Prim.Native.Nat.{min}
use linea_server.Prelude.{
  ℕ, zero, suc, ◌+◌, ◌≤◌, ◌≡◌, refl, ap, sym, subst, ◌∙◌, ◌⊎◌, inl, inr, String, str_eq, Bool, true,
  false, none, some, List, [], ◌∷◌, arith, Bool-cases, if◌then◌else◌,
}
use linea_server.Prelude.Int.{pos}
use linea_server.Prelude.Float64.{Float64, IsIeee, exact_limit}
use linea_server.Ratelimit.{
  Entry, Bucket, find, cap_at, refilled, refill, take_token, allow, granted,
}
use linea_server.Ratelimit.Requests.{
  plus, At, find-allow_ne, find-allow, granted_cons, granted_cons_ne, refilled_still, taken_updated,
}

-- How many of the requests are the key's.
unfoldable pub asked : String → List (String × ℕ) → ℕ
asked key [] = 0
asked key ((k, now) ∷ calls) = let rest = asked key calls in if str_eq k key then 1 + rest else rest

asked_ne :
    (key k : String) (time : ℕ) (calls : List (String × ℕ))
    → str_eq k key ≡ false
    → asked key ((k, time) ∷ calls) ≡ asked key calls
unfolding asked
asked_ne key k time calls other = rw other refl

asked_same :
    (key k : String) (time : ℕ) (calls : List (String × ℕ))
    → str_eq k key ≡ true
    → asked key ((k, time) ∷ calls) ≡ 1 + asked key calls
unfolding asked
asked_same key k time calls same = rw same refl

plus-min : (a m : ℕ) → plus true (min a m) ≡ min (1 + a) (suc m)
plus-min a m = omega arith

module _ ⦃F : Float64⦄ where
  -- The bucket of the key is full at the time: it is new, or is refilled beyond the capacity.
  abbrev pub IsFull : String → ℕ → Bucket → Type 0
  IsFull key now b =
      (find key b.buckets ≡ none)
      ⊎ ((e : Entry) × (find key b.buckets ≡ some e)
          × (F.less b.capacity (refilled b.refill_per_second now e) ≡ true))

  -- Whole capacity and rate.
  pub record IsWhole (c rate : ℕ) (b : Bucket) : Type 0 where
    pub capacity : b.capacity ≡ F.of_nat c
    pub refill_per_second : b.refill_per_second ≡ F.of_nat rate
    pub small : c ≤ exact_limit
    pub small_rate : rate ≤ exact_limit

  allow-IsWhole :
      (k : String) (time c rate : ℕ) (b : Bucket)
      → IsWhole c rate b
      → IsWhole c rate (allow k time b).0
  unfolding allow
  allow-IsWhole k time c rate b w = record {
    capacity = w.capacity;
    refill_per_second = w.refill_per_second;
    small = w.small;
    small_rate = w.small_rate;
  }

  allow-IsFull :
      (key k : String) (now time : ℕ) (b : Bucket)
      → str_eq k key ≡ false
      → IsFull key now b
      → IsFull key now (allow k time b).0
  unfolding allow
  allow-IsFull key k now time b other (inl new) = inl (find-allow_ne k key time b other ∙ new)
  allow-IsFull key k now time b other (inr (e, f, over)) =
      inr (e, find-allow_ne k key time b other ∙ f, over)

  -- The entry that Allow tests, of a full bucket.
  full_tokens :
      (key : String) (now : ℕ) (b : Bucket)
      → IsFull key now b
      → (refill b.capacity b.refill_per_second now (find key b.buckets)).tokens ≡ b.capacity
  unfolding refill
  full_tokens key now b (inl new) = rw new refl
  full_tokens key now b (inr (e, f, over)) = rw (f, over) refl

module _ ⦃F : Float64⦄ (law : IsIeee) where
  take_none : (e : Entry) → e.tokens ≡ F.of_nat 0 → take_token e ≡ (e, false)
  unfolding take_token
  take_none e h = rw (law.at_most_none e.tokens (rw h (law.less_irrefl (F.of_nat 0)))) refl

  take_some :
      (m : ℕ) (e : Entry)
      → suc m ≤ exact_limit
      → e.tokens ≡ F.of_nat (suc m)
      → ((take_token e).0.tokens ≡ F.of_nat m) × ((take_token e).1 ≡ true)
  unfolding take_token
  take_some m e small h =
      let enough : F.at_most (F.of_nat 1) e.tokens ≡ true =
        subst (λ t. F.at_most (F.of_nat 1) t ≡ true) (sym h) (law.at_most_some m small) in
      rw enough (ap (λ t. F.sub t (F.of_nat 1)) h ∙ law.sub_exact m small, refl)

  -- The tokens that a later request at the same time finds.
  still_tokens :
      (c rate now n : ℕ) (b : Bucket) (e : Entry)
      → IsWhole c rate b
      → n ≤ c
      → e.updated ≡ now
      → e.tokens ≡ F.of_nat n
      → (refill b.capacity b.refill_per_second now (some e)).tokens ≡ F.of_nat n
  unfolding refill
  still_tokens c rate now n b e w le at_now h =
      let same : refilled b.refill_per_second now e ≡ F.of_nat n =
        refilled_still b.refill_per_second now e at_now
        ∙ ap (λ t. F.add t (F.mul (F.seconds (pos 0)) b.refill_per_second)) h
        ∙ ap (λ r. F.add (F.of_nat n) (F.mul (F.seconds (pos 0)) r)) w.refill_per_second
        ∙ law.add_zero n rate w.small_rate in
      let fits : F.less b.capacity (F.of_nat n) ≡ false =
        subst (λ t. F.less t (F.of_nat n) ≡ false) (sym w.capacity) (law.less_exact n c le) in
      ap (cap_at b.capacity) same ∙ rw fits refl

  -- One request of the key, before requests that get what the tokens left allow.
  take_step :
      (n a x : ℕ) (e : Entry)
      → n ≤ exact_limit
      → e.tokens ≡ F.of_nat n
      → ((m : ℕ) → m ≤ n → (take_token e).0.tokens ≡ F.of_nat m → x ≡ min a m)
      → plus (take_token e).1 x ≡ min (1 + a) n
  take_step zero a x e small h behind =
      let empty = take_none e h in
      let rest = behind 0 (omega arith) (ap (λ (r : Entry × Bool). r.0.tokens) empty ∙ h) in
      ap (λ (r : Entry × Bool). plus r.1 x) empty ∙ omega (arith, rest)
  take_step (suc m) a x e small h behind =
      let (left, paid) = take_some m e small h in
      let rest = behind m (omega arith) left in
      ap (λ g. plus g x) paid ∙ ap (plus true) rest ∙ plus-min a m

  granted_whole :
      (key : String) (now c rate n : ℕ) (calls : List (String × ℕ)) (b : Bucket) (e : Entry)
      → IsWhole c rate b
      → n ≤ c
      → find key b.buckets ≡ some e
      → e.updated ≡ now
      → e.tokens ≡ F.of_nat n
      → At now key calls
      → granted key calls b ≡ min (asked key calls) n
  granted_whole key now c rate n [] b e w le f at_now h at = unfold granted asked in omega arith
  granted_whole key now c rate n ((k, time) ∷ calls) b e w le f at_now h at =
      elim (Bool-cases (str_eq k key)) [
        | inr other ↦
            granted_cons_ne key k time calls b other
            ∙ granted_whole key now c rate n calls (allow k time b).0 e
                (allow-IsWhole k time c rate b w) le (find-allow_ne k key time b other ∙ f) at_now h
                at.1
            ∙ sym (ap (λ a. min a n) (asked_ne key k time calls other))
        | inl same ↦
            let tested = refill b.capacity b.refill_per_second time (some e) in
            granted_cons key k time calls b same f
            ∙ take_step n (asked key calls) (granted key calls (allow k time b).0) tested
                (omega (arith, w.small))
                (still_tokens c rate time n b e w le (at_now ∙ sym (at.0 same)) h)
                (λ m low left.
                  granted_whole key now c rate m calls (allow k time b).0 (take_token tested).0
                    (allow-IsWhole k time c rate b w) (omega arith) (find-allow key k time b same f)
                    (taken_updated b time (some e) ∙ at.0 same) left at.1)
            ∙ sym (ap (λ a. min a n) (asked_same key k time calls same))
      ]

  -- Of the requests of one key that read the clock at one time, interleaved with any requests of
  -- other keys, exactly as many are granted as are asked, or as the capacity if that is less, when
  -- the key is new at that time or its refill exceeds the capacity, which with the rate is a whole
  -- number up to 2^53, with `float64` as IEEE 754 has it.
  pub granted_full :
      (key : String) (now c rate : ℕ) (calls : List (String × ℕ)) (b : Bucket)
      → IsWhole c rate b
      → IsFull key now b
      → At now key calls
      → granted key calls b ≡ min (asked key calls) c
  granted_full key now c rate [] b w full at = unfold granted asked in omega arith
  granted_full key now c rate ((k, time) ∷ calls) b w full at = elim (Bool-cases (str_eq k key)) [
    | inr other ↦
        granted_cons_ne key k time calls b other
        ∙ granted_full key now c rate calls (allow k time b).0 (allow-IsWhole k time c rate b w)
            (allow-IsFull key k now time b other full) at.1
        ∙ sym (ap (λ a. min a c) (asked_ne key k time calls other))
    | inl same ↦
        let o = find key b.buckets in
        let tested = refill b.capacity b.refill_per_second time o in
        granted_cons key k time calls b same refl
        ∙ take_step c (asked key calls) (granted key calls (allow k time b).0) tested w.small
            (full_tokens key time b (subst (λ t. IsFull key t b) (sym (at.0 same)) full)
              ∙ w.capacity)
            (λ m low left.
              granted_whole key now c rate m calls (allow k time b).0 (take_token tested).0
                (allow-IsWhole k time c rate b w) low (find-allow key k time b same refl)
                (taken_updated b time o ∙ at.0 same) left at.1)
        ∙ sym (ap (λ a. min a c) (asked_same key k time calls same))
  ]
