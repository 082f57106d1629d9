-- ===== src/Ratelimit/Requests.antt =====
-- How the limiter answers the requests of one key, one after the other.
use linea_server.Prelude.{
  ℕ, ◌+◌, ◌≡◌, refl, ap, ◌∙◌, eq_of_str_eq, String, str_eq, eq_iff, Bool, true, false, Option, none,
  some, List, [], ◌∷◌, All, arith, if◌then◌else◌,
}
use linea_server.Prelude.Int.{pos, sub_ℕ}
use linea_server.Prelude.Float64.{Float64}
use linea_server.Ratelimit.{
  Entry, Bucket, find, store, refilled, refill, take_token, allow, granted,
}

abbrev pub plus : Bool → ℕ → ℕ
plus granted n = if granted then 1 + n else n

-- The key's requests all read the clock at the one time.
abbrev pub At : ℕ → String → List (String × ℕ) → Type 0
At now key = All (λ c. str_eq c.0 key ≡ true → c.1 ≡ now)

sub_ℕ_self : (n : ℕ) → sub_ℕ n n ≡ pos 0
sub_ℕ_self n = ground arith

module _ ⦃F : Float64⦄ where
  find-store :
      (k j : String) (e : Entry) (l : List (String × Entry))
      → find j (store k e l) ≡ (if str_eq k j then some e else find j l)
  unfolding find store
  find-store k j e [] = ground arith
  find-store k j e ((i, x) ∷ l) =
      ground (arith, find-store k j e l, eq_iff i k, eq_iff i j, eq_iff k j)

  -- A call for another key leaves the entry alone.
  pub find-allow_ne :
      (k key : String) (now : ℕ) (b : Bucket)
      → str_eq k key ≡ false
      → find key (allow k now b).0.buckets ≡ find key b.buckets
  unfolding allow
  find-allow_ne k key now b ne =
      let e = (take_token (refill b.capacity b.refill_per_second now (find k b.buckets))).0 in
      ground (arith, find-store k key e b.buckets)

  abbrev pub taken : Bucket → ℕ → Option Entry → Entry × Bool
  taken b now o = take_token (refill b.capacity b.refill_per_second now o)

  pub find-allow :
      (key k : String) (now : ℕ) (b : Bucket) {o : Option Entry}
      → str_eq k key ≡ true
      → find key b.buckets ≡ o
      → find key (allow k now b).0.buckets ≡ some (taken b now o).0
  unfolding allow
  find-allow key k now b {o} same f =
      let at_k : find k b.buckets ≡ o = rw (eq_of_str_eq k key same) f in
      rw (at_k, find-store k key (taken b now o).0 b.buckets, same) refl

  allow_answer :
      (key k : String) (now : ℕ) (b : Bucket) {o : Option Entry}
      → str_eq k key ≡ true
      → find key b.buckets ≡ o
      → (allow k now b).1 ≡ (taken b now o).1
  unfolding allow
  allow_answer key k now b {o} same f =
      let at_k : find k b.buckets ≡ o = rw (eq_of_str_eq k key same) f in rw at_k refl

  -- A request of the key is answered by what its entry holds.
  pub granted_cons :
      (key k : String) (now : ℕ) (calls : List (String × ℕ)) (b : Bucket) {o : Option Entry}
      → str_eq k key ≡ true
      → find key b.buckets ≡ o
      → granted key ((k, now) ∷ calls) b
        ≡ plus (taken b now o).1 (granted key calls (allow k now b).0)
  unfolding granted
  granted_cons key k now calls b {o} same f = rw (same, allow_answer key k now b same f) refl

  pub granted_cons_ne :
      (key k : String) (now : ℕ) (calls : List (String × ℕ)) (b : Bucket)
      → str_eq k key ≡ false
      → granted key ((k, now) ∷ calls) b ≡ granted key calls (allow k now b).0
  unfolding granted
  granted_cons_ne key k now calls b other = rw other refl

  -- No time has passed since the last request.
  pub refilled_still :
      (rate : F.Value) (now : ℕ) (e : Entry)
      → e.updated ≡ now
      → refilled rate now e ≡ F.add e.tokens (F.mul (F.seconds (pos 0)) rate)
  refilled_still rate now e at_now =
      ap (λ z. F.add e.tokens (F.mul (F.seconds z) rate)) (ap (sub_ℕ now) at_now ∙ sub_ℕ_self now)

  pub taken_updated : (b : Bucket) (now : ℕ) (o : Option Entry) → (taken b now o).0.updated ≡ now
  unfolding take_token refill
  taken_updated b now none = ground arith
  taken_updated b now (some e) = ground arith
