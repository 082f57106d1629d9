-- ===== src/Tenants/Termination.antt =====
-- The loop of evictLocked in internal/tenants/manager.go ends: the rounds that the model gives it are
-- enough, and the list then fits.
use linea_server.Prelude.{
  ℕ, zero, suc, ◌≤◌, ◌≡◌, refl, sym, ap, ◌∙◌, inl, inr, true, false, some, List, [], ◌∷◌, ◌++◌,
  append-nil, append_assoc, length, ltb, arith, Bool-cases,
}
use linea_server.Tenants.{
  Stores, Disk, Entry, Manager, split_back, evict_tail, evict_rounds, evict_locked,
}
use linea_server.Tenants.Eviction.{evict_done}

module _ ⦃S : Stores⦄ where
  -- One round takes the last entry.
  record IsFront (cache front : List Entry) (e : Entry) : Type 0 where
    pub whole : cache ≡ front ++ e ∷ []
    pub shorter : length cache ≡ suc (length front)

  split_back-IsFront :
      (x : Entry) (es : List Entry)
      → (front : List Entry) × (e : Entry) × (split_back (x ∷ es) ≡ some (front, e))
        × IsFront (x ∷ es) front e
  unfolding split_back
  split_back-IsFront x [] = ([], x, refl, record { whole = refl; shorter = refl })
  split_back-IsFront x (y ∷ es) =
      let (front, e, p, f) = split_back-IsFront y es in
      (
        x ∷ front,
        e,
        rw p refl,
        record { whole = ap (λ l. x ∷ l) f.whole; shorter = ap suc f.shorter },
      )

  fits : (max : ℕ) → ltb max 0 ≡ false
  fits max = ground arith

  evict_empty :
      (n : ℕ) (m : Manager) (disk : Disk) → m.cache ≡ [] → evict_rounds n m disk ≡ (m, disk)
  evict_empty n m disk h = evict_done n m disk (rw h (fits m.cfg.max_open))

  tail_cache :
      (front : List Entry) (e : Entry) (m : Manager) (disk : Disk)
      → (evict_tail (some (front, e)) m disk).0.cache ≡ front
  unfolding evict_tail
  tail_cache front e m disk = refl

  -- What a round that takes the last entry goes on with.
  evict_round :
      (n : ℕ) (m : Manager) (disk : Disk) {front : List Entry} {e : Entry}
      → ltb m.cfg.max_open (length m.cache) ≡ true
      → split_back m.cache ≡ some (front, e)
      → evict_rounds (suc n) m disk
        ≡ evict_rounds n
            (evict_tail (some (front, e)) m disk).0
            (evict_tail (some (front, e)) m disk).1
  unfolding evict_rounds
  evict_round n m disk over p = rw (over, evict_rounds, p) refl

  -- The rounds beyond the length of the list change nothing.
  evict_rounds_enough :
      (n k : ℕ) (m : Manager) (disk : Disk) (cache : List Entry)
      → m.cache ≡ cache
      → length cache ≤ n
      → length cache ≤ k
      → evict_rounds n m disk ≡ evict_rounds k m disk
  evict_rounds_enough n k m disk [] same h j =
      evict_empty n m disk same ∙ sym (evict_empty k m disk same)
  evict_rounds_enough zero k m disk (x ∷ es) same h j = absurd (omega arith)
  evict_rounds_enough (suc n) zero m disk (x ∷ es) same h j = absurd (omega arith)
  evict_rounds_enough (suc n) (suc k) m disk (x ∷ es) same h j =
      let (front, e, p, f) = split_back-IsFront x es in
      let m' = (evict_tail (some (front, e)) m disk).0 in
      let disk' = (evict_tail (some (front, e)) m disk).1 in
      let q : split_back m.cache ≡ some (front, e) = ap split_back same ∙ p in
      elim (Bool-cases (ltb m.cfg.max_open (length m.cache))) [
        | inr done ↦ evict_done (suc n) m disk done ∙ sym (evict_done (suc k) m disk done)
        | inl over ↦
            evict_round n m disk over q
            ∙ evict_rounds_enough n k m' disk' front (tail_cache front e m disk)
                (omega (arith, f.shorter, h)) (omega (arith, f.shorter, j))
            ∙ sym (evict_round k m disk over q)
      ]

  -- What the rounds leave is the front of the list, and fits.
  record IsTrimmed (max : ℕ) (before left : List Entry) : Type 0 where
    pub closed : List Entry
    pub split : before ≡ left ++ closed
    pub bounded : length left ≤ max

  trim :
      (n : ℕ) (m : Manager) (disk : Disk) (cache : List Entry)
      → m.cache ≡ cache
      → length cache ≤ n
      → IsTrimmed m.cfg.max_open cache (evict_rounds n m disk).0.cache
  unfolding evict_tail
  trim n m disk [] same h =
      rw (evict_empty n m disk same, same)
        (record { closed = []; split = refl; bounded = omega arith })
  trim zero m disk (x ∷ es) same h = absurd (omega arith)
  trim (suc n) m disk (x ∷ es) same h = elim (Bool-cases (ltb m.cfg.max_open (length m.cache))) [
    | inr done ↦ rw (evict_done (suc n) m disk done) (record {
      closed = [];
      split = sym (append-nil (x ∷ es)) ∙ ap (λ l. l ++ []) (sym same);
      bounded = ground arith;
    })
    | inl over ↦
        let (front, e, p, f) = split_back-IsFront x es in
        let m' = (evict_tail (some (front, e)) m disk).0 in
        let disk' = (evict_tail (some (front, e)) m disk).1 in
        let t = trim n m' disk' front refl (omega (arith, f.shorter, h)) in
        rw (evict_round n m disk over (ap split_back same ∙ p)) (record {
          closed = t.closed ++ e ∷ [];
          split = f.whole ∙ ap (λ l. l ++ e ∷ []) t.split ∙ append_assoc _ t.closed (e ∷ []);
          bounded = t.bounded;
        })
  ]

  -- The loop of evictLocked ends within as many rounds as there are cached stores: any number of
  -- rounds that is at least this gives the same, at most the configured number of stores is left,
  -- and these are the front of the list.
  pub evict_locked_terminates :
      (n : ℕ) (m : Manager) (disk : Disk)
      → length m.cache ≤ n
      → (evict_rounds n m disk ≡ evict_locked m disk)
        × (length (evict_locked m disk).0.cache ≤ m.cfg.max_open)
        × ((closed : List Entry) × (m.cache ≡ (evict_locked m disk).0.cache ++ closed))
  unfolding evict_locked
  evict_locked_terminates n m disk h =
      let t = trim (length m.cache) m disk m.cache refl (omega arith) in
      (
        evict_rounds_enough n (length m.cache) m disk m.cache refl h (omega arith),
        t.bounded,
        (t.closed, t.split),
      )
