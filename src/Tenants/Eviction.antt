-- ===== src/Tenants/Eviction.antt =====
-- installLocked and evictLocked of internal/tenants/manager.go keep the list bounded and the index
-- in step with it, and never close the store that was just opened.
use linea_server.Prelude.{
  ℕ, zero, suc, ◌≤◌, ◌≡◌, refl, ap, ◌∙◌, inl, inr, String, eq_iff, true, false, Option, none, some,
  List, ◌∷◌, length, ltb, arith, Bool-cases,
}
use linea_server.Tenants.{
  Stores, Disk, Entry, Manager, find, remove, split_back, evict_tail, evict_rounds, evict_locked,
}
use linea_server.Tenants.Entries.{
  IsDistinct, find-remove, IsBack, split_back-IsBack, split_back-keeps_head,
}

-- The list is bounded and without repetition, and the index maps each id to its element.
pub record IsIndexed ⦃S : Stores⦄ (m : Manager) : Type 0 where
  pub room : 1 ≤ m.cfg.max_open
  pub bounded : length m.cache ≤ m.cfg.max_open
  pub distinct : IsDistinct m.cache
  pub idx : List Entry
  pub index : m.index ≡ some idx
  pub agree : (k : String) → find k idx ≡ find k m.cache

-- What an operation on the list leaves alone.
pub record SameRest ⦃S : Stores⦄ (m m' : Manager) : Type 0 where
  pub cfg : m'.cfg ≡ m.cfg
  pub loading : m'.loading ≡ m.loading
  pub closed : m'.closed ≡ m.closed

module _ ⦃S : Stores⦄ where
  pub evict_done :
      (n : ℕ) (m : Manager) (disk : Disk)
      → ltb m.cfg.max_open (length m.cache) ≡ false
      → evict_rounds n m disk ≡ (m, disk)
  unfolding evict_rounds
  evict_done zero m disk h = refl
  evict_done (suc n) m disk h = rw (h, evict_rounds)

  evict_tail-cfg :
      (o : Option (List Entry × Entry)) (m : Manager) (disk : Disk)
      → (evict_tail o m disk).0.cfg ≡ m.cfg
  unfolding evict_tail
  evict_tail-cfg none m disk = refl
  evict_tail-cfg (some r) m disk = refl

  evict_rounds-cfg : (n : ℕ) (m : Manager) (disk : Disk) → (evict_rounds n m disk).0.cfg ≡ m.cfg
  unfolding evict_rounds
  evict_rounds-cfg zero m disk = refl
  evict_rounds-cfg (suc n) m disk = elim (Bool-cases (ltb m.cfg.max_open (length m.cache))) [
    | inr fits ↦ rw (fits, evict_rounds) refl
    | inl over ↦
        let (m', disk') = evict_tail (split_back m.cache) m disk in
        rw (over, evict_rounds)
          (evict_rounds-cfg n m' disk' ∙ evict_tail-cfg (split_back m.cache) m disk)
  ]

  pub evict_locked-cfg : (m : Manager) (disk : Disk) → (evict_locked m disk).0.cfg ≡ m.cfg
  unfolding evict_locked
  evict_locked-cfg m disk = evict_rounds-cfg (length m.cache) m disk

  evict_rounds_one :
      (n : ℕ) (m : Manager) (disk : Disk) {front : List Entry} {e : Entry}
      → ltb m.cfg.max_open (length m.cache) ≡ true
      → split_back m.cache ≡ some (front, e)
      → ltb m.cfg.max_open (length front) ≡ false
      → evict_rounds (suc n) m disk ≡ evict_tail (some (front, e)) m disk
  unfolding evict_rounds
  evict_rounds_one n m disk {front} {e} over p done =
      let (m', disk') = evict_tail (some (front, e)) m disk in
      rw (over, evict_rounds, p) (evict_done n m' disk' done)

  -- One round is enough when one entry is too many.
  evict_one_round :
      (m : Manager) (disk : Disk) {n : ℕ} {front : List Entry} {e : Entry}
      → length m.cache ≡ suc n
      → ltb m.cfg.max_open (length m.cache) ≡ true
      → split_back m.cache ≡ some (front, e)
      → ltb m.cfg.max_open (length front) ≡ false
      → evict_locked m disk ≡ evict_tail (some (front, e)) m disk
  unfolding evict_locked
  evict_one_round m disk {n} q over p done =
      ap (λ k. evict_rounds k m disk) q ∙ evict_rounds_one n m disk over p done

module _ ⦃S : Stores⦄ (x : Entry) (es idx : List Entry) (m : Manager) (disk : Disk) where
  -- The manager with `x` put in front, before the eviction.
  abbrev pub pushed : Manager
  pushed = record m { cache = x ∷ es; index = some idx }

  pub record Evicted (m' : Manager) : Type 0 where
    pub indexed : IsIndexed m'
    pub rest : SameRest m m'
    pub newest : find x.id m'.cache ≡ some x
    pub kept : (k : String) (e : Entry) → find k m'.cache ≡ some e → find k (x ∷ es) ≡ some e

  -- The manager after the eviction of the last entry.
  abbrev shrunk : List Entry → Entry → Manager
  shrunk front e = record m { cache = front; index = some (remove e.id idx) }

  shrunk-Evicted :
      1 ≤ m.cfg.max_open
      → IsDistinct (x ∷ es)
      → ((k : String) → find k idx ≡ find k (x ∷ es))
      → length es ≡ m.cfg.max_open
      → (front : List Entry) (e : Entry) → split_back (x ∷ es) ≡ some (front, e)
      → IsBack (x ∷ es) front e
      → Evicted (shrunk front e)
  shrunk-Evicted room d agree full front e p b = record {
    indexed = record {
      room = room;
      bounded = omega (arith, b.len);
      distinct = b.distinct;
      idx = remove e.id idx;
      index = refl;
      agree = λ k. ground (arith, find-remove e.id k idx, b.others k, agree k);
    };
    rest = record { cfg = refl; loading = refl; closed = refl };
    newest = split_back-keeps_head x es front e d b p (omega arith);
    kept = λ k f h. ground (arith, b.others k);
  }

  evict_full :
      1 ≤ m.cfg.max_open
      → IsDistinct (x ∷ es)
      → ((k : String) → find k idx ≡ find k (x ∷ es))
      → length es ≡ m.cfg.max_open
      → Evicted (evict_locked pushed disk).0
  unfolding evict_tail
  evict_full room d agree full =
      let (front, e, p, b) = split_back-IsBack x es d in
      rw (evict_one_round pushed disk refl (ground arith) p (ground (arith, b.len)))
        (shrunk-Evicted room d agree full front e p b)

  evict_room :
      1 ≤ m.cfg.max_open
      → IsDistinct (x ∷ es)
      → ((k : String) → find k idx ≡ find k (x ∷ es))
      → suc (length es) ≤ m.cfg.max_open
      → Evicted (evict_locked pushed disk).0
  unfolding evict_locked
  evict_room room d agree fits =
      rw (evict_done (length (x ∷ es)) pushed disk (ground arith)) (record {
        indexed = record {
          room = room;
          bounded = fits;
          distinct = d;
          idx = idx;
          index = refl;
          agree = agree;
        };
        rest = record { cfg = refl; loading = refl; closed = refl };
        newest = unfold find in ground (arith, eq_iff x.id x.id);
        kept = λ k f h. h;
      })

  pub evict-Evicted :
      1 ≤ m.cfg.max_open
      → IsDistinct (x ∷ es)
      → ((k : String) → find k idx ≡ find k (x ∷ es))
      → length es ≤ m.cfg.max_open
      → Evicted (evict_locked pushed disk).0
  evict-Evicted room d agree fits = elim (Bool-cases (ltb (length es) m.cfg.max_open)) [
    | inl less ↦ evict_room room d agree (ground arith)
    | inr full ↦ evict_full room d agree (ground arith)
  ]
