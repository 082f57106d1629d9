-- ===== src/Tenants/Entries.antt =====
-- The list and the index of internal/tenants/manager.go as finite maps from ids to entries.
use linea_server.Prelude.{
  suc, ◌≤◌, ◌≡◌, refl, ap, inl, inr, String, str_eq, eq_iff, eq_of_str_eq, none, some, List, [],
  ◌∷◌, length, arith, Bool-cases, if◌then◌else◌,
}
use linea_server.Tenants.{Stores, Entry, find, remove, split_back}

module _ ⦃S : Stores⦄ where
  -- No two entries have the same id.
  abbrev pub IsDistinct : List Entry → Type 0
  IsDistinct [] = Unit {0}
  IsDistinct (e ∷ es) = (find e.id es ≡ none) × IsDistinct es

  pub find-remove :
      (id k : String) (es : List Entry)
      → find k (remove id es) ≡ (if str_eq id k then none else find k es)
  unfolding find remove
  find-remove id k [] = ground arith
  find-remove id k (e ∷ es) =
      ground (arith, find-remove id k es, eq_iff e.id id, eq_iff e.id k, eq_iff id k)

  pub find_id : (id : String) (es : List Entry) (e : Entry) → find id es ≡ some e → e.id ≡ id
  unfolding find
  find_id id [] e h = cc
  find_id id (x ∷ es) e h = ground (arith, eq_iff x.id id, find_id id es e)

  pub remove-IsDistinct :
      (id : String) (es : List Entry) → IsDistinct es → IsDistinct (remove id es)
  unfolding remove
  remove-IsDistinct id [] d = tt
  remove-IsDistinct id (e ∷ es) d = elim (Bool-cases (str_eq e.id id)) [
    | inl same ↦ rw same (remove-IsDistinct id es d.1)
    | inr other ↦ rw other (ground (arith, find-remove id e.id es), remove-IsDistinct id es d.1)
  ]

  remove_absent : (id : String) (es : List Entry) → find id es ≡ none → remove id es ≡ es
  unfolding find remove
  remove_absent id [] h = refl
  remove_absent id (e ∷ es) h = ground (arith, remove_absent id es)

  pub length-remove :
      (id : String) (es : List Entry) (e : Entry)
      → IsDistinct es
      → find id es ≡ some e
      → suc (length (remove id es)) ≡ length es
  unfolding find remove
  length-remove id [] e d h = cc
  length-remove id (x ∷ es) e d h = elim (Bool-cases (str_eq x.id id)) [
    | inl same ↦
        let p = eq_of_str_eq x.id id same in rw (same, remove_absent id es (rw (← p) d.0)) refl
    | inr other ↦ ground (arith, length-remove id es e d.1)
  ]

  pub length-remove-le : (id : String) (es : List Entry) → length (remove id es) ≤ length es
  unfolding remove
  length-remove-le id [] = omega arith
  length-remove-le id (e ∷ es) = ground (arith, length-remove-le id es)

  -- The last entry, taken off.
  pub record IsBack (es front : List Entry) (e : Entry) : Type 0 where
    pub len : suc (length front) ≡ length es
    pub others : (k : String) → find k front ≡ (if str_eq e.id k then none else find k es)
    pub there : find e.id es ≡ some e
    pub distinct : IsDistinct front

  pub split_back-IsBack :
      (x : Entry) (es : List Entry)
      → IsDistinct (x ∷ es)
      → (front : List Entry) × (e : Entry) × (split_back (x ∷ es) ≡ some (front, e))
        × IsBack (x ∷ es) front e
  unfolding split_back find
  split_back-IsBack x [] d = (
    [],
    x,
    refl,
    record {
      len = refl;
      others = λ k. ground arith;
      there = ground (arith, eq_iff x.id x.id);
      distinct = tt;
    },
  )
  split_back-IsBack x (y ∷ es) d =
      let (front, e, p, b) = split_back-IsBack y es d.1 in
      (
        x ∷ front,
        e,
        rw p refl,
        record {
          len = ap suc b.len;
          others = λ k.
              ground
                (arith, b.others k, b.there, d.0, eq_iff e.id x.id, eq_iff x.id k, eq_iff e.id k);
          there = ground (arith, b.there, d.0, eq_iff x.id e.id);
          distinct = (ground (arith, b.others x.id, d.0), b.distinct);
        },
      )

  -- The last of two entries or more is not the first.
  pub split_back-keeps_head :
      (x : Entry) (es front : List Entry) (e : Entry)
      → IsDistinct (x ∷ es)
      → IsBack (x ∷ es) front e
      → split_back (x ∷ es) ≡ some (front, e)
      → 1 ≤ length es
      → find x.id front ≡ some x
  unfolding split_back find
  split_back-keeps_head x [] front e d b p h = absurd (omega arith)
  split_back-keeps_head x (y ∷ es) front e d b p h =
      let (front', e', p', b') = split_back-IsBack y es d.1 in ground (arith, eq_iff x.id x.id)
