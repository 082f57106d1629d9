-- ===== src/Tests/Memory.antt =====
-- A Badger database in memory: its pairs, newest first, with no key twice.
use linea_server.Prelude.{
  ◌≡◌, ◌≢◌, refl, inl, inr, String, str_eq, eq_iff, eq_of_str_eq, true, false, Option, none, some,
  List, [], ◌∷◌, ap, ◌∙◌, Elem, All, IsDistinct, has_prefix, arith, Bool-cases, if◌then◌else◌,
}
use linea_server.Result.{ok-inj, Result, ok}
use linea_server.Platform.Badger.{Badger, Blob, Write, set, delete, after}

abbrev pub Pairs : Type 0
Pairs = List (String × Blob)

abbrev pub lookup : String → Pairs → Option Blob
lookup k [] = none
lookup k ((j, v) ∷ l) = if str_eq j k then some v else lookup k l

abbrev pub drop_key : String → Pairs → Pairs
drop_key k [] = []
drop_key k ((j, v) ∷ l) = let rest = drop_key k l in if str_eq j k then rest else (j, v) ∷ rest

abbrev pub apply : List Write → Pairs → Pairs
apply [] l = l
apply (set k v ∷ ws) l = apply ws ((k, v) ∷ drop_key k l)
apply (delete k ∷ ws) l = apply ws (drop_key k l)

-- The pairs as an iterator visits them: an older pair of the same key does not count.
abbrev pub visit : String → Pairs → Pairs
visit p [] = []
visit p ((k, v) ∷ l) =
    let rest = drop_key k (visit p l) in if has_prefix p k then (k, v) ∷ rest else rest

lookup-drop_key :
    (k j : String) (l : Pairs) → lookup j (drop_key k l) ≡ (if str_eq k j then none else lookup j l)
lookup-drop_key k j [] = ground arith
lookup-drop_key k j ((i, v) ∷ l) =
    ground (arith, lookup-drop_key k j l, eq_iff i k, eq_iff i j, eq_iff k j)

lookup-apply :
    (ws : List Write) (k : String) (l : Pairs)
    → ◌≡◌ {A = Result (Option Blob)} (ok (lookup k (apply ws l))) (after ws k (ok (lookup k l)))
lookup-apply [] k l = refl
lookup-apply (set j v ∷ ws) k l =
    lookup-apply ws k ((j, v) ∷ drop_key j l)
    ∙ ap (after ws k) (ground (arith, lookup-drop_key j k l))
lookup-apply (delete j ∷ ws) k l =
    lookup-apply ws k (drop_key j l) ∙ ap (after ws k) (ground (arith, lookup-drop_key j k l))

drop_key-Elem_cons :
    (k j : String) (v : Blob) (i : String) (w : Blob) (l : Pairs)
    → str_eq i k ≡ false
    → Elem (j, v) ((i, w) ∷ drop_key k l)
    → (Elem (j, v) (drop_key k l) → (j ≢ k) × Elem (j, v) l)
    → (j ≢ k) × Elem (j, v) ((i, w) ∷ l)
drop_key-Elem_cons k j v i w l other (inl e) ih =
    let ej : j ≡ i = ap (λ (x : String × Blob). x.0) e in (ground (arith, eq_iff i k, ej), inl e)
drop_key-Elem_cons k j v i w l other (inr m) ih = let (a, b) = ih m in (a, inr b)

drop_key-Elem :
    (k j : String) (v : Blob) (l : Pairs) → Elem (j, v) (drop_key k l) → (j ≢ k) × Elem (j, v) l
drop_key-Elem k j v [] m = absurd m
drop_key-Elem k j v ((i, w) ∷ l) m = elim (Bool-cases (str_eq i k)) [
  | inl same ↦ let (a, b) = drop_key-Elem k j v l (rw same at m) in (a, inr b)
  | inr other ↦ drop_key-Elem_cons k j v i w l other (rw other at m) (drop_key-Elem k j v l)
]

Elem-drop_key :
    (k j : String) (v : Blob) (l : Pairs) → j ≢ k → Elem (j, v) l → Elem (j, v) (drop_key k l)
Elem-drop_key k j v [] h m = m
Elem-drop_key k j v ((i, w) ∷ l) h m = elim (Bool-cases (str_eq i k)) [
  | inl same ↦ rw same (elim m [
    | inl e ↦ absurd (h (ap (λ (x : String × Blob). x.0) e ∙ eq_of_str_eq i k same))
    | inr m' ↦ Elem-drop_key k j v l h m'
  ])
  | inr other ↦ rw other (elim m [ inl e ↦ inl e | inr m' ↦ inr (Elem-drop_key k j v l h m') ])
]

visit_sound_later :
    (p k : String) (v : Blob) (i : String) (w : Blob) (l : Pairs)
    → (Elem (k, v) (visit p l) → (has_prefix p k ≡ true) × (lookup k l ≡ some v))
    → Elem (k, v) (drop_key i (visit p l))
    → (has_prefix p k ≡ true) × (lookup k ((i, w) ∷ l) ≡ some v)
visit_sound_later p k v i w l ih m =
    let (ne, m') = drop_key-Elem i k v (visit p l) m in
    let (a, b) = ih m' in (a, ground (arith, eq_iff i k))

visit_sound_now :
    (p k : String) (v : Blob) (i : String) (w : Blob) (l : Pairs)
    → has_prefix p i ≡ true
    → (Elem (k, v) (visit p l) → (has_prefix p k ≡ true) × (lookup k l ≡ some v))
    → Elem (k, v) ((i, w) ∷ drop_key i (visit p l))
    → (has_prefix p k ≡ true) × (lookup k ((i, w) ∷ l) ≡ some v)
visit_sound_now p k v i w l here ih (inl e) =
    let ek : k ≡ i = ap (λ (x : String × Blob). x.0) e in
    let ev : v ≡ w = ap (λ (x : String × Blob). x.1) e in
    (rw ek here, ground (arith, eq_iff i k, ek, ev))
visit_sound_now p k v i w l here ih (inr m) = visit_sound_later p k v i w l ih m

visit_sound :
    (p k : String) (v : Blob) (l : Pairs)
    → Elem (k, v) (visit p l)
    → (has_prefix p k ≡ true) × (lookup k l ≡ some v)
visit_sound p k v [] m = absurd m
visit_sound p k v ((i, w) ∷ l) m = elim (Bool-cases (has_prefix p i)) [
  | inr other ↦ visit_sound_later p k v i w l (visit_sound p k v l) (rw other at m)
  | inl here ↦ visit_sound_now p k v i w l here (visit_sound p k v l) (rw here at m)
]

visit_complete :
    (p k : String) (v : Blob) (l : Pairs)
    → has_prefix p k ≡ true
    → lookup k l ≡ some v
    → Elem (k, v) (visit p l)
visit_complete p k v [] h e = cc
visit_complete p k v ((i, w) ∷ l) h e = elim (Bool-cases (str_eq i k)) [
  | inl same ↦ let ek = eq_of_str_eq i k same in rw (prefix_of ek) (inl (first ek))
  | inr other ↦
      let m =
        Elem-drop_key i k v (visit p l) (ground (arith, eq_iff i k))
          (visit_complete p k v l h (ground arith)) in
      elim (Bool-cases (has_prefix p i)) [ inl a ↦ rw a (inr m) | inr a ↦ rw a m ]
]
  where
    prefix_of : i ≡ k → has_prefix p i ≡ true
    prefix_of ek = rw ek h

    first : i ≡ k → ◌≡◌ {A = String × Blob} (k, v) (i, w)
    first ek = ground (arith, eq_iff i k)

drop_key-All :
    (P : String × Blob → Type 0) (k : String) (l : Pairs) → All P l → All P (drop_key k l)
drop_key-All P k [] h = tt
drop_key-All P k ((i, w) ∷ l) h = elim (Bool-cases (str_eq i k)) [
  | inl same ↦ rw same (drop_key-All P k l h.1)
  | inr other ↦ rw other (h.0, drop_key-All P k l h.1)
]

drop_key-absent : (k : String) (l : Pairs) → All (λ e. e.0 ≢ k) (drop_key k l)
drop_key-absent k [] = tt
drop_key-absent k ((i, w) ∷ l) = elim (Bool-cases (str_eq i k)) [
  | inl same ↦ rw same (drop_key-absent k l)
  | inr other ↦ rw other (ground (arith, eq_iff i k), drop_key-absent k l)
]

drop_key-IsDistinct : (k : String) (l : Pairs) → IsDistinct l → IsDistinct (drop_key k l)
drop_key-IsDistinct k [] h = tt
drop_key-IsDistinct k ((i, w) ∷ l) h = elim (Bool-cases (str_eq i k)) [
  | inl same ↦ rw same (drop_key-IsDistinct k l h.1)
  | inr other ↦ rw other (drop_key-All _ k l h.0, drop_key-IsDistinct k l h.1)
]

visit-IsDistinct : (p : String) (l : Pairs) → IsDistinct (visit p l)
visit-IsDistinct p [] = tt
visit-IsDistinct p ((i, w) ∷ l) =
    let rest = drop_key-IsDistinct i (visit p l) (visit-IsDistinct p l) in
    elim (Bool-cases (has_prefix p i)) [
      | inl a ↦ rw a (drop_key-absent i (visit p l), rest)
      | inr a ↦ rw a rest
    ]

pub memory-get_commit :
    (ws : List Write) (l : Pairs) {l' : Pairs} (k : String)
    → ok (apply ws l) ≡ ok l'
    → ◌≡◌ {A = Result (Option Blob)} (ok (lookup k l')) (after ws k (ok (lookup k l)))
memory-get_commit ws l k h = rw (← ok-inj h) (lookup-apply ws k l)

pub memory-scan_sound :
    (l : Pairs) (p : String) {kvs : Pairs} (k : String) (v : Blob)
    → ok (visit p l) ≡ ok kvs
    → Elem (k, v) kvs
    → (has_prefix p k ≡ true) × (◌≡◌ {A = Result (Option Blob)} (ok (lookup k l)) (ok (some v)))
memory-scan_sound l p k v h m = let (a, b) = visit_sound p k v l (rw (ok-inj h) m) in (a, ap ok b)

pub memory-scan_complete :
    (l : Pairs) (p : String) {kvs : Pairs} (k : String) (v : Blob)
    → ok (visit p l) ≡ ok kvs
    → has_prefix p k ≡ true
    → ◌≡◌ {A = Result (Option Blob)} (ok (lookup k l)) (ok (some v))
    → Elem (k, v) kvs
memory-scan_complete l p k v h a e = rw (← ok-inj h) (visit_complete p k v l a (ok-inj e))

pub memory-scan-IsDistinct :
    (l : Pairs) (p : String) {kvs : Pairs} → ok (visit p l) ≡ ok kvs → IsDistinct kvs
memory-scan-IsDistinct l p h = rw (← ok-inj h) (visit-IsDistinct p l)

instance abbrev pub memory : Badger
memory = record {
  Db = Pairs;
  get = λ l k. ok (lookup k l);
  scan = λ l p. ok (visit p l);
  commit = λ ws l. ok (apply ws l);
  get_commit = memory-get_commit;
  scan_sound = memory-scan_sound;
  scan_complete = memory-scan_complete;
  scan_distinct = memory-scan-IsDistinct;
}
