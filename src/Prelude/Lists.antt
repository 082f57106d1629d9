-- ===== src/Prelude/Lists.antt =====
-- Lists measured by native numbers, membership that keeps its place, and distinctness.
use Prim.Native.Nat.{ℕ, suc}
use mathlib.Core.Path.{◌≡◌}
use mathlib.Core.Logic.{◌≢◌, ◌⊎◌, inl, inr}
use mathlib.Core.List.{List, [], ◌∷◌}

module _ {ℓ} {A : Type ℓ} where
  abbrev pub length : List A → ℕ
  length [] = 0
  length (x ∷ xs) = suc (length xs)

-- `x` stands in the list; which place it stands at is kept.
abbrev pub Elem : {A : Type 0} → A → List A → Type 0
Elem x [] = ⊥
Elem x (y ∷ ys) = (x ≡ y) ⊎ Elem x ys

abbrev pub All : {A : Type 0} → (A → Type 0) → List A → Type 0
All P [] = Unit {0}
All P (x ∷ xs) = P x × All P xs

-- No two pairs of the list have the same key.
abbrev pub IsDistinct : {K V : Type 0} → List (K × V) → Type 0
IsDistinct [] = Unit {0}
IsDistinct ((k, v) ∷ l) = All (λ e. e.0 ≢ k) l × IsDistinct l

pub All-Elem : {A : Type 0} (P : A → Type 0) (x : A) (xs : List A) → All P xs → Elem x xs → P x
All-Elem P x [] h m = absurd m
All-Elem P x (y ∷ ys) h (inl e) = subst_at e
  where
    subst_at : x ≡ y → P x
    subst_at e = rw e h.0
All-Elem P x (y ∷ ys) h (inr m) = All-Elem P x ys h.1 m
