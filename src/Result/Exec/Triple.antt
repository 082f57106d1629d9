-- ===== src/Result/Exec/Triple.antt =====
-- What a handler that begins in a state with `P` leaves: `Q` of its reply and its state if it
-- succeeds, and `E` of its state if it fails. One rule for each way to build a handler.
use linea_server.Prelude.{◌≡◌, refl, Bool, true, false, if◌then◌else◌}
use linea_server.Result.{Result, ok, err, Error}
use linea_server.Result.Exec.{Exec, continue, ◌>>=◌, ◌>>◌, require, return, raise}

abbrev pub Post : {S A : Type 0} → (S → Type 0) → (A → S → Type 0) → Result A → S → Type 0
Post E Q (ok a) s = Q a s
Post E Q (err e) s = E s

-- The state after a success.
pub Post-ok :
    {S A : Type 0} (E Q : S → Type 0) (r : Result A) (s : S) {a : A}
    → r ≡ ok a
    → Post E (λ _. Q) r s
    → Q s
Post-ok E Q (ok b) s h v = v
Post-ok E Q (err e) s h v = absurd (cc (h))

pub record Triple {S A : Type 0} (E P : S → Type 0) (m : Exec S A) (Q : A → S → Type 0)
    : Type 0 where
  pub at : (s : S) → P s → Post E Q (m s).0 (m s).1

module _ {S A B : Type 0} {E : S → Type 0} where
  continue-Post :
      {Q : A → S → Type 0} {R : B → S → Type 0} (r : Result A) (f : A → Exec S B) (s : S)
      → ((a : A) → Triple E (Q a) (f a) R)
      → Post E Q r s
      → Post E R (continue r f s).0 (continue r f s).1
  continue-Post (ok a) f s hf h = (hf a).at s h
  continue-Post (err e) f s hf h = h

  pub Triple-bind :
      {P : S → Type 0} {m : Exec S A} {Q : A → S → Type 0} {f : A → Exec S B} {R : B → S → Type 0}
      → Triple E P m Q
      → ((a : A) → Triple E (Q a) (f a) R)
      → Triple E P (m >>= f) R
  Triple-bind {P} {m} {Q} {f} {R} hm hf = record {
    at = λ s p. continue-Post (m s).0 f (m s).1 hf (hm.at s p);
  }

module _ {S B : Type 0} {E : S → Type 0} where
  pub Triple-then :
      {P : S → Type 0} {m : Exec S (Unit {0})} {Q : S → Type 0} {k : Exec S B} {R : B → S → Type 0}
      → Triple E P m (λ _. Q)
      → Triple E Q k R
      → Triple E P (m >> k) R
  Triple-then hm hk = Triple-bind hm (λ _. hk)

  pub Triple-weaken :
      {P P' : S → Type 0} {m : Exec S B} {R : B → S → Type 0}
      → ((s : S) → P s → P' s)
      → Triple E P' m R
      → Triple E P m R
  Triple-weaken weaker h = record { at = λ s p. h.at s (weaker s p) }

  pub Triple-if :
      {P : S → Type 0} (b : Bool) {m n : Exec S B} {R : B → S → Type 0}
      → (b ≡ true → Triple E P m R)
      → (b ≡ false → Triple E P n R)
      → Triple E P (if b then m else n) R
  Triple-if true hm hn = hm refl
  Triple-if false hm hn = hn refl

  pub Triple-return :
      {P : S → Type 0} {R : B → S → Type 0} (b : B)
      → ((s : S) → P s → R b s)
      → Triple E P (return b) R
  Triple-return b h = record { at = h }

  pub Triple-raise :
      {P : S → Type 0} {R : B → S → Type 0} (e : Error)
      → ((s : S) → P s → E s)
      → Triple E P (raise e) R
  Triple-raise e h = record { at = h }

module _ {S : Type 0} {E : S → Type 0} where
  pub Triple-require :
      {P : S → Type 0} (b : Bool) (e : Error)
      → ((s : S) → P s → E s)
      → Triple E P (require b e) (λ _. P)
  Triple-require true e fails = record { at = λ s p. p }
  Triple-require false e fails = record { at = λ s p. fails s p }

module _ {S A : Type 0} {E : S → Type 0} where
  pub Triple-forget :
      {P : S → Type 0} {m : Exec S A} {Q R : A → S → Type 0}
      → ((a : A) (s : S) → Q a s → R a s)
      → Triple E P m Q
      → Triple E P m R
  Triple-forget {P} {m} {Q} {R} weaker h = record { at = λ s p. go (m s).0 (m s).1 (h.at s p) }
    where
      go : (r : Result A) (s : S) → Post E Q r s → Post E R r s
      go (ok a) s q = weaker a s q
      go (err e) s q = q

module _ {S A : Type 0} where
  pub Triple-excuse :
      {E E' P : S → Type 0} {m : Exec S A} {Q : A → S → Type 0}
      → ((s : S) → E s → E' s)
      → Triple E P m Q
      → Triple E' P m Q
  Triple-excuse {E} {E'} {P} {m} {Q} weaker h = record { at = λ s p. go (m s).0 (m s).1 (h.at s p) }
    where
      go : (r : Result A) (s : S) → Post E Q r s → Post E' Q r s
      go (ok a) s q = q
      go (err e) s q = weaker s q

module _ {S B : Type 0} {E : S → Type 0} where
  -- The rest of the block may use that the test has passed.
  pub Triple-guard :
      {P : S → Type 0} (b : Bool) (e : Error) {k : Exec S B} {R : B → S → Type 0}
      → ((s : S) → P s → E s)
      → (b ≡ true → Triple E P k R)
      → Triple E P (require b e >> k) R
  Triple-guard true e fails h = record { at = λ s p. (h refl).at s p }
  Triple-guard false e fails h = record { at = λ s p. fails s p }
