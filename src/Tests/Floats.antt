-- ===== src/Tests/Floats.antt =====
-- Numbers in the place of `float64`: integers, in units of 10^-9.
use linea_server.Prelude.{ℕ, ◌+◌, ◌*◌, ◌/◌, ◌≡◌, Bool, true, leb, arith}
use linea_server.Prelude.Int.{ℤ, pos, negsuc, pos_part, neg_part, sub_ℕ, ltb_ℤ}
use linea_server.Prelude.Float64.{Float64, IsIeee}

abbrev pub scale : ℕ
scale = 1_000_000_000

abbrev pub minus : ℤ → ℤ → ℤ
minus a b = sub_ℕ (pos_part a + neg_part b) (neg_part a + pos_part b)

abbrev pub times : ℤ → ℤ → ℤ
times a b =
    sub_ℕ ((pos_part a * pos_part b + neg_part a * neg_part b) / scale)
      ((pos_part a * neg_part b + neg_part a * pos_part b) / scale)

abbrev pub leb_ℤ : ℤ → ℤ → Bool
leb_ℤ a b = leb (pos_part a + neg_part b) (pos_part b + neg_part a)

instance abbrev pub integers : Float64
integers = record {
  Value = ℤ;
  of_nat = λ n. pos (n * scale);
  seconds = λ d. d;
  add = λ a b. sub_ℕ (pos_part a + pos_part b) (neg_part a + neg_part b);
  sub = minus;
  mul = times;
  less = ltb_ℤ;
  at_most = leb_ℤ;
}

times_nothing : (r : ℤ) → times (pos 0) r ≡ pos 0
times_nothing (pos n) = ground arith
times_nothing (negsuc n) = ground arith

less_trans_ℤ : (x y z : ℤ) → ltb_ℤ x y ≡ true → ltb_ℤ y z ≡ true → ltb_ℤ x z ≡ true
less_trans_ℤ x y z p q = ground arith

add_nothing_ℤ : (x : ℤ) → sub_ℕ (pos_part x + 0) (neg_part x + 0) ≡ x
add_nothing_ℤ (pos n) = ground arith
add_nothing_ℤ (negsuc n) = ground arith

pub integers-IsIeee : IsIeee
integers-IsIeee = record {
  less_irrefl = λ x. ground arith;
  less_trans = less_trans_ℤ;
  at_most_none = λ x h. ground arith;
  at_most_some = λ m small. ground arith;
  add_nothing = λ c x r h. rw (times_nothing r, add_nothing_ℤ x) h;
  add_zero = λ m k small. rw (times_nothing (pos (k * scale))) (add_nothing_ℤ (pos (m * scale)));
  sub_one = λ m x small h. ground arith;
  sub_exact = λ m small. ground arith;
  less_exact = λ m n le. ground arith;
}
