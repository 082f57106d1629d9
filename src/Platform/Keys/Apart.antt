-- ===== src/Platform/Keys/Apart.antt =====
-- Keys of different records are different texts.
use text.Mathlib.TextLemmas.{tail-eq_of_cons-eq}
use linea_server.Prelude.{
  ◌≡◌, ◌≢◌, ap, ◌∙◌, sym, String, true, arith, ◌⧺◌, ⧺_assoc, has_prefix, has_prefix-rest,
  first_code, split_at_slash, split_at_last_slash, str_eq, eq_iff, ◌&&◌,
}
use linea_server.Platform.Keys.{
  genealogy_key, membership_key, reverse_membership_key, ban_key, members_prefix, IsId,
}

pub genealogy_key_inj : {a b : String} → genealogy_key a ≡ genealogy_key b → a ≡ b
unfolding genealogy_key
genealogy_key_inj e = tail-eq_of_cons-eq (tail-eq_of_cons-eq e)

pub membership_key_inj :
    (a b s t : String)
    → IsId a
    → IsId b
    → membership_key a s ≡ membership_key b t
    → (a ≡ b) × (s ≡ t)
unfolding membership_key
membership_key_inj a b s t ha hb e =
    split_at_slash a b s t ha hb (tail-eq_of_cons-eq (tail-eq_of_cons-eq e))

pub members_prefix_exact :
    (a b s : String)
    → IsId a
    → IsId b
    → has_prefix (members_prefix a) (membership_key b s) ≡ true
    → a ≡ b
unfolding membership_key members_prefix
members_prefix_exact a b s ha hb h =
    let (r, e) = has_prefix-rest ("m/" ⧺ a ⧺ "/") ("m/" ⧺ b ⧺ "/" ⧺ s) h in
    let e' : b ⧺ "/" ⧺ s ≡ a ⧺ "/" ⧺ r =
      tail-eq_of_cons-eq (tail-eq_of_cons-eq e) ∙ ⧺_assoc a "/" r in
    sym (split_at_slash b a s r hb ha e').0

pub membership-ne-reverse : (a s t b : String) → membership_key a s ≢ reverse_membership_key t b
unfolding membership_key reverse_membership_key first_code
membership-ne-reverse a s t b e = absurd (omega (arith, ap first_code (tail-eq_of_cons-eq e)))

pub membership-ne-genealogy : (a s g : String) → membership_key a s ≢ genealogy_key g
unfolding membership_key genealogy_key first_code
membership-ne-genealogy a s g e = absurd (omega (arith, ap first_code e))

pub reverse-ne-genealogy : (s a g : String) → reverse_membership_key s a ≢ genealogy_key g
unfolding reverse_membership_key genealogy_key first_code
reverse-ne-genealogy s a g e = absurd (omega (arith, ap first_code e))

pub reverse_membership_key_inj :
    (s t a b : String)
    → IsId a
    → IsId b
    → reverse_membership_key s a ≡ reverse_membership_key t b
    → (s ≡ t) × (a ≡ b)
unfolding reverse_membership_key
reverse_membership_key_inj s t a b ha hb e =
    split_at_last_slash s t a b ha hb
      (tail-eq_of_cons-eq (tail-eq_of_cons-eq (tail-eq_of_cons-eq e)))

pub ban_key_inj :
    (a b s t : String) → IsId a → IsId b → ban_key a s ≡ ban_key b t → (a ≡ b) × (s ≡ t)
unfolding ban_key
ban_key_inj a b s t ha hb e =
    split_at_slash a b s t ha hb (tail-eq_of_cons-eq (tail-eq_of_cons-eq e))

-- The tests on keys, as tests on what the keys are made of.
pub genealogy_key_eq : (a b : String) → str_eq (genealogy_key a) (genealogy_key b) ≡ str_eq a b
genealogy_key_eq a b = ground (
  arith,
  eq_iff a b,
  eq_iff (genealogy_key a) (genealogy_key b),
  genealogy_key_inj {a = a} {b = b},
)

pub membership_key_eq :
    (a b s t : String)
    → IsId a
    → IsId b
    → str_eq (membership_key a s) (membership_key b t) ≡ (str_eq a b && str_eq s t)
membership_key_eq a b s t ha hb = grind (
  arith,
  eq_iff a b,
  eq_iff s t,
  eq_iff (membership_key a s) (membership_key b t),
  membership_key_inj a b s t ha hb,
)

pub reverse_membership_key_eq :
    (s t a b : String)
    → IsId a
    → IsId b
    → str_eq (reverse_membership_key s a) (reverse_membership_key t b) ≡ (str_eq a b && str_eq s t)
reverse_membership_key_eq s t a b ha hb = grind (
  arith,
  eq_iff a b,
  eq_iff s t,
  eq_iff (reverse_membership_key s a) (reverse_membership_key t b),
  reverse_membership_key_inj s t a b ha hb,
)

pub ban_key_eq :
    (a b s t : String)
    → IsId a
    → IsId b
    → str_eq (ban_key a s) (ban_key b t) ≡ (str_eq a b && str_eq s t)
ban_key_eq a b s t ha hb =
    grind
      (arith, eq_iff a b, eq_iff s t, eq_iff (ban_key a s) (ban_key b t), ban_key_inj a b s t ha hb)

-- The keys that an iteration over a genealogy's members visits.
pub members-key :
    (gid k : String)
    → has_prefix (members_prefix gid) k ≡ true
    → (sub : String) × (k ≡ membership_key gid sub)
unfolding membership_key members_prefix
members-key gid k h =
    let (r, e) = has_prefix-rest ("m/" ⧺ gid ⧺ "/") k h in
    (r, e ∙ ap (λ t. "m/" ⧺ t) (⧺_assoc gid "/" r))
