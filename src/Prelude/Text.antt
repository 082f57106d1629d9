-- ===== src/Prelude/Text.antt =====
-- Go strings as native texts: `+`, `strings.HasPrefix` and the separator "/", by recursion.
use Prim.Native.Nat.{ℕ}
use Prim.Native.Char.{Char, code}
use Prim.Native.String.{String}
use mathlib.Core.Path.{◌≡◌, refl, ap, ap₂}
use mathlib.Core.Logic.{◌≢◌}
use mathlib.Core.Bool.{Bool, true, false, ◌&&◌, ◌||◌}
use native.Mathlib.Omega.{arith}
use text.Mathlib.Text.{◌==◌ as str_eq}
use text.Mathlib.TextEquality.{Char-path, eq_iff}
use text.Mathlib.TextLemmas.{head-eq_of_cons-eq, tail-eq_of_cons-eq}
use linea_server.Prelude.Tests.{leb, ◌==◌, if◌then◌else◌}

-- Go's `s + t`.
infixr 65 ◌⧺◌
abbrev pub ◌⧺◌ : String → String → String
String.[] ⧺ t = t
String.◌∷◌ c s ⧺ t = String.◌∷◌ c (s ⧺ t)

-- `strings.HasPrefix(t, s)`.
unfoldable pub has_prefix : String → String → Bool
has_prefix String.[] t = true
has_prefix (String.◌∷◌ c s) String.[] = false
has_prefix (String.◌∷◌ c s) (String.◌∷◌ d t) = code c == code d && has_prefix s t

unfoldable pub contains_slash : String → Bool
contains_slash String.[] = false
contains_slash (String.◌∷◌ c s) = code c == b'/' || contains_slash s

unfoldable pub first_code : String → ℕ
first_code String.[] = 0
first_code (String.◌∷◌ c s) = code c

pub ⧺_assoc : (s t u : String) → (s ⧺ t) ⧺ u ≡ s ⧺ t ⧺ u
⧺_assoc String.[] t u = refl
⧺_assoc (String.◌∷◌ c s) t u = ap (λ r. String.◌∷◌ c r) (⧺_assoc s t u)

pub has_prefix-⧺ : (s t : String) → has_prefix s (s ⧺ t) ≡ true
unfolding has_prefix
has_prefix-⧺ String.[] t = refl
has_prefix-⧺ (String.◌∷◌ c s) t = ground (arith, has_prefix-⧺ s t)

-- A text with the prefix `s` is `s` and a rest.
pub has_prefix-rest : (s t : String) → has_prefix s t ≡ true → (r : String) × (t ≡ s ⧺ r)
unfolding has_prefix
has_prefix-rest String.[] t h = (t, refl)
has_prefix-rest (String.◌∷◌ c s) String.[] h = absurd (ground arith)
has_prefix-rest (String.◌∷◌ c s) (String.◌∷◌ d t) h =
    let (r, e) = has_prefix-rest s t (ground arith) in
    (r, ap₂ (λ x y. String.◌∷◌ x y) (Char-path d c (ground arith)) e)

-- The text before the first "/" is determined by the whole.
pub split_at_slash :
    (a b s t : String)
    → contains_slash a ≡ false
    → contains_slash b ≡ false
    → a ⧺ "/" ⧺ s ≡ b ⧺ "/" ⧺ t
    → (a ≡ b) × (s ≡ t)
unfolding contains_slash first_code
split_at_slash String.[] String.[] s t ha hb e = (refl, tail-eq_of_cons-eq e)
split_at_slash String.[] (String.◌∷◌ d b) s t ha hb e = absurd (ground (arith, ap first_code e))
split_at_slash (String.◌∷◌ c a) String.[] s t ha hb e = absurd (ground (arith, ap first_code e))
split_at_slash (String.◌∷◌ c a) (String.◌∷◌ d b) s t ha hb e =
    let (p, q) = split_at_slash a b s t (ground arith) (ground arith) (tail-eq_of_cons-eq e) in
    (rw (p, head-eq_of_cons-eq e), q)

-- Unicode's White_Space, as `unicode.IsSpace` has it.
is_space : ℕ → Bool
is_space c =
    (leb 9 c && leb c 13)
    || c == 0x20
    || c == 0x85
    || c == 0xA0
    || c == 0x1680
    || (leb 0x2000 c && leb c 0x200A)
    || c == 0x2028
    || c == 0x2029
    || c == 0x202F
    || c == 0x205F
    || c == 0x3000

trim_left : String → String
trim_left String.[] = String.[]
trim_left (String.◌∷◌ c s) =
    let rest = trim_left s in if is_space (code c) then rest else String.◌∷◌ c s

-- `c` in front of a text whose spaces at the end are dropped already.
cons_trimmed : Char → String → String
cons_trimmed c String.[] = if is_space (code c) then String.[] else String.◌∷◌ c String.[]
cons_trimmed c (String.◌∷◌ d s) = String.◌∷◌ c (String.◌∷◌ d s)

trim_right : String → String
unfolding cons_trimmed
trim_right String.[] = String.[]
trim_right (String.◌∷◌ c s) = cons_trimmed c (trim_right s)

-- `strings.TrimSpace(s)`.
unfoldable pub trim_space : String → String
unfolding trim_left trim_right is_space
trim_space s = trim_right (trim_left s)

trim_space_test : trim_space "  a b\t" ≡ "a b"
unfolding trim_space
trim_space_test = refl

pub str_eq_of_ne : (s t : String) → s ≢ t → str_eq s t ≡ false
str_eq_of_ne s t h = ground (arith, eq_iff s t)

pub eq_of_str_eq : (s t : String) → str_eq s t ≡ true → s ≡ t
eq_of_str_eq s t h = (eq_iff s t).0 h

-- A text that ends in "/" and more holds a "/".
contains_slash-⧺ : (s t : String) → contains_slash (s ⧺ "/" ⧺ t) ≡ true
unfolding contains_slash
contains_slash-⧺ String.[] t = refl
contains_slash-⧺ (String.◌∷◌ c s) t = ground (arith, contains_slash-⧺ s t)

-- The text behind the last "/" is determined by the whole.
pub split_at_last_slash :
    (s t a b : String)
    → contains_slash a ≡ false
    → contains_slash b ≡ false
    → s ⧺ "/" ⧺ a ≡ t ⧺ "/" ⧺ b
    → (s ≡ t) × (a ≡ b)
split_at_last_slash String.[] String.[] a b ha hb e = (refl, tail-eq_of_cons-eq e)
split_at_last_slash String.[] (String.◌∷◌ d t) a b ha hb e =
    cc (ap contains_slash (tail-eq_of_cons-eq e), contains_slash-⧺ t b, ha)
split_at_last_slash (String.◌∷◌ c s) String.[] a b ha hb e =
    cc (ap contains_slash (tail-eq_of_cons-eq e), contains_slash-⧺ s a, hb)
split_at_last_slash (String.◌∷◌ c s) (String.◌∷◌ d t) a b ha hb e =
    let (p, q) = split_at_last_slash s t a b ha hb (tail-eq_of_cons-eq e) in
    (ap₂ (λ x y. String.◌∷◌ x y) (head-eq_of_cons-eq e) p, q)
