-- ===== src/Config/Csv.antt =====
-- splitCSV of internal/config/config.go on a list that has been written with commas.
use linea_server.Prelude.{
  ◌≡◌, ◌≢◌, refl, ap, sym, ◌∙◌, String, str_eq, str_eq_of_ne, eq_of_str_eq, inl, inr, Bool-cases,
  Bool, false, ◌||◌, ◌==◌, List, [], ◌∷◌, All, ◌⧺◌, trim_space, arith,
}
use Prim.Native.Char.{code}
use linea_server.Config.{cut_parts, split, keep_named, split_csv}

unfoldable pub has_comma : String → Bool
has_comma String.[] = false
has_comma (String.◌∷◌ c s) = code c == b',' || has_comma s

-- The entries with a comma between each two.
abbrev pub join_csv : List String → String
join_csv [] = ""
join_csv (x ∷ []) = x
join_csv (x ∷ y ∷ ys) = x ⧺ "," ⧺ join_csv (y ∷ ys)

-- An entry that is written alone: no comma, no space around it, not empty.
pub record IsEntry (e : String) : Type 0 where
  pub plain : has_comma e ≡ false
  pub trimmed : trim_space e ≡ e
  pub named : e ≢ ""

cut_parts-plain : (s : String) → has_comma s ≡ false → cut_parts s ≡ (s, [])
unfolding cut_parts has_comma
cut_parts-plain String.[] h = refl
cut_parts-plain (String.◌∷◌ c s) h =
    let here : (code c == b',') ≡ false = ground arith in
    rw (cut_parts-plain s (ground arith), here) refl

cut_parts-comma : (s t : String) → has_comma s ≡ false → cut_parts (s ⧺ "," ⧺ t) ≡ (s, split t)
unfolding cut_parts has_comma split
cut_parts-comma String.[] t h = refl
cut_parts-comma (String.◌∷◌ c s) t h =
    let here : (code c == b',') ≡ false = ground arith in
    rw (cut_parts-comma s t (ground arith), here) refl

split-join_csv :
    (x : String) (xs : List String) → All IsEntry (x ∷ xs) → split (join_csv (x ∷ xs)) ≡ x ∷ xs
unfolding split
split-join_csv x [] h = rw (cut_parts-plain x h.0.plain) refl
split-join_csv x (y ∷ ys) h =
    rw (cut_parts-comma x (join_csv (y ∷ ys)) h.0.plain) (ap (λ l. x ∷ l) (split-join_csv y ys h.1))

keep_named-entries : (xs : List String) → All IsEntry xs → keep_named xs ≡ xs
unfolding keep_named
keep_named-entries [] h = refl
keep_named-entries (x ∷ xs) h =
    rw (h.0.trimmed, str_eq_of_ne x "" h.0.named) (ap (λ l. x ∷ l) (keep_named-entries xs h.1))

first_is_empty : (x : String) (xs : List String) → split "" ≡ x ∷ xs → x ≡ ""
unfolding split cut_parts
first_is_empty x xs e = cc (e)

-- A list of entries that are not empty and have no comma in them and no space around them is read
-- back by splitCSV from the text that has a comma between each two.
pub split_csv-join_csv : (xs : List String) → All IsEntry xs → split_csv (join_csv xs) ≡ xs
unfolding split_csv
split_csv-join_csv [] h = refl
split_csv-join_csv (x ∷ xs) h = elim (Bool-cases (str_eq (join_csv (x ∷ xs)) "")) [
  | inr named ↦ rw named (ap keep_named (split-join_csv x xs h) ∙ keep_named-entries (x ∷ xs) h)
  | inl nameless ↦
      let e : split "" ≡ x ∷ xs =
        ap split (sym (eq_of_str_eq (join_csv (x ∷ xs)) "" nameless)) ∙ split-join_csv x xs h in
      absurd (h.0.named (first_is_empty x xs e))
]
