-- ===== src/Auth.antt =====
-- internal/auth/auth.go: who a bearer token stands for. The verification of a token's signature is
-- go-oidc's, and lower case is Unicode's: both are arguments. An error that wraps another one keeps
-- its own text only.
pub mod Identities
pub mod Discovery
pub mod Trusted
use linea_server.Prelude.{
  ℕ, String, str_eq, ◌⧺◌, Bool, true, false, ◌||◌, Option, none, some, List, [], ◌∷◌, length, ltb,
  ◌==◌, trim_space, if◌then◌else◌,
}
use Prim.Native.Char.{code}
use linea_server.Result.{Result, ok, err, Error, plain, bind_result}

abbrev pub Role : Type 0
Role = ℕ

abbrev pub role_none : Role
role_none = 0

abbrev pub role_viewer : Role
role_viewer = 1

abbrev pub role_contributor : Role
role_contributor = 2

abbrev pub role_curator : Role
role_curator = 3

-- A decoded JSON value, as far as flattenRoleValues tells them apart.
pub data Item : Type 0 where
  text : String → Item
  other : Item

pub data Claim : Type 0 where
  text : String → Claim
  items : List Item → Claim
  texts : List String → Claim
  other : Claim

abbrev pub Claims : Type 0
Claims = List (String × Claim)

pub record Identity : Type 0 where
  pub subject : String
  pub issuer : String
  pub role : Role
  pub raw : Claims

-- The identity of a context that holds none.
abbrev pub no_identity : Identity
no_identity = record { subject = ""; issuer = ""; role = role_none; raw = [] }

-- What go-oidc gives for a token that it accepts.
pub record Token : Type 0 where
  pub issuer : String
  pub claims : Result Claims

pub record IssuerVerifier : Type 0 where
  pub issuer_url : String
  pub verify : String → Result Token

pub record Verifier : Type 0 where
  pub verifiers : List IssuerVerifier
  pub role_claim : String
  pub role_map : List (String × Role)
  pub to_lower : String → String

unfoldable pub default_role_map : List (String × Role)
default_role_map =
    ("linea-viewer", role_viewer)
    ∷ ("linea-contributor", role_contributor)
    ∷ ("linea-curator", role_curator)
    ∷ []

unfoldable pub find_role : String → List (String × Role) → Option Role
find_role k [] = none
find_role k ((j, r) ∷ l) = if str_eq j k then some r else find_role k l

find_claim : String → Claims → Option Claim
find_claim k [] = none
find_claim k ((j, c) ∷ l) = if str_eq j k then some c else find_claim k l

-- strings.FieldsFunc at commas and spaces: a field that is empty is none.
add_field : String → List String → List String
add_field w ws = if str_eq w "" then ws else w ∷ ws

-- The field that a text begins with, which may be empty, and the fields behind it.
cut_fields : String → String × List String
unfolding add_field
cut_fields String.[] = ("", [])
cut_fields (String.◌∷◌ c s) =
    let (w, ws) = cut_fields s in
    if code c == b',' || code c == b' ' then ("", add_field w ws) else (String.◌∷◌ c w, ws)

unfoldable pub fields : String → List String
unfolding cut_fields add_field
fields s = let (w, ws) = cut_fields s in add_field w ws

item_texts : List Item → List String
item_texts [] = []
item_texts (Item.text s ∷ l) = s ∷ item_texts l
item_texts (Item.other ∷ l) = item_texts l

unfoldable pub flatten_role_values : Claim → List String
unfolding item_texts
flatten_role_values (Claim.text s) = fields s
flatten_role_values (items l) = item_texts l
flatten_role_values (texts l) = l
flatten_role_values Claim.other = []

-- `if r, ok := …; ok && r > best { best = r }`
unfoldable pub better : Option Role → Role → Role
better none best = best
better (some r) best = if ltb best r then r else best

-- The loop of resolveRole, and the viewer's role for who has none.
unfoldable pub best_role : Verifier → List String → Role → Role
unfolding better
best_role v [] best = best
best_role v (val ∷ vals) best =
    best_role v vals (better (find_role (v.to_lower (trim_space val)) v.role_map) best)

unfoldable pub or_viewer : Role → Role
or_viewer best = if best == role_none then role_viewer else best

-- The values of the role claim; a missing claim has none.
unfoldable pub role_values : Verifier → Claims → List String
unfolding find_claim
role_values v claims = elim (find_claim v.role_claim claims) [
  | none ↦ []
  | some raw ↦ flatten_role_values raw
]

unfoldable pub resolve_role : Verifier → Claims → Role
unfolding best_role or_viewer
resolve_role v claims = or_viewer (best_role v (role_values v claims) role_none)

-- `subject, _ := claims["sub"].(string)`
unfoldable pub subject_text : Option Claim → String
subject_text (some (Claim.text s)) = s
subject_text _ = ""

unfoldable pub claimed_subject : Claims → String
unfolding find_claim subject_text
claimed_subject claims = subject_text (find_claim "sub" claims)

unfoldable pub identity_of : Verifier → String → Claims → Result Identity
unfolding resolve_role
identity_of v issuer claims =
    if str_eq (claimed_subject claims) ""
    then err (plain "auth: token missing 'sub'")
    else ok (record {
      subject = issuer ⧺ "|" ⧺ claimed_subject claims;
      issuer = issuer;
      role = resolve_role v claims;
      raw = claims;
    })

-- What VerifyToken does with a token that an issuer's verifier accepts.
unfoldable pub accepted : Verifier → String → Result Claims → Result Identity
unfolding identity_of
accepted v issuer (ok claims) = identity_of v issuer claims
accepted v issuer (err e) = err (plain "auth: decode claims")

unfoldable pub refused : Option Error → Result Identity
refused (some e) = err (plain "auth: verify")
refused none = err (plain "auth: no issuers configured")

-- The loop of VerifyToken, with `lastErr`.
unfoldable pub verify_with :
    Verifier → Option Error → List IssuerVerifier → String → Result Identity
verify_with v last [] raw = refused last
verify_with v last (iv ∷ ivs) raw = elim (iv.verify raw) [
  | ok tok ↦ accepted v tok.issuer tok.claims
  | err e ↦ verify_with v (some e) ivs raw
]

unfoldable pub verify_token : Verifier → String → Result Identity
unfolding verify_with
verify_token v raw = verify_with v none v.verifiers raw
