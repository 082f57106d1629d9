-- ===== src/Platform/Json.antt =====
-- The JSON form of the records of internal/platform/types.go, by their struct tags: what
-- `json.Marshal` writes and `json.Unmarshal` reads, as objects of named scalars. A number is held
-- as the integer that it denotes.
pub mod RoundTrip
use linea_server.Prelude.{
  ℕ, String, str_eq, Bool, true, false, not, Option, none, some, List, [], ◌∷◌, ◌++◌, arith, ltb,
  if◌then◌else◌,
}
use linea_server.Result.{Result, ok, err, Error, bind_result}
use linea_server.Platform.Types.{ℤ, pos, negsuc, User, Genealogy, Membership, Ban, is_zero}

pub data Scalar : Type 0 where
  string : String → Scalar
  number : ℤ → Scalar
  boolean : Bool → Scalar

abbrev pub Json : Type 0
Json = List (String × Scalar)

abbrev field : String → Json → Option Scalar
field name [] = none
field name ((k, v) ∷ doc) = if str_eq k name then some v else field name doc

pub type_error : Error
type_error = Error.external "json: cannot unmarshal"

-- An absent member leaves the zero value; one of another type is an error.
as_text : Option Scalar → Result String
as_text none = ok ""
as_text (some (string s)) = ok s
as_text (some _) = err type_error

as_int64 : Option Scalar → Result ℤ
as_int64 none = ok (pos 0)
as_int64 (some (number z)) = ok z
as_int64 (some _) = err type_error

as_uint8 : Option Scalar → Result ℕ
as_uint8 none = ok 0
as_uint8 (some (number (pos n))) = if ltb n 256 then ok n else err type_error
as_uint8 (some _) = err type_error

as_bool : Option Scalar → Result Bool
as_bool none = ok false
as_bool (some (boolean b)) = ok b
as_bool (some _) = err type_error

-- `omitempty`: a member that is left out at its zero value.
unless : Bool → String → Scalar → Json
unless true name v = []
unless false name v = (name, v) ∷ []

infixl 5 ◌>>=◌
abbrev ◌>>=◌ : {A B : Type 0} → Result A → (A → Result B) → Result B
m >>= f = bind_result m f

unfoldable pub marshal_user : User → Json
unfolding unless
marshal_user u =
    ("sub", string u.subject)
    ∷ (unless (str_eq u.email "") "email" (string u.email)
        ++ ("created_at", number u.created_at)
          ∷ unless (not u.suspended) "suspended" (boolean u.suspended))

unfoldable pub unmarshal_user : Json → Result User
unfolding as_text as_int64 as_bool
unmarshal_user doc = do
  sub ← as_text (field "sub" doc)
  email ← as_text (field "email" doc)
  created ← as_int64 (field "created_at" doc)
  suspended ← as_bool (field "suspended" doc)
  ok (record { subject = sub; email = email; created_at = created; suspended = suspended })

unfoldable pub marshal_genealogy : Genealogy → Json
marshal_genealogy g =
    ("id", string g.id)
    ∷ ("name", string g.name)
    ∷ ("visibility", number (pos g.visibility))
    ∷ ("created_by", string g.created_by)
    ∷ ("created_at", number g.created_at)
    ∷ []

unfoldable pub unmarshal_genealogy : Json → Result Genealogy
unfolding as_text as_int64 as_uint8
unmarshal_genealogy doc = do
  id ← as_text (field "id" doc)
  name ← as_text (field "name" doc)
  vis ← as_uint8 (field "visibility" doc)
  by ← as_text (field "created_by" doc)
  created ← as_int64 (field "created_at" doc)
  ok (record { id = id; name = name; visibility = vis; created_by = by; created_at = created })

unfoldable pub marshal_membership : Membership → Json
unfolding unless
marshal_membership m =
    ("sub", string m.subject)
    ∷ ("genealogy_id", string m.genealogy_id)
    ∷ ("role", number (pos m.role))
    ∷ (unless (str_eq m.granted_by "") "granted_by" (string m.granted_by)
        ++ ("granted_at", number m.granted_at) ∷ [])

unfoldable pub unmarshal_membership : Json → Result Membership
unfolding as_text as_int64 as_uint8
unmarshal_membership doc = do
  sub ← as_text (field "sub" doc)
  gid ← as_text (field "genealogy_id" doc)
  role ← as_uint8 (field "role" doc)
  by ← as_text (field "granted_by" doc)
  granted ← as_int64 (field "granted_at" doc)
  ok (record {
    subject = sub;
    genealogy_id = gid;
    role = role;
    granted_by = by;
    granted_at = granted;
  })

unfoldable pub marshal_ban : Ban → Json
unfolding unless
marshal_ban b =
    ("sub", string b.subject)
    ∷ ("genealogy_id", string b.genealogy_id)
    ∷ (unless (str_eq b.reason "") "reason" (string b.reason)
        ++ ("by", string b.by) ∷ ("at", number b.at) ∷ [])

unfoldable pub unmarshal_ban : Json → Result Ban
unfolding as_text as_int64
unmarshal_ban doc = do
  sub ← as_text (field "sub" doc)
  gid ← as_text (field "genealogy_id" doc)
  reason ← as_text (field "reason" doc)
  by ← as_text (field "by" doc)
  at ← as_int64 (field "at" doc)
  ok (record { subject = sub; genealogy_id = gid; reason = reason; by = by; at = at })
