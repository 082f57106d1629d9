-- ===== src/Platform/Types.antt =====
-- internal/platform/types.go: the record types of the platform database.
pub use linea_server.Prelude.Int.{ℤ, pos, negsuc}
use linea_server.Prelude.{
  ℕ, String, str_eq, Bool, ◌||◌, ◌&&◌, ltb, leb, ◌==◌, trim_space, if◌then◌else◌,
}
use linea_server.Result.{Result, ok, err, plain}

-- `t > 0`, for an `int64` time stamp.
unfoldable pub is_positive : ℤ → Bool
is_positive (pos n) = ltb 0 n
is_positive (negsuc n) = Bool.false

-- `t == 0`
unfoldable pub is_zero : ℤ → Bool
is_zero (pos n) = n == 0
is_zero (negsuc n) = Bool.false

-- `type Visibility uint8`
abbrev pub Visibility : Type 0
Visibility = ℕ

abbrev pub visibility_private : Visibility
visibility_private = 1

abbrev pub visibility_unlisted : Visibility
visibility_unlisted = 2

abbrev pub visibility_public : Visibility
visibility_public = 3

-- `Visibility.IsValid`
abbrev pub is_valid_visibility : Visibility → Bool
is_valid_visibility v =
    v == visibility_private || v == visibility_unlisted || v == visibility_public

-- `Visibility.String`
pub visibility_name : Visibility → String
visibility_name v =
    if v == visibility_private
    then "Private"
    else if v == visibility_unlisted
    then "Unlisted"
    else if v == visibility_public
    then "Public"
    else "Unknown"

-- ParseVisibility; lower case is Unicode's, an argument.
unfoldable pub parse_visibility : (String → String) → String → Result Visibility
parse_visibility to_lower s =
    let t = to_lower (trim_space s) in
    if str_eq t "private"
    then ok visibility_private
    else if str_eq t "unlisted"
    then ok visibility_unlisted
    else if str_eq t "public"
    then ok visibility_public
    else err (plain "platform: unknown visibility")

-- `type Role uint8`
abbrev pub Role : Type 0
Role = ℕ

abbrev pub role_none : Role
role_none = 0

abbrev pub role_viewer : Role
role_viewer = 1

abbrev pub role_contributor : Role
role_contributor = 2

abbrev pub role_curator : Role
role_curator = 3

abbrev pub role_owner : Role
role_owner = 4

-- `Role.IsValid`
abbrev pub is_valid_role : Role → Bool
is_valid_role r = leb role_viewer r && leb r role_owner

-- `Role.String`
unfoldable pub role_name : Role → String
role_name r =
    if r == role_viewer
    then "Viewer"
    else if r == role_contributor
    then "Contributor"
    else if r == role_curator
    then "Curator"
    else if r == role_owner
    then "Owner"
    else "None"

pub record User : Type 0 where
  pub subject : String
  pub email : String
  pub created_at : ℤ
  pub suspended : Bool

pub record Genealogy : Type 0 where
  pub id : String
  pub name : String
  pub visibility : Visibility
  pub created_by : String
  pub created_at : ℤ

pub record Membership : Type 0 where
  pub subject : String
  pub genealogy_id : String
  pub role : Role
  pub granted_by : String
  pub granted_at : ℤ

pub record Ban : Type 0 where
  pub subject : String
  pub genealogy_id : String
  pub reason : String
  pub by : String
  pub at : ℤ
