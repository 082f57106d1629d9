-- ===== src/Config.antt =====
-- internal/config/config.go: the configuration that is read from the environment. Lower case and the
-- reading of numbers are the language's library's, which is an argument. An error that names the
-- value keeps its own text only.
pub mod Csv
use linea_server.Prelude.{
  String, str_eq, Bool, not, ◌&&◌, ◌||◌, Option, none, some, List, [], ◌∷◌, length, ◌==◌,
  trim_space, if◌then◌else◌,
}
use linea_server.Prelude.Int.{ℤ}
use Prim.Native.Char.{code}
use linea_server.Result.{Result, ok, err, plain}

-- `lookup` is os.LookupEnv, `to_lower` strings.ToLower, `equal_fold` strings.EqualFold, `atoi`
-- strconv.Atoi.
pub record Environment : Type 0 where
  pub lookup : String → Option String
  pub to_lower : String → String
  pub equal_fold : String → String → Bool
  pub atoi : String → Option ℤ

pub record Config : Type 0 where
  pub grpc_addr : String
  pub http_addr : String
  pub data_dir : String
  pub auth_mode : String
  pub oidc_issuers : List String
  pub oidc_audiences : List String
  pub role_claim : String
  pub log_level : String

-- `os.Getenv`
abbrev or_empty : Option String → String
or_empty none = ""
or_empty (some v) = v

abbrev pub getenv : Environment → String → String
getenv env k = or_empty (env.lookup k)

unfoldable pub default_to : String → Option String → String
default_to def none = def
default_to def (some v) = if str_eq v "" then def else v

unfoldable pub get_env : Environment → String → String → String
unfolding default_to
get_env env k def = default_to def (env.lookup k)

-- `strings.Split(s, ",")`: the part before the first comma, and the parts behind it.
unfoldable pub cut_parts : String → String × List String
cut_parts String.[] = ("", [])
cut_parts (String.◌∷◌ c s) =
    let (w, ws) = cut_parts s in if code c == b',' then ("", w ∷ ws) else (String.◌∷◌ c w, ws)

unfoldable pub split : String → List String
unfolding cut_parts
split s = let (w, ws) = cut_parts s in w ∷ ws

-- The loop of splitCSV.
unfoldable pub keep_named : List String → List String
keep_named [] = []
keep_named (p ∷ ps) =
    let rest = keep_named ps in if str_eq (trim_space p) "" then rest else trim_space p ∷ rest

unfoldable pub split_csv : String → List String
unfolding keep_named split
split_csv s = if str_eq s "" then [] else keep_named (split s)

unfoldable pub auth_disabled : Config → Bool
auth_disabled c = str_eq c.auth_mode "disabled"

-- What FromEnv reads, before its checks.
unfoldable pub read_env : Environment → Config
unfolding get_env split_csv
read_env env = record {
  grpc_addr = get_env env "LINEA_GRPC_ADDR" ":9090";
  http_addr = get_env env "LINEA_HTTP_ADDR" ":8080";
  data_dir = get_env env "LINEA_DATA_DIR" "./.devdata";
  auth_mode = env.to_lower (get_env env "LINEA_AUTH_MODE" "oidc");
  oidc_issuers = split_csv (getenv env "LINEA_OIDC_ISSUER");
  oidc_audiences = split_csv (getenv env "LINEA_OIDC_AUDIENCE");
  role_claim = get_env env "LINEA_OIDC_ROLE_CLAIM" "groups";
  log_level = get_env env "LINEA_LOG_LEVEL" "info";
}

unfoldable pub check_config : Config → Result Config
check_config c =
    if not (str_eq c.auth_mode "oidc") && not (str_eq c.auth_mode "disabled")
    then err (plain "LINEA_AUTH_MODE must be oidc|disabled")
    else if not (str_eq c.auth_mode "oidc")
    then ok c
    else if length c.oidc_issuers == 0 || length c.oidc_audiences == 0
    then err
        (plain "LINEA_OIDC_ISSUER and LINEA_OIDC_AUDIENCE are required when LINEA_AUTH_MODE=oidc")
    else if not (length c.oidc_issuers == length c.oidc_audiences)
    then err (plain "LINEA_OIDC_ISSUER and LINEA_OIDC_AUDIENCE must match")
    else ok c

unfoldable pub from_env : Environment → Result Config
unfolding check_config read_env
from_env env = check_config (read_env env)

-- MustGetInt, on what `os.Getenv` gives.
or_default : ℤ → Option ℤ → ℤ
or_default def none = def
or_default def (some n) = n

unfoldable pub must_get_int : Environment → String → ℤ → ℤ
unfolding or_default
must_get_int env k def =
    if str_eq (getenv env k) "" then def else or_default def (env.atoi (getenv env k))
