-- ===== src/Tests/Startup.antt =====
-- A start in production, with two issuers.
use linea_server.Prelude.{
  ◌+◌, ◌≡◌, refl, String, str_eq, ◌⧺◌, Option, none, some, [], ◌∷◌, if◌then◌else◌, ◌≢◌, All, false,
  trim_space,
}
use linea_server.Result.{ok, err, plain}
use linea_server.Config.{
  Environment, getenv, get_env, read_env, split_csv, cut_parts, keep_named, check_config, from_env,
}
use linea_server.Config.Csv.{has_comma, join_csv, IsEntry, split_csv-join_csv}
use linea_server.Auth.{Verifier}
use linea_server.Server.{Calls, World, start}
use linea_server.Server.Startup.{left_open, start-left_open}
use linea_server.Auth.Trusted.{Verifies}
use linea_server.Server.Production.{start_in_production}
use linea_server.Tests.Memory.{memory}
use linea_server.Tests.Files.{files}
use linea_server.Tests.Floats.{integers}

abbrev variables : String → Option String
variables k =
    if str_eq k "LINEA_ENV"
    then some "production"
    else if str_eq k "LINEA_OIDC_ISSUER"
    then some "https://a, https://b"
    else if str_eq k "LINEA_OIDC_AUDIENCE"
    then some "x,,y"
    else none

abbrev env : Environment
env = record { lookup = variables; to_lower = λ s. s; equal_fold = str_eq; atoi = λ s. none }

abbrev calls : Calls
calls = record {
  join = λ a b. a ⧺ "/" ⧺ b;
  open_db = λ in_memory path. ok [];
  close_db = λ db. ok tt;
  discover = λ issuer. ok (λ audience raw. err (plain "signature"));
  register = λ service addr. ok tt;
}

abbrev world : World
world = record { open_dbs = 0; disk = 0 }

split_csv_test : split_csv " a, b,,c " ≡ "a" ∷ "b" ∷ "c" ∷ []
unfolding split_csv trim_space
split_csv_test = refl

start-left_open_example :
    (start calls env "v" world).1.open_dbs ≡ left_open (start calls env "v" world).0 + 0
start-left_open_example = start-left_open calls env "v" world

starts : (srv : linea_server.Server.Server) × ((start calls env "v" world).0 ≡ ok srv)
unfolding start from_env trim_space linea_server.Config.auth_disabled
    linea_server.Tenants.new_manager linea_server.Auth.Discovery.new_verifier
starts = (_, refl)

start_in_production_example :
    (v : Verifier) × (starts.0.verifier ≡ some v)
    × Verifies calls.discover
        (split_csv (getenv env "LINEA_OIDC_ISSUER"))
        (split_csv (getenv env "LINEA_OIDC_AUDIENCE"))
        (get_env env "LINEA_OIDC_ROLE_CLAIM" "groups")
        v
start_in_production_example = start_in_production calls env "v" world refl starts.1

abbrev entry : (e : String) → has_comma e ≡ false → trim_space e ≡ e → e ≢ "" → IsEntry e
entry e p t n = record { plain = p; trimmed = t; named = n }

two_entries : All IsEntry ("https://a" ∷ "y" ∷ [])
unfolding has_comma trim_space
two_entries = (
  entry "https://a" refl refl (λ e. absurd (cc (e))),
  (entry "y" refl refl (λ e. absurd (cc (e))), tt),
)

split_csv-join_csv_example : split_csv (join_csv ("https://a" ∷ "y" ∷ [])) ≡ "https://a" ∷ "y" ∷ []
split_csv-join_csv_example = split_csv-join_csv ("https://a" ∷ "y" ∷ []) two_entries
