-- ===== src/Examples/Settings.antt =====
-- A file .env, lists of the environment, and the settings of a transformation.
use helix_gateway.Base.{
  Text, text, text_eq, is_empty, [], ◌∷◌, ◌++◌, some, refl, ◌≡◌, Table, if◌then◌else◌,
}
use helix_gateway.Config.{getenv, split, load_dot_env}
use helix_gateway.Config.DotEnv.{first_given, load_dot_env-getenv}
use helix_gateway.Plugins.Rewriting.{TransformConfig}
use helix_gateway.Gateway.{transform_config_from_map}
use helix_gateway.Gateway.Settings.{json_settings, SameSettings, transform_config_from_map-json}
use helix_gateway.Base.{lookup}

-- The shell has set PORT.
abbrev shell : Table Text
shell = (text "PORT", text "80") ∷ (text "ALLOWED_ORIGINS", text "a,b") ∷ []

abbrev dot_env : Text
dot_env = text "# gateway" ++ 10 ∷ text "PORT = 9090" ++ 10 ∷ text "REDIS_ADDR=r:1"

load_dot_env-getenv_example : getenv (text "PORT") (load_dot_env (some dot_env) shell) ≡ (
    if is_empty (getenv (text "PORT") shell)
    then first_given (text "PORT") (split 10 dot_env)
    else getenv (text "PORT") shell)
load_dot_env-getenv_example = load_dot_env-getenv (text "PORT") dot_env shell

port_kept : getenv (text "PORT") (load_dot_env (some dot_env) shell) ≡ text "80"
unfolding getenv lookup text_eq load_dot_env
port_kept = load_dot_env-getenv (text "PORT") dot_env shell

abbrev stripping : TransformConfig
stripping = record {
  set_request_headers = (text "X-Env", text "prod") ∷ [];
  remove_request_headers = text "Cookie" ∷ [];
  set_response_headers = [];
  remove_response_headers = text "Server" ∷ [];
  url_rewrite = some (record { prefix_match = text "/v1"; replacement = text "/v2" });
}

transform_config_from_map-json_example :
    SameSettings (transform_config_from_map (json_settings stripping)) stripping
transform_config_from_map-json_example = transform_config_from_map-json stripping refl
