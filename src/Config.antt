-- ===== src/Config.antt =====
-- internal/config/config.go: the variables of the environment and the file .env.
pub mod DotEnv
pub mod Lists
use helix_gateway.Base.{
  ℕ, Text, text, text_eq, is_empty, has_prefix, atoi, ◌==◌, ◌||◌, Bool, true, false, ℤ, pos, List,
  [], ◌∷◌, Option, none, some, Table, lookup, insert, any, if◌then◌else◌,
}
use helix_gateway.Plugins.Http.{trim_space}

-- os.Getenv
unfoldable pub getenv : Text → Table Text → Text
getenv k e = elim (lookup k e) [ none ↦ [] | some v ↦ v ]

-- os.Setenv, which refuses a zero byte
unfoldable pub setenv : Text → Text → Table Text → Table Text
setenv k v e = if any (λ c. c == 0) k || any (λ c. c == 0) v then e else insert k v e

-- strings.Split(s, sep), for one byte
unfoldable pub split : ℕ → Text → List Text
split sep [] = [] ∷ []
split sep (c ∷ s) =
    let rest = split sep s in
    if c == sep then [] ∷ rest else elim rest [ [] ↦ (c ∷ []) ∷ [] | w ∷ ws ↦ (c ∷ w) ∷ ws ]

-- strings.Cut(s, "=")
unfoldable pub cut : Text → Option (Text × Text)
cut [] = none
cut (c ∷ s) =
    let rest = cut s in
    if c == b'=' then some ([], s) else elim rest [ none ↦ none | some (k, v) ↦ some (c ∷ k, v) ]

-- The key and the value of a line of the file, `none` for a line that is passed over.
unfoldable pub assignment : Text → Option (Text × Text)
assignment raw =
    let line = trim_space raw in
    if is_empty line || has_prefix line (text "#") then none else elim (cut line) [
      | none ↦ none
      | some (k, v) ↦ if is_empty (trim_space k) then none else some (trim_space k, trim_space v)
    ]

-- One round of the loop of LoadDotEnv.
unfoldable pub load_line : Text → Table Text → Table Text
load_line line e = elim (assignment line) [
  | none ↦ e
  | some (k, v) ↦ if is_empty (getenv k e) then setenv k v e else e
]

unfoldable pub load_lines : List Text → Table Text → Table Text
load_lines [] e = e
load_lines (l ∷ ls) e = load_lines ls (load_line l e)

-- LoadDotEnv, on the bytes of the file; `none` is an error of the read.
unfoldable pub load_dot_env : Option Text → Table Text → Table Text
load_dot_env none e = e
load_dot_env (some bytes) e = load_lines (split 10 bytes) e

-- env, exported as EnvOrDefault
unfoldable pub env : Table Text → Text → Text → Text
env e k default = if is_empty (getenv k e) then default else getenv k e

-- The loop of splitEnv over the parts.
unfoldable pub clean : List Text → List Text
clean [] = []
clean (s ∷ ss) =
    let rest = clean ss in if is_empty (trim_space s) then rest else trim_space s ∷ rest

-- splitEnv
unfoldable pub split_env : Table Text → Text → Text → List Text
split_env e k default =
    if is_empty (env e k default) then [] else clean (split b',' (env e k default))

-- envInt, envFloat and envDur, by the parser of the type
unfoldable pub parse_env {ℓ} : {A : Type ℓ} → (Text → Option A) → Table Text → Text → A → A
parse_env parse e k default =
    if is_empty (getenv k e)
    then default
    else elim (parse (getenv k e)) [ none ↦ default | some a ↦ a ]

pub record Redis : Type 0 where
  pub addr : Text
  pub password : Text
  pub db : ℤ

-- A float64 is m / 10^k, and a duration its nanoseconds.
pub record Decimal : Type 0 where
  pub m : ℤ
  pub k : ℕ

pub record LimiterCfg : Type 0 where
  pub tb_capacity : Decimal
  pub tb_rate : Decimal
  pub sw_window : ℤ
  pub sw_limit : ℤ

pub record RateLimit : Type 0 where
  pub ip : LimiterCfg
  pub user : LimiterCfg
  pub auth : LimiterCfg

pub record Config : Type 0 where
  pub port : Text
  pub backend_url : Text
  pub jwt_secret : Text
  pub allowed_origins : List Text
  pub public_paths : List Text
  pub bypass_prefixes : List Text
  pub redis : Redis
  pub rate_limit : RateLimit

abbrev decimal : ℕ → ℕ → Decimal
decimal m k = record { m = pos m; k = k }

abbrev minute : ℤ
minute = pos 60000000000

-- Load, over strconv.ParseFloat and time.ParseDuration
unfoldable pub load : (Text → Option Decimal) → (Text → Option ℤ) → Table Text → Config
load float duration e = record {
  port = env e (text "PORT") (text "8090");
  backend_url = env e (text "BACKEND_URL") (text "http://backend:8080");
  jwt_secret = env e (text "JWT_SECRET") [];
  allowed_origins = split_env e (text "ALLOWED_ORIGINS") (text "*");
  public_paths = split_env e (text "PUBLIC_PATHS") (text "/health");
  bypass_prefixes = split_env e (text "BYPASS_PREFIXES") [];
  redis = record {
    addr = env e (text "REDIS_ADDR") (text "redis:6379");
    password = env e (text "REDIS_PASSWORD") [];
    db = parse_env atoi e (text "REDIS_DB") (pos 0);
  };
  rate_limit = record {
    ip = record {
      tb_capacity = parse_env float e (text "RL_IP_TB_CAPACITY") (decimal 100 0);
      tb_rate = parse_env float e (text "RL_IP_TB_RATE") (decimal 10 0);
      sw_window = parse_env duration e (text "RL_IP_SW_WINDOW") minute;
      sw_limit = parse_env atoi e (text "RL_IP_SW_LIMIT") (pos 300);
    };
    user = record {
      tb_capacity = parse_env float e (text "RL_USER_TB_CAPACITY") (decimal 500 0);
      tb_rate = parse_env float e (text "RL_USER_TB_RATE") (decimal 50 0);
      sw_window = parse_env duration e (text "RL_USER_SW_WINDOW") minute;
      sw_limit = parse_env atoi e (text "RL_USER_SW_LIMIT") (pos 1000);
    };
    auth = record {
      tb_capacity = parse_env float e (text "RL_AUTH_TB_CAPACITY") (decimal 5 0);
      tb_rate = parse_env float e (text "RL_AUTH_TB_RATE") (decimal 1 1);
      sw_window = parse_env duration e (text "RL_AUTH_SW_WINDOW") minute;
      sw_limit = parse_env atoi e (text "RL_AUTH_SW_LIMIT") (pos 5);
    };
  };
}
