-- ===== src/Store/Model.antt =====
-- internal/store/model.go: the configuration records. A time is the number of its instant.
use helix_gateway.Base.{ℕ, Text, ℤ, Bool, List, Table}

-- A decoded JSON value (map[string]any). A number is its decimal: `num m k` is m / 10^k.
mutual
  pub data Value : Type 0 where
    null : Value
    bool : Bool → Value
    num : ℤ → ℕ → Value
    str : Text → Value
    arr : Values → Value
    obj : Fields → Value

  pub data Values : Type 0 where
    nil : Values
    cons : Value → Values → Values

  pub data Fields : Type 0 where
    end : Fields
    field : Text → Value → Fields → Fields

-- The string type PathMode, by the constants that the program compares it with.
pub data PathMode : Type 0 where
  prefix exact regex : PathMode
  other : Text → PathMode

pub record MatchRule : Type 0 where
  pub hosts : List Text
  pub path : Text
  pub path_mode : PathMode
  pub methods : List Text
  pub headers : Table Text

pub record WeightedUpstream : Type 0 where
  pub upstream_id : Text
  pub weight : ℤ

pub record PluginRef : Type 0 where
  pub name : Text
  pub config : Fields

pub record Route : Type 0 where
  pub id : Text
  pub name : Text
  pub active : Bool
  pub match : MatchRule
  pub upstream_id : Text
  pub plugins : List PluginRef
  pub strip_path : Bool
  pub weighted_upstreams : List WeightedUpstream
  pub created_at : ℕ
  pub updated_at : ℕ

pub record Upstream : Type 0 where
  pub id : Text
  pub name : Text
  pub url : Text
  pub protocol : Text
  pub endpoints : List Text
  pub lb_algorithm : Text
  pub health_path : Text
  pub created_at : ℕ
  pub updated_at : ℕ

pub record IpPolicy : Type 0 where
  pub id : Text
  pub name : Text
  pub mode : Text
  pub cidrs : List Text
  pub active : Bool
  pub created_at : ℕ
  pub updated_at : ℕ

pub record ApiKey : Type 0 where
  pub id : Text
  pub name : Text
  pub key_hash : Text
  pub active : Bool
  pub scopes : List Text
  pub created_at : ℕ
  pub updated_at : ℕ

pub record Snapshot : Type 0 where
  pub version : ℕ
  pub routes : List Route
  pub upstreams : List Upstream
  pub ip_policies : List IpPolicy
  pub api_keys : List ApiKey
