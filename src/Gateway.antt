-- ===== src/Gateway.antt =====
-- cmd/main.go: the readers of plugin settings, the registry, the mux and the chain of plugins in
-- front of it. The plugins that keep state or only report are parameters.
pub mod Settings
use helix_gateway.Base.{
  zero, ℕ, Text, text, text_eq, is_empty, Bool, true, false, ℤ, pos, negsuc, suc, ◌/◌, ◌^◌, ◌-◌,
  List, [], ◌∷◌, Option, none, some, Table, insert, zero, if◌then◌else◌,
}
use helix_gateway.Store.Model.{
  Value, Values, Fields, null, bool, num, str, arr, obj, nil, cons, end, field,
}
use helix_gateway.Plugins.Http.{HttpRequest, Response, Handler, Plugin, Registry, register, chain}
use helix_gateway.Plugins.Rewriting.{
  TransformConfig, UrlRewriteConfig, transform, cors, security_headers,
}
use helix_gateway.Config.{Config, split_env}

-- c[key] of a map that is read from JSON
unfoldable pub get_field : Text → Fields → Option Value
get_field key end = none
get_field key (field k v rest) =
    let later = get_field key rest in if text_eq k key then some v else later

-- c[key].(string), empty where it is not one
abbrev pub string_of : Option Value → Text
string_of none = []
string_of (some null) = []
string_of (some (bool b)) = []
string_of (some (num m k)) = []
string_of (some (str s)) = s
string_of (some (arr vs)) = []
string_of (some (obj fs)) = []

-- int(v) of a float64, which drops the fraction
abbrev pub truncate : ℤ → ℕ → ℤ
truncate (pos n) k = pos (n / 10 ^ k)
truncate (negsuc n) k = elim (suc n / 10 ^ k) [ zero ↦ pos 0 | suc q ↦ negsuc q ]

-- configInt: a number of JSON is a float64.
unfoldable pub config_int : Fields → Text → ℤ → ℤ
config_int c key default = elim (get_field key c) [
  | none ↦ default
  | some v ↦ elim v [ num m k ↦ truncate m k | _ ↦ default ]
]

-- A loop over a map that keeps the strings.
unfoldable pub string_fields : Fields → Table Text
string_fields end = []
string_fields (field k (str s) rest) = insert k s (string_fields rest)
string_fields (field k null rest) = string_fields rest
string_fields (field k (bool b) rest) = string_fields rest
string_fields (field k (num m e) rest) = string_fields rest
string_fields (field k (arr vs) rest) = string_fields rest
string_fields (field k (obj fs) rest) = string_fields rest

-- A loop over a list that keeps the strings.
unfoldable pub strings : Values → List Text
strings nil = []
strings (cons (str s) rest) = s ∷ strings rest
strings (cons null rest) = strings rest
strings (cons (bool b) rest) = strings rest
strings (cons (num m e) rest) = strings rest
strings (cons (arr vs) rest) = strings rest
strings (cons (obj fs) rest) = strings rest

abbrev pub headers_of : Option Value → Table Text
headers_of none = []
headers_of (some null) = []
headers_of (some (bool b)) = []
headers_of (some (num m k)) = []
headers_of (some (str s)) = []
headers_of (some (arr vs)) = []
headers_of (some (obj fs)) = string_fields fs

abbrev pub names_of : Option Value → List Text
names_of none = []
names_of (some null) = []
names_of (some (bool b)) = []
names_of (some (num m k)) = []
names_of (some (str s)) = []
names_of (some (arr vs)) = strings vs
names_of (some (obj fs)) = []

abbrev pub rewrite_of : Option Value → Option UrlRewriteConfig
rewrite_of none = none
rewrite_of (some null) = none
rewrite_of (some (bool b)) = none
rewrite_of (some (num m k)) = none
rewrite_of (some (str s)) = none
rewrite_of (some (arr vs)) = none
rewrite_of (some (obj fs)) =
    let prefix = string_of (get_field (text "prefix_match") fs) in
    if is_empty prefix
    then none
    else some (record {
      prefix_match = prefix;
      replacement = string_of (get_field (text "replacement") fs);
    })

-- transformConfigFromMap; a missing map of headers and an empty one are alike.
unfoldable pub transform_config_from_map : Fields → TransformConfig
transform_config_from_map c = record {
  set_request_headers = headers_of (get_field (text "set_request_headers") c);
  remove_request_headers = names_of (get_field (text "remove_request_headers") c);
  set_response_headers = headers_of (get_field (text "set_response_headers") c);
  remove_response_headers = names_of (get_field (text "remove_response_headers") c);
  url_rewrite = rewrite_of (get_field (text "url_rewrite") c);
}

-- The plugins that main builds, of which only those without state are in this library.
pub record Builtins : Type 0 where
  pub correlation_id : Plugin
  pub tracing : Plugin
  pub logging : Plugin
  pub http_metrics : Plugin
  pub request_security : Plugin
  pub circuit_breaker : Plugin
  pub jwt : List Text → Plugin
  pub ip_rate_limit : List Text → Plugin
  pub user_rate_limit : Plugin
  pub auth_rate_limit : Plugin
  pub ip_policy_enforcer : Plugin
  pub route_rate_limit : ℤ → ℤ → Plugin
  pub api_key_auth : Text → Plugin

-- The calls of pluginReg.Register.
unfoldable pub plugin_registry : Builtins → Config → Registry
plugin_registry b cfg =
    register (text "api-key-auth")
      (λ c. some (b.api_key_auth (string_of (get_field (text "header") c))))
      (register (text "transform") (λ c. some (transform (transform_config_from_map c)))
        (register (text "route-rate-limit")
          (λ c. some (
            b.route_rate_limit (config_int c (text "rps") (pos 100))
              (config_int c (text "burst") (pos 200))))
          (register (text "ip-policy") (λ c. some b.ip_policy_enforcer)
            (register (text "auth-rate-limit") (λ c. some b.auth_rate_limit)
              (register (text "user-rate-limit") (λ c. some b.user_rate_limit)
                (register (text "ip-rate-limit") (λ c. some (b.ip_rate_limit cfg.bypass_prefixes))
                  (register (text "jwt-auth") (λ c. some (b.jwt cfg.public_paths))
                    (register (text "circuit-breaker") (λ c. some b.circuit_breaker)
                      (register (text "cors")
                        (λ c. some (cors (names_of (get_field (text "allowed_origins") c))))
                        (register (text "security-headers") (λ c. some security_headers)
                          []))))))))))

-- The mux: the health answer, the handler of the metrics, and the router for all else.
unfoldable pub gateway_mux : Handler → Handler → Handler
gateway_mux metrics router w r =
    if text_eq r.path (text "/health")
    then record {
      status = 200;
      headers = insert (text "Content-Type") (text "application/json") w;
      body = text "{\"status\":\"ok\"}";
    }
    else if text_eq r.path (text "/metrics")
    then metrics w r
    else router w r

-- The handler of the gateway: the plugins in front of the mux, in their order.
unfoldable pub gateway_handler : Builtins → Config → Handler → Handler
gateway_handler b cfg mux = chain mux (
    b.correlation_id
    ∷ b.tracing
    ∷ b.logging
    ∷ b.http_metrics
    ∷ security_headers
    ∷ cors cfg.allowed_origins
    ∷ b.request_security
    ∷ b.ip_policy_enforcer
    ∷ b.auth_rate_limit
    ∷ b.ip_rate_limit cfg.bypass_prefixes
    ∷ b.jwt cfg.public_paths
    ∷ b.user_rate_limit
    ∷ [])

-- The handler behind the router where no route fits.
unfoldable pub fallback : Builtins → Handler → Handler
fallback b proxy = chain proxy (b.circuit_breaker ∷ [])

-- tlsDomains
unfoldable pub tls_domains : Table Text → List Text
tls_domains e = split_env e (text "HELIX_TLS_DOMAINS") []
