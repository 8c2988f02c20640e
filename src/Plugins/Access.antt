-- ===== src/Plugins/Access.antt =====
-- internal/plugin/builtin: ippolicy.go, apikey.go and jwt.go, which let a request through or answer
-- it themselves.
pub mod Gates
use helix_gateway.Base.{
  ◌||◌, ◌&&◌, not, Text, text, text_eq, is_empty, has_prefix, has_suffix, trim_prefix, Bool, true,
  false, List, [], ◌∷◌, ◌++◌, Option, none, some, any, lookup, insert, if◌then◌else◌,
}
use helix_gateway.Store.Model.{IpPolicy, ApiKey}
use helix_gateway.Store.State.{Store}
use helix_gateway.Store.Policies.{list_ip_policies}
use helix_gateway.Store.Keys.{validate_api_key}
use helix_gateway.Plugins.Http.{
  Claims, HttpRequest, Response, Handler, Plugin, header, write_json, client_ip,
}

-- Package net: addresses, net.ParseIP, and the test of the network that net.ParseCIDR gives.
module _ {A : Type 0} (parse_ip : Text → Option A) (parse_cidr : Text → Option (A → Bool)) where
  -- cidrContains: a text that is no network is passed over.
  unfoldable pub cidr_contains : List Text → Option A → Bool
  cidr_contains cidrs none = false
  cidr_contains [] (some ip) = false
  cidr_contains (cidr ∷ cidrs) (some ip) =
      let rest = cidr_contains cidrs (some ip) in
      elim (parse_cidr cidr) [ none ↦ rest | some contains ↦ (if contains ip then true else rest) ]

  -- The loop of IPPolicyEnforcer: the body of the answer that blocks the request.
  unfoldable pub first_block : List IpPolicy → Option A → Option Text
  first_block [] ip = none
  first_block (p ∷ ps) ip =
      let rest = first_block ps ip in
      let matched = cidr_contains p.cidrs ip in
      if not p.active
      then rest
      else if text_eq p.mode (text "allow") && not matched
      then some (text "{\"error\":\"ip_not_allowed\"}")
      else if text_eq p.mode (text "deny") && matched
      then some (text "{\"error\":\"ip_denied\"}")
      else rest

  -- IPPolicyEnforcer
  unfoldable pub ip_policy_enforcer : (Text → Text) → Store → Plugin
  ip_policy_enforcer split_host st next w r =
      elim (first_block (list_ip_policies st) (parse_ip (client_ip split_host r))) [
        | some body ↦ write_json w 403 body
        | none ↦ next w r
      ]

-- The header that APIKeyAuth reads.
abbrev pub key_header : Text → Text
key_header header_name = if is_empty header_name then text "X-Api-Key" else header_name

-- APIKeyAuth, over the digest of the store
unfoldable pub api_key_auth : (Text → Text) → Store → Text → Plugin
api_key_auth hash_key st header_name next w r =
    let key = header (key_header header_name) r in
    if is_empty key
    then write_json w 401 (text "{\"error\":\"api_key_required\"}")
    else elim (validate_api_key hash_key st key) [
      | none ↦ write_json w 401 (text "{\"error\":\"api_key_invalid\"}")
      | some k ↦
          next w (record r { headers = insert (text "X-Gateway-Api-Key-Name") k.name r.headers })
    ]

-- isPublic
unfoldable pub is_public : Text → List Text → Bool
is_public path [] = false
is_public path (p ∷ ps) =
    let rest = is_public path ps in
    if has_suffix p (text "/")
    then (if has_prefix path p then true else rest)
    else (if text_eq path p then true else rest)

-- extractBearer
unfoldable pub extract_bearer : Text → Text
extract_bearer h = if has_prefix h (text "Bearer ") then trim_prefix h (text "Bearer ") else []

-- The token of the header, or else of the cookie.
unfoldable pub token_in : Text → Option Text → Text
token_in authorization cookie =
    let bearer = extract_bearer authorization in
    if is_empty bearer then elim cookie [ none ↦ bearer | some c ↦ c ] else bearer

abbrev pub token_of : HttpRequest → Text
token_of r = token_in (header (text "Authorization") r) (lookup (text "access_token") r.cookies)

-- The request that JWT passes on.
abbrev pub with_claims : Text → Claims → HttpRequest → HttpRequest
with_claims token c r = record r {
  headers =
      (if is_empty (header (text "Authorization") r)
        then insert (text "Authorization") (text "Bearer " ++ token) r.headers
        else r.headers);
  claims = some c;
}

-- JWT; `parse` is Validator.Parse, which gives `none` for an error.
unfoldable pub jwt : (Text → Option Claims) → List Text → Plugin
jwt parse public_paths next w r =
    if text_eq r.method (text "OPTIONS") || is_public r.path public_paths
    then next w r
    else if is_empty (token_of r)
    then write_json w 401 (text "{\"error\":\"missing_token\"}")
    else elim (parse (token_of r)) [
      | none ↦ write_json w 401 (text "{\"error\":\"invalid_token\"}")
      | some c ↦ next w (with_claims (token_of r) c r)
    ]
