-- ===== src/Examples/Gating.antt =====
-- Requests that meet the gates and the header plugins.
use helix_gateway.Base.{
  Text, text, text_eq, Bool, true, false, [], ◌∷◌, Option, none, some, all, ◌≡◌, ◌⊎◌,
}
use helix_gateway.Store.Model.{IpPolicy}
use helix_gateway.Store.State.{Store, empty}
use helix_gateway.Store.Policies.{list_ip_policies}
use helix_gateway.Plugins.Http.{HttpRequest, Handler, write_json, client_ip}
use helix_gateway.Plugins.Access.{ip_policy_enforcer}
use helix_gateway.Plugins.Access.Gates.{permits, ip_policy_enforcer-permits}
use helix_gateway.Plugins.Validator.{SigningMethod, hmac, Token}
use helix_gateway.Plugins.Rewriting.{UrlRewriteConfig, TransformConfig}

abbrev request : HttpRequest
request = record {
  method = text "GET";
  path = text "/v1/x";
  raw_query = [];
  headers = (text "Origin", text "http://a") ∷ [];
  cookies = (text "access_token", text "t") ∷ [];
  remote_addr = text "1.1.1.1:5";
  claims = none;
}

-- A backend that answers with the headers it starts from.
abbrev backend : Handler
backend w r = record { status = 200; headers = w; body = r.path }

-- A store that denies one network.
abbrev office : IpPolicy
office = record {
  id = text "p";
  name = text "office";
  mode = text "deny";
  cidrs = text "1.1.1.0/24" ∷ [];
  active = true;
  created_at = 1;
  updated_at = 1;
}

abbrev guarded : Store
guarded = record (empty [] (record { main = none; tmp = none })) {
  policies = (text "p", office) ∷ [];
}

-- Addresses are texts, and a network holds every address.
abbrev as_is : Text → Option Text
as_is s = some s

abbrev everything : Text → Option (Text → Bool)
everything s = some (λ a. true)

ip_policy_enforcer-permits_example :
    ((all (permits as_is everything (as_is (client_ip (λ a. a) request))) (list_ip_policies guarded)
        ≡ true)
      × (ip_policy_enforcer as_is everything (λ a. a) guarded backend [] request
          ≡ backend [] request))
    ⊎ ((all
            (permits as_is everything (as_is (client_ip (λ a. a) request)))
            (list_ip_policies guarded)
          ≡ false)
        × ((body : Text) × (ip_policy_enforcer as_is everything (λ a. a) guarded backend [] request
              ≡ write_json [] 403 body)))
ip_policy_enforcer-permits_example =
    ip_policy_enforcer-permits as_is everything (λ a. a) guarded backend [] request

-- A library that takes every token whose method gives the key "s", until the time 50.
abbrev take_any : Text → (SigningMethod → Option Text) → Option Token
take_any token key = elim (key hmac) [
  | none ↦ none
  | some k ↦ some (record {
    claims = record { subject = token; role = [] };
    expires_at = some 50;
    valid = text_eq k (text "s");
  })
]

abbrev moved : UrlRewriteConfig
moved = record { prefix_match = text "/v1"; replacement = text "/v2" }

abbrev edits : TransformConfig
edits = record {
  set_request_headers = [];
  remove_request_headers = text "Origin" ∷ [];
  set_response_headers = (text "Via", text "helix") ∷ [];
  remove_response_headers = text "Server" ∷ [];
  url_rewrite = some moved;
}
