-- ===== src/Plugins/Access/Gates.antt =====
-- What the gates let through: each either answers with its refusal, or passes the request on with a
-- reason.
use helix_gateway.Base.{
  ◌||◌, ◌&&◌, not, Text, text, text_eq, is_empty, trim_prefix-append, has_prefix-append, Bool, true,
  false, List, [], ◌∷◌, ◌++◌, Option, none, some, all, any, lookup, insert, lookup-insert_self,
  if◌then◌else◌, ◌≡◌, ◌⊎◌, inl, inr, refl, ◌∙◌, ap, Bool-cases, Option-cases, Table,
}
use helix_gateway.Store.Model.{IpPolicy, ApiKey}
use helix_gateway.Store.State.{Store}
use helix_gateway.Store.Policies.{list_ip_policies}
use helix_gateway.Store.Keys.{validate_api_key}
use helix_gateway.Plugins.Http.{Claims, HttpRequest, Handler, header, write_json, client_ip}
use helix_gateway.Plugins.Access.{
  cidr_contains, first_block, ip_policy_enforcer, key_header, api_key_auth, is_public,
  extract_bearer, token_in, token_of, with_claims, jwt,
}

-- What a search for a refusal finds, and whether all policies permit.
abbrev Outcome : Option Text → Bool → Type 0
Outcome found permitted =
    ((found ≡ none) × (permitted ≡ true))
    ⊎ ((body : Text) × ((found ≡ some body) × (permitted ≡ false)))

block-Outcome :
    (active allows denies matched : Bool) (b1 b2 : Text) (rest : Option Text) (all_rest : Bool)
    → Outcome rest all_rest
    → Outcome
        (if not active
          then rest
          else if allows && not matched
          then some b1
          else if denies && matched
          then some b2
          else rest)
        ((not active || ((not allows || matched) && (not denies || not matched))) && all_rest)
block-Outcome false allows denies matched b1 b2 rest all_rest h = h
block-Outcome true true denies false b1 b2 rest all_rest h = inr (b1, (refl, refl))
block-Outcome true true false true b1 b2 rest all_rest h = h
block-Outcome true true true true b1 b2 rest all_rest h = inr (b2, (refl, refl))
block-Outcome true false false matched b1 b2 rest all_rest h = h
block-Outcome true false true true b1 b2 rest all_rest h = inr (b2, (refl, refl))
block-Outcome true false true false b1 b2 rest all_rest h = h

module _ {A : Type 0} (parse_ip : Text → Option A) (parse_cidr : Text → Option (A → Bool)) where
  -- The address lies in one of the networks of the list that parse.
  abbrev pub holds : Option (A → Bool) → A → Bool
  holds none ip = false
  holds (some contains) ip = contains ip

  abbrev pub is_listed : List Text → Option A → Bool
  is_listed cidrs none = false
  is_listed cidrs (some ip) = any (λ cidr. holds (parse_cidr cidr) ip) cidrs

  cidr_contains-listed :
      (cidrs : List Text) (ip : Option A)
      → cidr_contains parse_ip parse_cidr cidrs ip ≡ is_listed cidrs ip
  unfolding cidr_contains
  cidr_contains-listed cidrs none = refl
  cidr_contains-listed [] (some ip) = refl
  cidr_contains-listed (cidr ∷ cidrs) (some ip) = elim (Option-cases (parse_cidr cidr)) [
    | inl n ↦ rw (n, cidr_contains) (cidr_contains-listed cidrs (some ip))
    | inr (net, n) ↦
        rw (n, cidr_contains, cidr_contains-listed cidrs (some ip))
          (elim (Bool-cases (net ip)) [ inl t ↦ rw t refl | inr f ↦ rw f refl ])
  ]

  -- An active policy asks that the address is in its networks, or that it is not.
  abbrev pub permits : Option A → IpPolicy → Bool
  permits ip p =
      not p.active
      || ((not (text_eq p.mode (text "allow")) || is_listed p.cidrs ip)
          && (not (text_eq p.mode (text "deny")) || not (is_listed p.cidrs ip)))

  first_block-permits :
      (ps : List IpPolicy) (ip : Option A)
      → ((first_block parse_ip parse_cidr ps ip ≡ none) × (all (permits ip) ps ≡ true))
        ⊎ ((body : Text) × ((first_block parse_ip parse_cidr ps ip ≡ some body)
              × (all (permits ip) ps ≡ false)))
  unfolding first_block
  first_block-permits [] ip = inl (refl, refl)
  first_block-permits (p ∷ ps) ip = rw (cidr_contains-listed p.cidrs ip) (
      block-Outcome p.active (text_eq p.mode (text "allow")) (text_eq p.mode (text "deny"))
        (is_listed p.cidrs ip) _ _ (first_block parse_ip parse_cidr ps ip) (all (permits ip) ps)
        (first_block-permits ps ip))

  -- A request passes if every policy of the store permits its address, and is refused with 403
  -- otherwise.
  pub ip_policy_enforcer-permits :
      (split_host : Text → Text) (st : Store) (next : Handler) (w : Table Text) (r : HttpRequest)
      → ((all (permits (parse_ip (client_ip split_host r))) (list_ip_policies st) ≡ true)
          × (ip_policy_enforcer parse_ip parse_cidr split_host st next w r ≡ next w r))
        ⊎ ((all (permits (parse_ip (client_ip split_host r))) (list_ip_policies st) ≡ false)
            × ((body : Text) × (ip_policy_enforcer parse_ip parse_cidr split_host st next w r
                  ≡ write_json w 403 body)))
  unfolding ip_policy_enforcer
  ip_policy_enforcer-permits split_host st next w r =
      elim (first_block-permits (list_ip_policies st) (parse_ip (client_ip split_host r))) [
        | inl (n, t) ↦ inl (t, rw (n, ip_policy_enforcer) refl)
        | inr (body, (n, t)) ↦ inr (t, (body, rw (n, ip_policy_enforcer) refl))
      ]

-- A request reaches the handler behind the key check only with a key that the store accepts, and
-- with the name of that key; every other request is refused with 401.
api_key_auth-valid :
    (hash_key : Text → Text) (st : Store) (header_name : Text) (next : Handler) (w : Table Text)
    (r : HttpRequest)
    → ((body : Text) × (api_key_auth hash_key st header_name next w r ≡ write_json w 401 body))
      ⊎ ((k : ApiKey) × (validate_api_key hash_key st (header (key_header header_name) r) ≡ some k)
          × (api_key_auth hash_key st header_name next w r
              ≡ next w
                  (record r { headers = insert (text "X-Gateway-Api-Key-Name") k.name r.headers })))
unfolding api_key_auth
api_key_auth-valid hash_key st header_name next w r =
    let key = header (key_header header_name) r in
    elim (Bool-cases (is_empty key)) [
      | inl e ↦ inl (text "{\"error\":\"api_key_required\"}", rw (e, api_key_auth) refl)
      | inr f ↦ elim (Option-cases (validate_api_key hash_key st key)) [
        | inl n ↦ inl (text "{\"error\":\"api_key_invalid\"}", rw (f, n, api_key_auth) refl)
        | inr (k, n) ↦ inr (k, n, rw (f, n, api_key_auth) refl)
      ]
    ]

-- A request that is not OPTIONS and whose path is not public reaches the handler behind JWT only
-- with a token that the validator accepts, and with the claims of that token; every other one is
-- refused with 401.
pub jwt-valid :
    (parse : Text → Option Claims) (public_paths : List Text) (next : Handler) (w : Table Text)
    (r : HttpRequest)
    → (text_eq r.method (text "OPTIONS") || is_public r.path public_paths) ≡ false
    → ((body : Text) × (jwt parse public_paths next w r ≡ write_json w 401 body))
      ⊎ ((c : Claims) × (parse (token_of r) ≡ some c)
          × (jwt parse public_paths next w r ≡ next w (with_claims (token_of r) c r)))
unfolding jwt
jwt-valid parse public_paths next w r gated = elim (Bool-cases (is_empty (token_of r))) [
  | inl e ↦ inl (text "{\"error\":\"missing_token\"}", rw (gated, e, jwt) refl)
  | inr f ↦ elim (Option-cases (parse (token_of r))) [
    | inl n ↦ inl (text "{\"error\":\"invalid_token\"}", rw (gated, f, n, jwt) refl)
    | inr (c, n) ↦ inr (c, n, rw (gated, f, n, jwt) refl)
  ]
]

extract_bearer-append : (token : Text) → extract_bearer (text "Bearer " ++ token) ≡ token
unfolding extract_bearer
extract_bearer-append token =
    rw (has_prefix-append (text "Bearer ") token, extract_bearer)
      (trim_prefix-append (text "Bearer ") token)

token_in-append :
    (token : Text) (cookie : Option Text)
    → is_empty token ≡ false
    → token_in (text "Bearer " ++ token) cookie ≡ token
unfolding token_in
token_in-append token cookie full = rw (extract_bearer-append token, token_in) (rw full refl)

-- The Authorization header of a table.
abbrev authorization : Table Text → Text
authorization headers = elim (lookup (text "Authorization") headers) [ none ↦ [] | some v ↦ v ]

authorization-insert :
    (b : Bool) (token : Text) (headers : Table Text)
    → authorization
        (if b then insert (text "Authorization") (text "Bearer " ++ token) headers else headers)
      ≡ (if b then text "Bearer " ++ token else authorization headers)
authorization-insert false token headers = refl
authorization-insert true token headers = λ i.
    elim (lookup-insert_self (text "Authorization") (text "Bearer " ++ token) headers i) [
      | none ↦ []
      | some v ↦ v
    ]

with_claims-header :
    (token : Text) (c : Claims) (r : HttpRequest) (b : Bool)
    → is_empty (header (text "Authorization") r) ≡ b
    → header (text "Authorization") (with_claims token c r)
      ≡ (if b then text "Bearer " ++ token else header (text "Authorization") r)
with_claims-header token c r b h =
    (λ i. authorization (
      if h i then insert (text "Authorization") (text "Bearer " ++ token) r.headers else r.headers))
    ∙ authorization-insert b token r.headers

-- The request that JWT passes on has the same token as the one that it got, if that had one.
token_of-with_claims :
    (r : HttpRequest) (c : Claims)
    → is_empty (token_of r) ≡ false
    → token_of (with_claims (token_of r) c r) ≡ token_of r
token_of-with_claims r c full = elim (Bool-cases (is_empty (header (text "Authorization") r))) [
  | inl e ↦
      ap (λ h. token_in h (lookup (text "access_token") r.cookies))
        (with_claims-header (token_of r) c r true e)
      ∙ token_in-append (token_of r) _ full
  | inr f ↦
      ap (λ h. token_in h (lookup (text "access_token") r.cookies))
        (with_claims-header (token_of r) c r false f)
]
