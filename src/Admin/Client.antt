-- ===== src/Admin/Client.antt =====
-- internal/admin/client/client.go: the client of the admin API, over http.Client and encoding/json,
-- which are parameters. B is the type of a response's body. The stream of events is left out.
use helix_gateway.Base.{
  ℕ, Text, text, is_empty, not, ◌&&◌, ◌==◌, leb, Bool, true, false, List, [], ◌++◌, Option, none,
  some, if◌then◌else◌,
}
use helix_gateway.Store.Model.{Route, Upstream, IpPolicy}
use helix_gateway.Metrics

pub record Client : Type 0 where
  pub base : Text
  pub user : Text
  pub pass : Text

-- The request that http.NewRequest and the calls after it build.
pub record WireRequest : Type 0 where
  pub method : Text
  pub url : Text
  pub body : Text
  pub is_json : Bool
  pub credentials : Option (Text × Text)

pub data ClientError : Type 0 where
  marshal_request build_request no_response decode_response : ClientError
  admin_api : Text → Text → Text → Text → ClientError

pub data Outcome (A : Type 0) : Type 0 where
  done : A → Outcome A
  failed : ClientError → Outcome A

-- The body of a call: none, or what json.Marshal makes of a value, `none` for its error.
pub data Content : Type 0 where
  bare : Content
  marshalled : Option Text → Content

-- What the client uses of encoding/json, of net/url and of net/http. `send` is http.Client.Do over
-- a network of state S; it gives the status and the body of a response. `read_error` is the decoding
-- of an error's body, which leaves the two texts empty where it fails.
pub record Web (B S : Type 0) : Type 0 where
  pub valid_url : Text → Bool
  pub send : WireRequest → S → Option (ℕ × B) × S
  pub read_error : B → Text × Text
  pub write_route : Route → Option Text
  pub write_upstream : Upstream → Option Text
  pub write_policy : IpPolicy → Option Text
  pub read_route : B → Option Route
  pub read_upstream : B → Option Upstream
  pub read_policy : B → Option IpPolicy
  pub read_routes : B → Option (List Route)
  pub read_upstreams : B → Option (List Upstream)
  pub read_policies : B → Option (List IpPolicy)
  pub read_snapshot : B → Option Metrics.Snapshot
  pub zero_route : Route
  pub zero_upstream : Upstream
  pub zero_policy : IpPolicy
  pub zero_snapshot : Metrics.Snapshot

-- The credentials of a request: both texts must be set.
abbrev pub login_of : Client → Option (Text × Text)
login_of c = if not (is_empty c.user) && not (is_empty c.pass) then some (c.user, c.pass) else none

module _ {B S A : Type 0} (w : Web B S) where
  -- The end of do, for a response: `out` is where the decoded value goes.
  unfoldable pub read_response : Text → Text → A → (B → Option A) → ℕ × B → Outcome A
  read_response method path out decode (code, body) =
      if code == 204
      then done out
      else if leb 400 code
      then (let (kind, msg) = w.read_error body in failed (admin_api method path kind msg))
      else elim (decode body) [ none ↦ failed decode_response | some a ↦ done a ]

  -- The part of do after the request is encoded.
  unfoldable pub exchange :
      Client → Text → Text → Text → Bool → A → (B → Option A) → S → Outcome A × S
  exchange c method path body is_json out decode s =
      if w.valid_url (c.base ++ path)
      then (let (answer, t) =
            w.send
              (record {
                method = method;
                url = c.base ++ path;
                body = body;
                is_json = is_json;
                credentials = login_of c;
              })
              s in
          elim answer [
            | none ↦ (failed no_response, t)
            | some x ↦ (read_response method path out decode x, t)
          ])
      else (failed build_request, s)

  -- do
  unfoldable pub do_request :
      Client → Text → Text → Content → A → (B → Option A) → S → Outcome A × S
  do_request c method path bare out decode s = exchange c method path [] false out decode s
  do_request c method path (marshalled none) out decode s = (failed marshal_request, s)
  do_request c method path (marshalled (some bytes)) out decode s =
      exchange c method path bytes true out decode s

module _ {B S : Type 0} (w : Web B S) (c : Client) where
  -- ListRoutes
  unfoldable pub list_routes : S → Outcome (List Route) × S
  list_routes = do_request w c (text "GET") (text "/admin/v1/routes") bare [] w.read_routes

  -- GetRoute
  unfoldable pub get_route : Text → S → Outcome Route × S
  get_route id =
      do_request w c (text "GET") (text "/admin/v1/routes/" ++ id) bare w.zero_route w.read_route

  -- CreateRoute
  unfoldable pub create_route : Route → S → Outcome Route × S
  create_route x =
      do_request w c (text "POST") (text "/admin/v1/routes") (marshalled (w.write_route x))
        w.zero_route w.read_route

  -- UpdateRoute
  unfoldable pub update_route : Text → Route → S → Outcome Route × S
  update_route id x =
      do_request w c (text "PUT") (text "/admin/v1/routes/" ++ id) (marshalled (w.write_route x))
        w.zero_route w.read_route

  -- DeleteRoute: there is no value to decode
  unfoldable pub delete_route : Text → S → Outcome (Unit {0}) × S
  delete_route id =
      do_request w c (text "DELETE") (text "/admin/v1/routes/" ++ id) bare tt (λ _. some tt)

  -- ToggleRoute
  unfoldable pub toggle_route : Text → S → Outcome Route × S
  toggle_route id =
      do_request w c (text "PATCH") (text "/admin/v1/routes/" ++ id ++ text "/toggle") bare
        w.zero_route w.read_route

  -- ListUpstreams
  unfoldable pub list_upstreams : S → Outcome (List Upstream) × S
  list_upstreams = do_request w c (text "GET") (text "/admin/v1/upstreams") bare [] w.read_upstreams

  -- GetUpstream
  unfoldable pub get_upstream : Text → S → Outcome Upstream × S
  get_upstream id =
      do_request w c (text "GET") (text "/admin/v1/upstreams/" ++ id) bare w.zero_upstream
        w.read_upstream

  -- CreateUpstream
  unfoldable pub create_upstream : Upstream → S → Outcome Upstream × S
  create_upstream x =
      do_request w c (text "POST") (text "/admin/v1/upstreams") (marshalled (w.write_upstream x))
        w.zero_upstream w.read_upstream

  -- UpdateUpstream
  unfoldable pub update_upstream : Text → Upstream → S → Outcome Upstream × S
  update_upstream id x =
      do_request w c (text "PUT") (text "/admin/v1/upstreams/" ++ id)
        (marshalled (w.write_upstream x)) w.zero_upstream w.read_upstream

  -- DeleteUpstream: there is no value to decode
  unfoldable pub delete_upstream : Text → S → Outcome (Unit {0}) × S
  delete_upstream id =
      do_request w c (text "DELETE") (text "/admin/v1/upstreams/" ++ id) bare tt (λ _. some tt)

  -- ListIPPolicies
  unfoldable pub list_policies : S → Outcome (List IpPolicy) × S
  list_policies = do_request w c (text "GET") (text "/admin/v1/policies") bare [] w.read_policies

  -- GetIPPolicy
  unfoldable pub get_policy : Text → S → Outcome IpPolicy × S
  get_policy id =
      do_request w c (text "GET") (text "/admin/v1/policies/" ++ id) bare w.zero_policy
        w.read_policy

  -- CreateIPPolicy
  unfoldable pub create_policy : IpPolicy → S → Outcome IpPolicy × S
  create_policy x =
      do_request w c (text "POST") (text "/admin/v1/policies") (marshalled (w.write_policy x))
        w.zero_policy w.read_policy

  -- UpdateIPPolicy
  unfoldable pub update_policy : Text → IpPolicy → S → Outcome IpPolicy × S
  update_policy id x =
      do_request w c (text "PUT") (text "/admin/v1/policies/" ++ id) (marshalled (w.write_policy x))
        w.zero_policy w.read_policy

  -- DeleteIPPolicy: there is no value to decode
  unfoldable pub delete_policy : Text → S → Outcome (Unit {0}) × S
  delete_policy id =
      do_request w c (text "DELETE") (text "/admin/v1/policies/" ++ id) bare tt (λ _. some tt)

  -- ToggleIPPolicy
  unfoldable pub toggle_policy : Text → S → Outcome IpPolicy × S
  toggle_policy id =
      do_request w c (text "PATCH") (text "/admin/v1/policies/" ++ id ++ text "/toggle") bare
        w.zero_policy w.read_policy

  -- GetMetrics
  unfoldable pub get_metrics : S → Outcome Metrics.Snapshot × S
  get_metrics =
      do_request w c (text "GET") (text "/admin/v1/metrics") bare w.zero_snapshot w.read_snapshot

  -- DeleteAPIKey
  unfoldable pub delete_api_key : Text → S → Outcome (Unit {0}) × S
  delete_api_key id =
      do_request w c (text "DELETE") (text "/admin/v1/keys/" ++ id) bare tt (λ _. some tt)
