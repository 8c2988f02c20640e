-- ===== src/Examples/Remote.antt =====
-- The admin client and the reconcilers before the admin server of `Admin`. A response carries its
-- value as it is.
use helix_gateway.Base.{Text, text, text_eq, true, false, [], Option, none, some, ◌≡◌, refl}
use helix_gateway.Store.Model.{Route, Upstream, IpPolicy}
use helix_gateway.Store.Calls.{creates_upstream, exec, is_toggle}
use helix_gateway.Admin.{Env, Handlers, Payload, limited}
use helix_gateway.Admin
use helix_gateway.Admin.Mux.Segments.{is_plain}
use helix_gateway.Admin.Server.{admitted}
use helix_gateway.Admin.Client.{
  Client, Web, WireRequest, Outcome, done, failed, admin_api, decode_response, login_of,
}
use helix_gateway.Admin.Client
use helix_gateway.Admin.Server.{handle}
use helix_gateway.Admin.Remote.{IsServed, arrives, answered, seen}
use helix_gateway.Admin.Parity.{remote, remote-exec}
use helix_gateway.Admin.Parity.Mismatch.{toggle_route_never_toggles, list_routes_never_lists}
use helix_gateway.Examples.Configs.{api, pool}
use helix_gateway.Examples.Admin.{env, desk, login}

abbrev pub client : Client
client = record { base = text "http://gw"; user = text "admin"; pass = text "secret" }

abbrev pub policy_none : IpPolicy
policy_none = record {
  id = [];
  name = [];
  mode = [];
  cidrs = [];
  active = false;
  created_at = 0;
  updated_at = 0;
}

abbrev read_route : Payload → Option Route
read_route (Admin.route x) = some x
read_route _ = none

abbrev read_upstream : Payload → Option Upstream
read_upstream (Admin.upstream x) = some x
read_upstream _ = none

abbrev read_policy : Payload → Option IpPolicy
read_policy (Admin.policy x) = some x
read_policy _ = none

abbrev read_error : Payload → Text × Text
read_error (Admin.problem kind msg) = (kind, msg)
read_error _ = ([], [])

abbrev pub web : Env → Web Payload Handlers
web env = record {
  valid_url = λ u. true;
  send = λ q h. answered (λ p. p) (handle login env h (arrives client q));
  read_error = read_error;
  write_route = λ x. some (text "{}");
  write_upstream = λ x. some (text "{}");
  write_policy = λ x. some (text "{}");
  read_route = read_route;
  read_upstream = read_upstream;
  read_policy = read_policy;
  read_routes = λ b. none;
  read_upstreams = λ b. none;
  read_policies = λ b. none;
  read_snapshot = λ b. none;
  zero_route = api;
  zero_upstream = pool;
  zero_policy = policy_none;
  zero_snapshot = record { routes = []; total_reqs = 0; total_errs = 0 };
}

pub web-IsServed : (env : Env) → IsServed (web env) client login env (λ p. p)
unfolding admitted text_eq
web-IsServed env = record {
  sent = λ q path h e plain. refl;
  valid = λ path plain. refl;
  granted = λ r e. rw (e, admitted) refl;
  error = λ kind msg. refl;
  route = λ x. refl;
  upstream = λ x. refl;
  policy = λ x. refl;
}

remote-exec_example :
    remote (web env) client (creates_upstream pool) desk
    ≡ seen env desk
        (text "POST")
        (text "/admin/v1/upstreams")
        (exec env.io desk.store (creates_upstream pool))
unfolding is_toggle
remote-exec_example =
    remote-exec (web env) client login env (λ p. p) (web-IsServed env) desk (creates_upstream pool)
      refl (text "{}", refl, refl)

toggle_route_never_toggles_example : Client.toggle_route (web env) client (text "r") desk ≡ (
  failed (
      admin_api
        (text "PATCH")
        (text "/admin/v1/routes/r/toggle")
        (text "BAD_REQUEST")
        (text "invalid request body")),
  desk,
)
unfolding limited is_plain
toggle_route_never_toggles_example =
    toggle_route_never_toggles (web env) client login env (λ p. p) (web-IsServed env) desk
      (text "r") (refl, refl) refl

list_routes_never_lists_example :
    Client.list_routes (web env) client desk ≡ (failed decode_response, desk)
list_routes_never_lists_example =
    list_routes_never_lists (web env) client login env (λ p. p) (web-IsServed env) desk
      (λ xs n. refl)
