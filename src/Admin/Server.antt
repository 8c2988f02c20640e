-- ===== src/Admin/Server.antt =====
-- internal/admin/server.go: the handler that the admin server runs, with its login.
use helix_gateway.Base.{
  Text, text, text_eq, is_empty, ◌&&◌, ◌||◌, Bool, false, none, some, if◌then◌else◌,
}
use helix_gateway.Admin.{Env, Handlers, Answer, AdminRequest, denied, not_routed, write_json}
use helix_gateway.Admin.Mux.{
  resolve, chosen, wrong_method, unknown, Endpoint, health, info, plugins, config_export, metrics,
  list_routes, create_route, list_upstreams, create_upstream, list_policies, create_policy,
  list_keys, create_key, audit_log, Endpoint, get_route, update_route, delete_route, toggle_route,
  get_upstream, update_upstream, delete_upstream, health_upstream, get_policy, update_policy,
  delete_policy, toggle_policy, get_key, delete_key, toggle_key,
}
use helix_gateway.Admin.Reports.{
  handle_health, handle_info, handle_plugins, handle_config_export, handle_metrics,
  handle_audit_log,
}
use helix_gateway.Admin.Routes
use helix_gateway.Admin.Upstreams
use helix_gateway.Admin.Policies
use helix_gateway.Admin.Keys

-- What New reads from the environment.
pub record Login : Type 0 where
  pub user : Text
  pub pass : Text

-- The handler of an endpoint.
unfoldable pub serve : Env → Handlers → AdminRequest → Endpoint → Answer × Handlers
serve env h r health = (handle_health, h)
serve env h r info = (handle_info env, h)
serve env h r plugins = (handle_plugins env, h)
serve env h r config_export = (handle_config_export h, h)
serve env h r metrics = (handle_metrics env h, h)
serve env h r list_routes = (Routes.list_routes h, h)
serve env h r create_route = Routes.create_route env h r
serve env h r (get_route id) = Routes.get_route env h id
serve env h r (update_route id) = Routes.update_route env h id r
serve env h r (delete_route id) = Routes.delete_route env h id
serve env h r (toggle_route id) = Routes.toggle_route env h id r
serve env h r list_upstreams = (Upstreams.list_upstreams h, h)
serve env h r create_upstream = Upstreams.create_upstream env h r
serve env h r (get_upstream id) = Upstreams.get_upstream env h id
serve env h r (update_upstream id) = Upstreams.update_upstream env h id r
serve env h r (delete_upstream id) = Upstreams.delete_upstream env h id
serve env h r (health_upstream id) = Upstreams.upstream_health env h id
serve env h r list_policies = (Policies.list_policies h, h)
serve env h r create_policy = Policies.create_policy env h r
serve env h r (get_policy id) = Policies.get_policy env h id
serve env h r (update_policy id) = Policies.update_policy env h id r
serve env h r (delete_policy id) = Policies.delete_policy env h id
serve env h r (toggle_policy id) = Policies.toggle_policy env h id r
serve env h r list_keys = (Keys.list_keys h, h)
serve env h r create_key = Keys.create_key env h r
serve env h r (get_key id) = Keys.get_key env h id
serve env h r (delete_key id) = Keys.delete_key env h id r
serve env h r (toggle_key id) = Keys.toggle_key env h id r
serve env h r audit_log = (handle_audit_log h r, h)

-- mux.ServeHTTP
unfoldable pub serve_mux : Env → Handlers → AdminRequest → Answer × Handlers
serve_mux env h r = elim (resolve r.method r.path) [
  | chosen ep ↦ serve env h r ep
  | wrong_method ↦ (write_json 405 not_routed, h)
  | unknown ↦ (write_json 404 not_routed, h)
]

-- The test of basicAuth: no password is set, or the request carries the user and the password.
unfoldable pub admitted : Login → AdminRequest → Bool
admitted login r =
    let user = if is_empty login.user then text "admin" else login.user in
    is_empty login.pass
    || elim r.credentials [ none ↦ false | some (u, p) ↦ text_eq u user && text_eq p login.pass ]

-- basicAuth over the mux
unfoldable pub handle : Login → Env → Handlers → AdminRequest → Answer × Handlers
handle login env h r = if admitted login r then serve_mux env h r else (write_json 401 denied, h)
