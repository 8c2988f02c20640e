-- ===== src/Examples/Admin.antt =====
-- The admin API over the store of `Configs`, with a password.
use helix_gateway.Base.{
  text, is_empty, Bool, true, false, [], ◌∷◌, none, some, ◌≡◌, refl, if◌then◌else◌,
}
use helix_gateway.Store.Calls.{deletes_route}
use helix_gateway.Admin.{Env, Handlers, AdminRequest, Json, failed, denied, write_json}
use helix_gateway.Admin.Keys.{key_entry}
use helix_gateway.Admin.Mux.{Endpoint}
use helix_gateway.Admin.Server.{Login, serve, handle}
use helix_gateway.Admin.Effects.{change_of, Performs, serve-Performs}
use helix_gateway.Admin.Trail.{Traces, serve-Traces}
use helix_gateway.Admin.Runs.{IsSound, idle, request, Run-IsSound}
use helix_gateway.Admin.Refusals.{handle-denied}
use helix_gateway.Examples.Configs.{
  shop-IsKeyed, api, pool, disk_io, shop, shop-IsLinked, shop-IsFresh, shop-HasUniqueNames,
}

-- Every body decodes to the same record, but an empty one to no toggle.
abbrev pub json : Json
json = record {
  route = λ b. some api;
  upstream = λ b. some pool;
  policy = λ b. none;
  toggle = λ b. if is_empty b then none else some true;
  key = λ b. some (record { name = text "ci"; scopes = [] });
}

abbrev pub env : Env
env = record {
  io = disk_io true;
  json = json;
  quote = λ s. s;
  cause = λ f. [];
  random = some (1 ∷ 2 ∷ []);
  base64 = λ b. b;
  hash_key = λ s. s;
  probe = λ u. failed [];
  latency = 0;
  runtime = record { uptime = []; go = []; os = []; arch = [] };
  plugin_names = [];
  sort = λ xs. xs;
  by_name = λ xs. xs;
}

abbrev pub desk : Handlers
desk = record {
  store = shop;
  tracker = record { routes = [] };
  audit_log = record { entries = []; max_size = 10 };
}

abbrev pub login : Login
login = record { user = []; pass = text "secret" }

-- The deletion of the route, with or without credentials.
abbrev deletion : Bool → AdminRequest
deletion known = record {
  method = text "DELETE";
  path = text "/admin/v1/routes/r";
  limit = [];
  credentials = if known then some (text "admin", text "secret") else none;
  remote_addr = [];
  body = [];
}

serve-Performs_example :
    Performs env desk
      (deletes_route (text "r"))
      (serve env desk (deletion true) (Endpoint.delete_route (text "r")))
unfolding change_of
serve-Performs_example =
    serve-Performs env desk (deletion true) (deletes_route (text "r"))
      (Endpoint.delete_route (text "r")) refl

shop-IsSound : IsSound shop
shop-IsSound = record { linked = shop-IsLinked; names = shop-HasUniqueNames; keyed = shop-IsKeyed }

Run-IsSound_example : IsSound (handle login env desk (deletion true)).1.store
Run-IsSound_example =
    Run-IsSound login desk (handle login env desk (deletion true)).1
      (request env (deletion true) (shop-IsFresh true) idle) shop-IsSound

serve-Traces_example :
    Traces env desk
      (key_entry (text "create_api_key") (text "n") (deletion true))
      (serve env desk (deletion true) Endpoint.create_key)
serve-Traces_example =
    serve-Traces env desk (deletion true) Endpoint.create_key
      (key_entry (text "create_api_key") (text "n") (deletion true)) refl

handle-denied_example : handle login env desk (deletion false) ≡ (write_json 401 denied, desk)
handle-denied_example = handle-denied login env desk (deletion false) refl (λ e. cc)
