-- ===== src/Examples/Configs.antt =====
-- A store with one route to one upstream, a full disk, and an API key that is deleted.
use helix_gateway.Base.{
  Text, text, text_eq, text_eq_iff, Bool, true, false, [], ◌∷◌, none, some, lookup, has, insert,
  delete, ◌≡◌, refl, arith,
}
use helix_gateway.Store.Model.{Route, Upstream, ApiKey, prefix}
use helix_gateway.Store.State.{
  Store, Io, IsFresh, ok, err, empty, write_failed, in_use, export, persist, write_config, commit,
  notify, update, new,
}
use helix_gateway.Store.Routes.{dangling, delete_route}
use helix_gateway.Store.Upstreams.{delete_upstream}
use helix_gateway.Store.Keys.{
  create_api_key, delete_api_key, validate_api_key, stamped_key, hide_hash,
}
use helix_gateway.Store.Calls.{deletes_route, deletes_upstream, exec, is_toggle}
use helix_gateway.Store.Integrity.{IsLinked, exec-IsLinked}
use helix_gateway.Store.Names.{HasUniqueNames}
use helix_gateway.Store.Outcomes.{SameMemory, exec_failed, Announced, exec-Announced}
use helix_gateway.Store.Keying.{IsKeyed}
use helix_gateway.Store.Restart.{SameConfig, new-exec}
use helix_gateway.Store.Keys.Validity.{validate-create, deleted_key_still_valid}

abbrev pub api : Route
api = record {
  id = text "r";
  name = text "api";
  active = true;
  match = record { hosts = []; path = text "/v1"; path_mode = prefix; methods = []; headers = [] };
  upstream_id = text "u";
  plugins = [];
  strip_path = true;
  weighted_upstreams = [];
  created_at = 1;
  updated_at = 1;
}

abbrev pub pool : Upstream
pool = record {
  id = text "u";
  name = text "pool";
  url = text "http://a";
  protocol = [];
  endpoints = [];
  lb_algorithm = [];
  health_path = [];
  created_at = 1;
  updated_at = 1;
}

-- A file system that takes every write, or none.
abbrev pub disk_io : Bool → Io
disk_io write_ok = record {
  uuid = text "n";
  now = 7;
  marshal = λ s. some (text "config");
  unmarshal = λ bytes. none;
  write_ok = write_ok;
  partial = none;
  rename_ok = true;
  read_ok = true;
}

abbrev pub shop : Store
shop = record (empty (text "f") (record { main = none; tmp = none })) {
  routes = (text "r", api) ∷ [];
  upstreams = (text "u", pool) ∷ [];
  listeners = 4 ∷ [];
}

pub shop-IsLinked : IsLinked shop
unfolding lookup dangling has text_eq
shop-IsLinked = record { at_key = λ k r e. ground arith }

pub shop-IsFresh : (write_ok : Bool) → IsFresh (disk_io write_ok) shop
unfolding lookup text_eq
shop-IsFresh write_ok = record {
  new_route = refl;
  new_upstream = refl;
  new_policy = refl;
  new_key = refl;
}

exec-IsLinked_example : IsLinked (exec (disk_io true) shop (deletes_upstream (text "u"))).1
exec-IsLinked_example =
    exec-IsLinked (disk_io true) shop (deletes_upstream (text "u")) (shop-IsFresh true)
      shop-IsLinked

-- The upstream is in use, so that the call is refused.
deletes_upstream_refused : (exec (disk_io true) shop (deletes_upstream (text "u"))).0 ≡ err in_use
unfolding exec delete_upstream commit lookup text_eq
deletes_upstream_refused = refl

pub shop-HasUniqueNames : HasUniqueNames shop
unfolding lookup text_eq
shop-HasUniqueNames = record {
  routes = record {
    at_keys = λ i j a b p q e. ground (arith, text_eq_iff (text "r") i, text_eq_iff (text "r") j);
  };
  upstreams = record {
    at_keys = λ i j a b p q e. ground (arith, text_eq_iff (text "u") i, text_eq_iff (text "u") j);
  };
  policies = record { at_keys = λ i j a b p q e. ground arith };
}

-- The store after the deletion of the route.
abbrev emptied : Bool → Store
emptied write_ok = (exec (disk_io write_ok) shop (deletes_route (text "r"))).1

exec_failed_example : SameMemory (emptied false) shop × ((emptied false).disk.main ≡ shop.disk.main)
unfolding exec delete_route commit persist export write_config notify lookup text_eq is_toggle
exec_failed_example =
    exec_failed (disk_io false) shop (emptied false) (deletes_route (text "r")) write_failed
      (shop-IsFresh false) refl refl

exec-Announced_example :
    Announced (disk_io true) shop (exec (disk_io true) shop (deletes_route (text "r")))
exec-Announced_example = exec-Announced (disk_io true) shop (deletes_route (text "r"))

pub shop-IsKeyed : IsKeyed shop
unfolding lookup
shop-IsKeyed = record { routes = (refl, refl, tt); upstreams = (refl, refl, tt); policies = tt }

-- A decoder that reads the file of the emptied store back.
abbrev reading_io : Io
reading_io = record (disk_io true) { unmarshal = λ bytes. some (export (emptied true)) }

new-exec_example :
    (u : Store) × (new reading_io shop.file_path (emptied true).disk ≡ ok u)
    × SameConfig u (emptied true)
unfolding exec delete_route commit persist export write_config notify lookup text_eq delete
new-exec_example =
    new-exec (disk_io true) reading_io shop (emptied true) (deletes_route (text "r"))
      (text "config") refl shop-IsKeyed refl refl refl refl

abbrev secret : ApiKey
secret = record {
  id = [];
  name = text "ci";
  key_hash = text "hx";
  active = true;
  scopes = [];
  created_at = 0;
  updated_at = 0;
}

-- A digest for the tests: one letter in front.
abbrev mark : Text → Text
mark s = b'h' ∷ s

abbrev handed_out : ApiKey
handed_out = hide_hash (stamped_key (disk_io true) secret)

-- The store with the key, and without it.
abbrev keyed : Store
keyed = (create_api_key (disk_io true) shop secret).1

abbrev unkeyed : Store
unkeyed = (delete_api_key (disk_io true) keyed (text "n")).1

validate-create_example : validate_api_key mark keyed (text "x") ≡ some handed_out
unfolding create_api_key persist export write_config text_eq
validate-create_example =
    validate-create mark (disk_io true) shop keyed secret handed_out (text "x") refl refl

deleted_key_still_valid_example : validate_api_key mark unkeyed (text "x") ≡ some handed_out
unfolding create_api_key delete_api_key persist export write_config lookup insert update text_eq
deleted_key_still_valid_example =
    deleted_key_still_valid mark (disk_io true) (disk_io true) shop keyed unkeyed secret handed_out
      (text "x") refl refl refl refl
