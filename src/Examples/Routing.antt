-- ===== src/Examples/Routing.antt =====
-- A table of three prefix routes, one of them inactive, sorted by insertion.
use helix_gateway.Base.{
  is_empty, if◌then◌else◌, zero, Text, text, text_eq, Bool, true, false, List, [], ◌∷◌, ◌++◌,
  Option, none, some, Table, ◌≡◌, refl, ◌≤◌, has_prefix, lookup, equal_fold, to_lower,
}
use helix_gateway.Store.Model.{Route, prefix}
use helix_gateway.Router.{
  Request, Entry, match_table, reload, upstream_handler, build_table, add_route, add_entry, longer,
  first_entry, match_entry, match_path, match_hosts, match_headers, match_method, strip_port,
  before_last_colon,
}
use helix_gateway.Router.Priority.{IsLive, accepts, match_table-reload-IsLive, match_table-longest}
use helix_gateway.Router.Search.{path_length}
use helix_gateway.Examples.Sorting.{insertion_sort, insertion_sort-IsSort}
use helix_gateway.Router.Forward.{forwarded, forwarded-match_path}
use helix_gateway.Router.Reach.{match_table-reload-some}

abbrev api : Route
api = record {
  id = text "r";
  name = text "api";
  active = true;
  match = record {
    hosts = [];
    path = text "/v1";
    path_mode = prefix;
    methods = text "GET" ∷ [];
    headers = [];
  };
  upstream_id = text "u";
  plugins = [];
  strip_path = true;
  weighted_upstreams = [];
  created_at = 1;
  updated_at = 1;
}

-- A route for every path, in front of the same upstream, and one that is switched off.
abbrev site : Route
site = record api { match = record api.match { path = text "/" } }

abbrev shut : Route
shut = record api { active = false }

abbrev get_v1 : Request
get_v1 = record {
  host = text "a:80";
  path = text "/v1/x";
  method = text "get";
  header = λ name. [];
}

-- A handler is a text: the upstream, behind the mark of the wrapping.
abbrev wrap : Route → Text → Text
wrap r h = text "+" ++ h

abbrev as_word : Text → Option (Text → Bool)
as_word p = some (text_eq p)

abbrev nowhere : Route → Text
nowhere r = []

abbrev pools : Table Text
pools = (text "u", text "pool") ∷ []

abbrev routes : List Route
routes = site ∷ shut ∷ api ∷ []

abbrev entry : Route → Entry Text
entry r = record { route = r; handler = wrap r (text "pool"); re = none }

match_table-reload-IsLive_example :
    IsLive as_word nowhere pools wrap routes (entry api) × (accepts get_v1 (entry api) ≡ true)
unfolding text_eq longer reload build_table add_route add_entry upstream_handler lookup match_table
    first_entry match_entry match_path match_hosts match_headers match_method strip_port
    before_last_colon has_prefix equal_fold to_lower
match_table-reload-IsLive_example =
    match_table-reload-IsLive as_word nowhere pools wrap insertion_sort routes get_v1
      insertion_sort-IsSort (entry api) refl

match_table-longest_example : path_length (entry site) ≤ path_length (entry api)
unfolding text_eq longer reload build_table add_route add_entry upstream_handler lookup match_table
    first_entry match_entry match_path match_hosts match_headers match_method strip_port
    before_last_colon has_prefix equal_fold to_lower
match_table-longest_example =
    match_table-longest as_word nowhere pools wrap insertion_sort routes get_v1
      insertion_sort-IsSort (entry api) (entry site) refl refl (1, refl) refl

match_table-reload-some_example :
    (e : Entry Text) × (match_table (reload as_word nowhere pools wrap insertion_sort routes) get_v1
      ≡ some e)
unfolding text_eq upstream_handler lookup match_entry match_path match_hosts match_headers
    match_method strip_port before_last_colon has_prefix equal_fold to_lower
match_table-reload-some_example =
    match_table-reload-some as_word nowhere pools wrap site (text "pool") get_v1 refl refl refl
      insertion_sort routes insertion_sort-IsSort (zero, refl)

forwarded-match_path_example :
    (rest : Text) × (api.match.path ++ rest ≡ text "/v1/x")
    × ((forwarded api (text "/v1/x") []).0 ≡ (if is_empty rest then text "/" else rest))
unfolding match_path has_prefix
forwarded-match_path_example = forwarded-match_path api (text "/v1/x") [] refl refl refl
