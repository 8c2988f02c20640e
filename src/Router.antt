-- ===== src/Router.antt =====
-- internal/router/router.go: the route table and how a request finds its handler. A handler is a
-- value of a type H, and a compiled regular expression is its test on a path (package regexp).
pub mod Search
pub mod Priority
pub mod Reach
pub mod Forward
pub mod Split
pub mod Balance
pub mod Proxy
use helix_gateway.Base.{
  ltb, length, or_else, ◌==◌, Text, text_eq, text, has_prefix, equal_fold, Bool, true, false, not,
  ◌||◌, List, [], ◌∷◌, ◌++◌, Option, none, some, any, all, Table, lookup, if◌then◌else◌,
}
use helix_gateway.Store.Model.{PathMode, Route, MatchRule, prefix, exact, regex, other}

-- What the router reads of a request: `header` is Header.Get.
pub record Request : Type 0 where
  pub host : Text
  pub path : Text
  pub method : Text
  pub header : Text → Text

pub record Entry (H : Type 0) : Type 0 where
  pub route : Route
  pub handler : H
  pub re : Option (Text → Bool)

pub record RouteTable (H : Type 0) : Type 0 where
  pub exact_entries : List (Entry H)
  pub prefix_entries : List (Entry H)
  pub regex_entries : List (Entry H)

-- strings.Cut at the last colon: the text before it, or the whole text if there is none
unfoldable pub before_last_colon : Text → Option Text
before_last_colon [] = none
before_last_colon (c ∷ s) = elim (before_last_colon s) [
  | some t ↦ some (c ∷ t)
  | none ↦ (if c == b':' then some [] else none)
]

-- stripPort
unfoldable pub strip_port : Text → Text
unfolding before_last_colon
strip_port host = elim (before_last_colon host) [ some h ↦ h | none ↦ host ]

abbrev pub is_nil {ℓ} : {A : Type ℓ} → List A → Bool
is_nil [] = true
is_nil (x ∷ xs) = false

-- matchHosts
unfoldable pub match_hosts : List Text → Text → Bool
match_hosts hosts host = is_nil hosts || any (λ h. text_eq h host || text_eq h (text "*")) hosts

-- matchMethod
unfoldable pub match_method : List Text → Text → Bool
match_method methods method = is_nil methods || any (λ m. equal_fold m method) methods

-- matchHeaders
unfoldable pub match_headers : Table Text → Request → Bool
match_headers headers req = all (λ e. text_eq (req.header e.0) e.1) headers

-- The switch on the path mode in matchEntry.
unfoldable pub match_path : MatchRule → Option (Text → Bool) → Text → Bool
match_path m re path = elim m.path_mode [
  | exact ↦ text_eq path m.path
  | prefix ↦ has_prefix path m.path
  | regex ↦ (elim re [ none ↦ false | some r ↦ r path ])
  | other mode ↦ false
]

module _ {H : Type 0} where
  -- matchEntry
  unfoldable pub match_entry : Entry H → Text → Text → Text → Request → Bool
  match_entry e host path method req =
      if not (match_hosts e.route.match.hosts host)
        || not (match_method e.route.match.methods method)
        || not (match_headers e.route.match.headers req)
      then false
      else match_path e.route.match e.re path

  -- One of the three loops of match.
  unfoldable pub first_entry : (Entry H → Bool) → List (Entry H) → Option (Entry H)
  first_entry p [] = none
  first_entry p (e ∷ es) = if p e then some e else first_entry p es

  -- match: the exact entries, then the prefixes, then the expressions. The entry that is found
  -- stands for its handler.
  unfoldable pub match_table : RouteTable H → Request → Option (Entry H)
  match_table t req =
      let p = λ (e : Entry H). match_entry e (strip_port req.host) req.path req.method req in
      or_else (first_entry p t.exact_entries)
        (or_else (first_entry p t.prefix_entries) (first_entry p t.regex_entries))

  -- ServeHTTP: the handler of the entry, or the fallback.
  unfoldable pub serve : H → RouteTable H → Request → H
  serve fallback t req = elim (match_table t req) [ some e ↦ e.handler | none ↦ fallback ]

  abbrev pub empty_table : RouteTable H
  empty_table = record { exact_entries = []; prefix_entries = []; regex_entries = [] }

  -- The handler that a route forwards to, of a traffic split or from the upstreams by identifier;
  -- `none` for an unknown upstream.
  unfoldable pub upstream_handler : (Route → H) → Table H → Route → Option H
  upstream_handler split upstreams r =
      if is_nil r.weighted_upstreams then lookup r.upstream_id upstreams else some (split r)

  -- The switch at the end of the loop of reload, over regexp.Compile.
  unfoldable pub add_entry :
      (Text → Option (Text → Bool)) → PathMode → Route → H → RouteTable H → RouteTable H
  add_entry compile regex r h t = elim (compile r.match.path) [
    | none ↦ t
    | some re ↦ record t {
      regex_entries = t.regex_entries ++ record { route = r; handler = h; re = some re } ∷ [];
    }
  ]
  add_entry compile exact r h t = record t {
    exact_entries = t.exact_entries ++ record { route = r; handler = h; re = none } ∷ [];
  }
  add_entry compile mode r h t = record t {
    prefix_entries = t.prefix_entries ++ record { route = r; handler = h; re = none } ∷ [];
  }

  -- The comparator of the prefix entries: a longer path comes first.
  unfoldable pub longer : Entry H → Entry H → Bool
  longer a b = ltb (length b.route.match.path) (length a.route.match.path)

  -- What reload is given: regexp.Compile, the handler of a traffic split, the upstreams by
  -- identifier, and the wrapping of buildRouteHandler.
  module _ (compile : Text → Option (Text → Bool)) (split : Route → H) (upstreams : Table H)
      (wrap : Route → H → H) where
    -- One round of the loop of reload.
    unfoldable pub add_route : Route → RouteTable H → RouteTable H
    add_route r t =
        if r.active
        then elim (upstream_handler split upstreams r) [
          | none ↦ t
          | some up ↦ add_entry compile r.match.path_mode r (wrap r up) t
        ]
        else t

    unfoldable pub build_table : List Route → RouteTable H → RouteTable H
    build_table [] t = t
    build_table (r ∷ rs) t = build_table rs (add_route r t)

    -- reload, from the listed routes; `sort` is sort.Slice with a comparator.
    unfoldable pub reload :
        ((Entry H → Entry H → Bool) → List (Entry H) → List (Entry H)) → List Route → RouteTable H
    reload sort routes =
        let t = build_table routes empty_table in
        record t { prefix_entries = sort longer t.prefix_entries }
