-- ===== src/Router/Priority.antt =====
-- Which route a request is served by: only live routes, every live route that matches has a chance,
-- and the longest prefix wins.
use helix_gateway.Base.{
  or_else-some, zero, zero, ◌≤◌, ◌≡◌, refl, sym, ◌⊎◌, inl, inr, Text, Bool, true, List, [], ◌∷◌,
  ◌++◌, Option, none, some, Table, Has, All, All-Has, Has-All, All-append_one, Has-tail, Bool-cases,
  Option-cases,
}
use helix_gateway.Store.Model.{Route, PathMode, prefix, exact, regex, other}
use helix_gateway.Router.{
  Request, Entry, RouteTable, strip_port, match_entry, first_entry, match_table, empty_table,
  upstream_handler, add_entry, add_route, build_table, reload, longer,
}
use helix_gateway.Router.Search.{
  none-some, path_length, IsSort, sort_falls, first_entry-found, first_entry-some,
  first_entry-longest,
}

module _ {H : Type 0} (compile : Text → Option (Text → Bool)) (split : Route → H)
    (upstreams : Table H) (wrap : Route → H → H) where
  -- An entry of an active route of the list, in front of the route's upstream; of a route of the mode
  -- regex, the entry has the compiled path of that route.
  abbrev pub IsLive : List Route → Entry H → Type 0
  IsLive routes e =
      Has e.route routes
      × (e.route.active ≡ true)
      × ((up : H) × (upstream_handler split upstreams e.route ≡ some up)
          × (e.handler ≡ wrap e.route up))
      × (e.route.match.path_mode ≡ regex → e.re ≡ compile e.route.match.path)

  record AllLive (routes : List Route) (t : RouteTable H) : Type 0 where
    exacts : All (IsLive routes) t.exact_entries
    prefixes : All (IsLive routes) t.prefix_entries
    regexes : All (IsLive routes) t.regex_entries

  module _ (routes : List Route) (r : Route) (up : H) (h : Has r routes) (a : r.active ≡ true)
      (u : upstream_handler split upstreams r ≡ some up) where
    live :
        (re : Option (Text → Bool))
        → (r.match.path_mode ≡ regex → re ≡ compile r.match.path)
        → IsLive routes (record { route = r; handler = wrap r up; re = re })
    live re own = (h, a, (up, u, refl), own)

    add_prefix-AllLive :
        (t : RouteTable H)
        → (r.match.path_mode ≡ regex → none ≡ compile r.match.path)
        → AllLive routes t
        → AllLive routes (record t {
          prefix_entries =
              t.prefix_entries ++ record { route = r; handler = wrap r up; re = none } ∷ [];
        })
    add_prefix-AllLive t own l = record {
      exacts = l.exacts;
      prefixes = All-append_one (IsLive routes) t.prefix_entries _ l.prefixes (live none own);
      regexes = l.regexes;
    }

    add_entry-AllLive :
        (mode : PathMode) (t : RouteTable H)
        → r.match.path_mode ≡ mode
        → AllLive routes t
        → AllLive routes (add_entry compile mode r (wrap r up) t)
    unfolding add_entry
    add_entry-AllLive regex t m l = elim (Option-cases (compile r.match.path)) [
      | inl n ↦ rw (n, add_entry) l
      | inr (re, n) ↦
          rw (n, add_entry)
            (record {
              exacts = l.exacts;
              prefixes = l.prefixes;
              regexes =
                  All-append_one (IsLive routes) t.regex_entries _ l.regexes
                    (live (some re) (λ _. sym n));
            })
    ]
    add_entry-AllLive exact t m l = record {
      exacts =
          All-append_one (IsLive routes) t.exact_entries _ l.exacts (live none (λ e. absurd cc));
      prefixes = l.prefixes;
      regexes = l.regexes;
    }
    add_entry-AllLive prefix t m l = add_prefix-AllLive t (λ e. absurd cc) l
    add_entry-AllLive (other mode) t m l = add_prefix-AllLive t (λ e. absurd cc) l

  add_route-AllLive :
      (routes : List Route) (r : Route) (t : RouteTable H)
      → Has r routes
      → AllLive routes t
      → AllLive routes (add_route compile split upstreams wrap r t)
  unfolding add_route
  add_route-AllLive routes r t h l = elim (Bool-cases r.active) [
    | inr off ↦ simp (off) l
    | inl on ↦ elim (Option-cases (upstream_handler split upstreams r)) [
      | inl n ↦ simp (on, n) l
      | inr (up, u) ↦ simp (on, u) (add_entry-AllLive routes r up h on u r.match.path_mode t refl l)
    ]
  ]

  build_table-AllLive :
      (routes rs : List Route) (t : RouteTable H)
      → ((r : Route) → Has r rs → Has r routes)
      → AllLive routes t
      → AllLive routes (build_table compile split upstreams wrap rs t)
  unfolding build_table
  build_table-AllLive routes [] t h l = l
  build_table-AllLive routes (r ∷ rs) t h l =
      build_table-AllLive routes rs _ (λ x k. h x (Has-tail x r rs k))
        (add_route-AllLive routes r t (h r (zero, refl)) l)

  reload-AllLive :
      (sort : (Entry H → Entry H → Bool) → List (Entry H) → List (Entry H)) (routes : List Route)
      → IsSort sort
      → AllLive routes (reload compile split upstreams wrap sort routes)
  unfolding reload
  reload-AllLive sort routes ok =
      let l =
        build_table-AllLive routes routes empty_table (λ r k. k)
          (record { exacts = tt; prefixes = tt; regexes = tt }) in
      record {
        exacts = l.exacts;
        prefixes =
            Has-All (IsLive routes) _
              (λ e k. All-Has (IsLive routes) e _ l.prefixes (ok.only longer _ e k));
        regexes = l.regexes;
      }

abbrev pub accepts : {H : Type 0} → Request → Entry H → Bool
accepts req e = match_entry e (strip_port req.host) req.path req.method req

module _ {H : Type 0} (t : RouteTable H) (req : Request) (e : Entry H) where
  -- The three places in which `match_table` can find an entry.
  match_table-places :
      match_table t req ≡ some e
      → (first_entry (accepts req) t.exact_entries ≡ some e)
        ⊎ ((first_entry (accepts req) t.exact_entries ≡ none)
            × ((first_entry (accepts req) t.prefix_entries ≡ some e)
                ⊎ ((first_entry (accepts req) t.prefix_entries ≡ none)
                    × (first_entry (accepts req) t.regex_entries ≡ some e))))
  unfolding match_table
  match_table-places h = elim (or_else-some (first_entry (accepts req) t.exact_entries) _ e h) [
    | inl q ↦ inl q
    | inr (n, q) ↦ inr (n, or_else-some (first_entry (accepts req) t.prefix_entries) _ e q)
  ]

  match_table-found :
      (P : Entry H → Type 0)
      → All P t.exact_entries
      → All P t.prefix_entries
      → All P t.regex_entries
      → match_table t req ≡ some e
      → P e × (accepts req e ≡ true)
  match_table-found P a b c h = elim (match_table-places h) [
    | inl q ↦ found t.exact_entries a q
    | inr (n, inl q) ↦ found t.prefix_entries b q
    | inr (n, inr (m, q)) ↦ found t.regex_entries c q
  ]
    where
      found :
          (es : List (Entry H))
          → All P es
          → first_entry (accepts req) es ≡ some e
          → P e × (accepts req e ≡ true)
      found es all_es q =
          let (ok, k) = first_entry-found (accepts req) es e q in (All-Has P e es all_es k, ok)

module _ {H : Type 0} (compile : Text → Option (Text → Bool)) (split : Route → H)
    (upstreams : Table H) (wrap : Route → H → H)
    (sort : (Entry H → Entry H → Bool) → List (Entry H) → List (Entry H)) (routes : List Route)
    (req : Request) (sorted : IsSort sort) where
  -- A request is served only by an active route of the store, through the handler of that route's
  -- upstream, and only if host, method, headers and path of the route accept the request, where the
  -- path of a route of the mode regex accepts by the expression that it compiles to. `sort` is
  -- assumed to sort by the comparator that it is given.
  pub match_table-reload-IsLive :
      (e : Entry H)
      → match_table (reload compile split upstreams wrap sort routes) req ≡ some e
      → IsLive compile split upstreams wrap routes e × (accepts req e ≡ true)
  match_table-reload-IsLive e h =
      let l = reload-AllLive compile split upstreams wrap sort routes sorted in
      match_table-found (reload compile split upstreams wrap sort routes) req e
        (IsLive compile split upstreams wrap routes) l.exacts l.prefixes l.regexes h

  -- If no entry of an exact route accepts a request and one of a prefix route does, the entry
  -- that serves the request has at least as long a path as every prefix entry that accepts it.
  -- `sort` is assumed to sort by the comparator that it is given, where this is a strict weak order.
  pub match_table-longest :
      (e x : Entry H)
      → match_table (reload compile split upstreams wrap sort routes) req ≡ some e
      → first_entry (accepts req) (reload compile split upstreams wrap sort routes).exact_entries
        ≡ none
      → Has x (reload compile split upstreams wrap sort routes).prefix_entries
      → accepts req x ≡ true
      → path_length x ≤ path_length e
  unfolding reload
  match_table-longest e x h none_ kx ok =
      elim (match_table-places (reload compile split upstreams wrap sort routes) req e h) [
        | inl q ↦ absurd (none-some {x = e} (cc (none_, q)))
        | inr (n, inl q) ↦
            first_entry-longest (accepts req) _ e x (sort_falls sort _ sorted) q kx ok
        | inr (n, inr (m, q)) ↦
            (let (y, found) = first_entry-some (accepts req) _ x kx ok in
              absurd (none-some {x = y} (cc (m, found))))
      ]
