-- ===== src/Router/Reach.antt =====
-- No active route that accepts a request is lost: the request is then served by some route.
use mathlib.Core.Bool.{true≢false}
use mathlib.Core.Option.{some-injective}
use mathlib.Core.Path.{subst}
use helix_gateway.Base.{
  ◌∙◌, zero, zero, suc, ◌≡◌, refl, inl, inr, Text, Bool, true, false, sym, List, [], ◌∷◌, ◌++◌,
  Option, none, some, Table, Has, Has-append_left, Has-append_self, arith, Bool-cases, Option-cases,
  or_else,
}
use helix_gateway.Store.Model.{Route, MatchRule, PathMode, prefix, exact, regex, other}
use helix_gateway.Router.{
  Request, Entry, RouteTable, match_entry, match_path, first_entry, match_table, empty_table,
  upstream_handler, add_entry, add_route, build_table, reload, longer,
}
use helix_gateway.Router.Priority.{accepts}
use helix_gateway.Router.Search.{first_entry-some, IsSort}

-- The expression of an entry: only a route of that mode has one.
abbrev pub compiled : (Text → Option (Text → Bool)) → PathMode → Text → Option (Text → Bool)
compiled compile regex path = compile path
compiled compile mode path = none

or_else-left {ℓ} :
    {A : Type ℓ} (o p : Option A) (a : A) → o ≡ some a → (b : A) × (or_else o p ≡ some b)
or_else-left o p a e = (a, rw e refl)

or_else-right {ℓ} :
    {A : Type ℓ} (o p : Option A) (a : A) → p ≡ some a → (b : A) × (or_else o p ≡ some b)
or_else-right none p a e = (a, e)
or_else-right (some b) p a e = (b, refl)

match_path-regex_none :
    (m : MatchRule) (s : Text) → regex ≡ m.path_mode → match_path m none s ≡ false
unfolding match_path
match_path-regex_none m s e = rw (← e) refl

module _ {H : Type 0} where
  -- The entry stands in one of the three lists.
  pub data Stands (t : RouteTable H) (x : Entry H) : Type 0 where
    as_exact : Has x t.exact_entries → Stands t x
    as_prefix : Has x t.prefix_entries → Stands t x
    as_regex : Has x t.regex_entries → Stands t x

  match_table-some :
      (t : RouteTable H) (req : Request) (x : Entry H)
      → Stands t x
      → accepts req x ≡ true
      → (e : Entry H) × (match_table t req ≡ some e)
  unfolding match_table
  match_table-some t req x (as_exact k) ok =
      let (y, e) = first_entry-some (accepts req) t.exact_entries x k ok in or_else-left _ _ y e
  match_table-some t req x (as_prefix k) ok =
      let (y, e) = first_entry-some (accepts req) t.prefix_entries x k ok in
      let (z, d) = or_else-left _ (first_entry (accepts req) t.regex_entries) y e in
      or_else-right _ _ z d
  match_table-some t req x (as_regex k) ok =
      let (y, e) = first_entry-some (accepts req) t.regex_entries x k ok in
      let (z, d) = or_else-right (first_entry (accepts req) t.prefix_entries) _ y e in
      or_else-right _ _ z d

  add_entry-keeps :
      (compile : Text → Option (Text → Bool)) (mode : PathMode) (r : Route) (h : H)
      (t : RouteTable H) (x : Entry H)
      → Stands t x
      → Stands (add_entry compile mode r h t) x
  unfolding add_entry
  add_entry-keeps compile exact r h t x (as_exact k) = as_exact (Has-append_left x _ _ k)
  add_entry-keeps compile exact r h t x (as_prefix k) = as_prefix k
  add_entry-keeps compile exact r h t x (as_regex k) = as_regex k
  add_entry-keeps compile prefix r h t x (as_exact k) = as_exact k
  add_entry-keeps compile prefix r h t x (as_prefix k) = as_prefix (Has-append_left x _ _ k)
  add_entry-keeps compile prefix r h t x (as_regex k) = as_regex k
  add_entry-keeps compile (other m) r h t x (as_exact k) = as_exact k
  add_entry-keeps compile (other m) r h t x (as_prefix k) = as_prefix (Has-append_left x _ _ k)
  add_entry-keeps compile (other m) r h t x (as_regex k) = as_regex k
  add_entry-keeps compile regex r h t x k = elim (Option-cases (compile r.match.path)) [
    | inl n ↦ rw (n, add_entry) k
    | inr (re, n) ↦ rw (n, add_entry) (kept _ k)
  ]
    where
      kept :
          (new : Entry H)
          → Stands t x
          → Stands (record t { regex_entries = t.regex_entries ++ new ∷ [] }) x
      kept new (as_exact k) = as_exact k
      kept new (as_prefix k) = as_prefix k
      kept new (as_regex k) = as_regex (Has-append_left x _ _ k)

  -- Without a compiled expression, a route of that mode accepts nothing.
  accepts-path :
      (req : Request) (x : Entry H)
      → accepts req x ≡ true
      → match_path x.route.match x.re req.path ≡ true
  unfolding match_entry
  accepts-path req x ok = ground arith

  -- The entry that `add_entry` adds, unless it can accept no request.
  add_entry-adds :
      (compile : Text → Option (Text → Bool)) (mode : PathMode) (r : Route) (h : H)
      (t : RouteTable H) (req : Request)
      → mode ≡ r.match.path_mode
      → accepts req (record { route = r; handler = h; re = compiled compile mode r.match.path })
        ≡ true
      → Stands
          (add_entry compile mode r h t)
          (record { route = r; handler = h; re = compiled compile mode r.match.path })
  unfolding add_entry
  add_entry-adds compile exact r h t req e ok = as_exact (Has-append_self _ _)
  add_entry-adds compile prefix r h t req e ok = as_prefix (Has-append_self _ _)
  add_entry-adds compile (other m) r h t req e ok = as_prefix (Has-append_self _ _)
  add_entry-adds compile regex r h t req e ok = elim (Option-cases (compile r.match.path)) [
    | inl n ↦ absurd (
        true≢false (
          sym (accepts-path req _ ok)
          ∙ (λ i. match_path r.match (n i) req.path)
          ∙ match_path-regex_none r.match req.path e))
    | inr (re, n) ↦ simp (n, add_entry) (as_regex (Has-append_self _ _))
  ]

module _ {H : Type 0} (compile : Text → Option (Text → Bool)) (split : Route → H)
    (upstreams : Table H) (wrap : Route → H → H) where
  -- The entry of a route before the given upstream.
  abbrev pub entry_of : Route → H → Entry H
  entry_of r up = record {
    route = r;
    handler = wrap r up;
    re = compiled compile r.match.path_mode r.match.path;
  }

  add_route-keeps :
      (r : Route) (t : RouteTable H) (x : Entry H)
      → Stands t x
      → Stands (add_route compile split upstreams wrap r t) x
  unfolding add_route
  add_route-keeps r t x k = elim (Bool-cases r.active) [
    | inr off ↦ simp (off) k
    | inl on ↦ elim (Option-cases (upstream_handler split upstreams r)) [
      | inl n ↦ simp (on, n) k
      | inr (up, u) ↦ simp (on, u) (add_entry-keeps compile r.match.path_mode r (wrap r up) t x k)
    ]
  ]

  build_table-keeps :
      (rs : List Route) (t : RouteTable H) (x : Entry H)
      → Stands t x
      → Stands (build_table compile split upstreams wrap rs t) x
  unfolding build_table
  build_table-keeps [] t x k = k
  build_table-keeps (r ∷ rs) t x k = build_table-keeps rs _ x (add_route-keeps r t x k)

  module _ (r : Route) (up : H) (req : Request) (on : r.active ≡ true)
      (known : upstream_handler split upstreams r ≡ some up)
      (ok : accepts req (entry_of r up) ≡ true) where
    add_route-adds :
        (t : RouteTable H) → Stands (add_route compile split upstreams wrap r t) (entry_of r up)
    unfolding add_route
    add_route-adds t =
        simp (on, known) (add_entry-adds compile r.match.path_mode r (wrap r up) t req refl ok)

    build_table-adds :
        (rs : List Route) (t : RouteTable H)
        → Has r rs
        → Stands (build_table compile split upstreams wrap rs t) (entry_of r up)
    unfolding build_table
    build_table-adds [] t (i, at) = absurd (ground arith)
    build_table-adds (q ∷ rs) t (zero, at) = build_table-keeps rs _ (entry_of r up) (
        subst (λ z. Stands (add_route compile split upstreams wrap z t) (entry_of r up))
          (some-injective r q (sym at)) (add_route-adds t))
    build_table-adds (q ∷ rs) t (suc i, at) = build_table-adds rs _ (i, at)

    -- A request that an active route with a known upstream accepts is served by some route. The
    -- sort is assumed to be one.
    pub match_table-reload-some :
        (sort : (Entry H → Entry H → Bool) → List (Entry H) → List (Entry H)) (routes : List Route)
        → IsSort sort
        → Has r routes
        → (e : Entry H) × (match_table (reload compile split upstreams wrap sort routes) req
            ≡ some e)
    unfolding reload
    match_table-reload-some sort routes sorted k = elim (build_table-adds routes empty_table k) [
      | as_exact h ↦ match_table-some _ req (entry_of r up) (as_exact h) ok
      | as_prefix h ↦
          match_table-some _ req (entry_of r up) (as_prefix (sorted.kept longer _ _ h)) ok
      | as_regex h ↦ match_table-some _ req (entry_of r up) (as_regex h) ok
    ]
