-- ===== src/Store/Routes.antt =====
-- internal/store/store.go: the operations on routes.
pub mod Ends
use helix_gateway.Base.{
  Table, Bool, Text, text_eq, is_empty, not, ◌&&◌, List, none, some, any, lookup, insert, delete,
  values, has, if◌then◌else◌,
}
use helix_gateway.Store.Model.{Route}
use helix_gateway.Store.State.{
  Store, Io, Result, ok, err, not_found, conflict, upstream_not_found, commit,
}

-- The loop that looks for another route of the same name.
abbrev pub route_name_taken : Text → Table Route → Bool
route_name_taken name m = any (λ e. text_eq e.1.name name) m

-- The same loop, which passes over the key `id`.
abbrev pub route_name_taken_by_other : Text → Text → Table Route → Bool
route_name_taken_by_other id name m = any (λ e. text_eq e.1.name name && not (text_eq e.0 id)) m

-- What a creation stores: a new identifier and the two times.
abbrev pub stamped_route : Io → Route → Route
stamped_route io r = record r { id = io.uuid; created_at = io.now; updated_at = io.now }

-- What an update stores: the identifier and the creation time stay.
abbrev pub patched_route : Io → Route → Route → Route
patched_route io existing patch = record patch {
  id = existing.id;
  created_at = existing.created_at;
  updated_at = io.now;
}

-- What a toggle writes into the record.
abbrev pub toggled_route : Io → Route → Bool → Route
toggled_route io r active = record r { active = active; updated_at = io.now }

-- ListRoutes
unfoldable pub list_routes : Store → List Route
unfolding values
list_routes s = values s.routes

-- GetRoute
unfoldable pub get_route : Store → Text → Result Route
get_route s id = elim (lookup id s.routes) [ none ↦ err not_found | some r ↦ ok r ]

-- A reference to an upstream that is not there; the empty reference is none.
unfoldable pub dangling : Store → Text → Bool
dangling s uid = not (is_empty uid) && not (has uid s.upstreams)

-- CreateRoute
unfoldable pub create_route : Io → Store → Route → Result Route × Store
create_route io s r =
    if route_name_taken r.name s.routes
    then (err conflict, s)
    else if dangling s r.upstream_id
    then (err (upstream_not_found r.upstream_id), s)
    else (let cp = stamped_route io r in
        commit io (record s { routes = insert io.uuid cp s.routes }) cp
          (λ t. record t { routes = delete io.uuid t.routes }))

-- UpdateRoute
unfoldable pub update_route : Io → Store → Text → Route → Result Route × Store
update_route io s id patch = elim (lookup id s.routes) [
  | none ↦ (err not_found, s)
  | some existing ↦
      (if dangling s patch.upstream_id
        then (err (upstream_not_found patch.upstream_id), s)
        else if route_name_taken_by_other id patch.name s.routes
        then (err conflict, s)
        else (let cp = patched_route io existing patch in
            commit io (record s { routes = insert id cp s.routes }) cp
              (λ t. record t { routes = insert id existing t.routes })))
]

-- DeleteRoute
unfoldable pub delete_route : Io → Store → Text → Result (Unit {0}) × Store
delete_route io s id = elim (lookup id s.routes) [
  | none ↦ (err not_found, s)
  | some backup ↦
      commit io (record s { routes = delete id s.routes }) tt
        (λ t. record t { routes = insert id backup t.routes })
]

-- ToggleRoute: the route is changed in place, and a failed write leaves the change.
unfoldable pub toggle_route : Io → Store → Text → Bool → Result Route × Store
toggle_route io s id active = elim (lookup id s.routes) [
  | none ↦ (err not_found, s)
  | some r ↦
      (let r' = toggled_route io r active in
        commit io (record s { routes = insert id r' s.routes }) r' (λ t. t))
]
