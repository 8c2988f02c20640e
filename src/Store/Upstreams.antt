-- ===== src/Store/Upstreams.antt =====
-- internal/store/store.go: the operations on upstreams.
pub mod Ends
use helix_gateway.Base.{
  Table, Bool, Text, text_eq, not, ◌&&◌, List, none, some, any, lookup, insert, delete, values,
  if◌then◌else◌,
}
use helix_gateway.Store.Model.{Upstream}
use helix_gateway.Store.State.{Store, Io, Result, ok, err, not_found, conflict, in_use, commit}

-- The loop that looks for another upstream of the same name.
abbrev pub upstream_name_taken : Text → Table Upstream → Bool
upstream_name_taken name m = any (λ e. text_eq e.1.name name) m

-- The same loop, which passes over the key `id`.
abbrev pub upstream_name_taken_by_other : Text → Text → Table Upstream → Bool
upstream_name_taken_by_other id name m = any (λ e. text_eq e.1.name name && not (text_eq e.0 id)) m

-- What a creation stores: a new identifier and the two times.
abbrev pub stamped_upstream : Io → Upstream → Upstream
stamped_upstream io u = record u { id = io.uuid; created_at = io.now; updated_at = io.now }

-- What an update stores: the identifier and the creation time stay.
abbrev pub patched_upstream : Io → Upstream → Upstream → Upstream
patched_upstream io existing patch = record patch {
  id = existing.id;
  created_at = existing.created_at;
  updated_at = io.now;
}

-- ListUpstreams
unfoldable pub list_upstreams : Store → List Upstream
unfolding values
list_upstreams s = values s.upstreams

-- GetUpstream
unfoldable pub get_upstream : Store → Text → Result Upstream
get_upstream s id = elim (lookup id s.upstreams) [ none ↦ err not_found | some u ↦ ok u ]

-- CreateUpstream
unfoldable pub create_upstream : Io → Store → Upstream → Result Upstream × Store
create_upstream io s u =
    if upstream_name_taken u.name s.upstreams
    then (err conflict, s)
    else (let cp = stamped_upstream io u in
        commit io (record s { upstreams = insert io.uuid cp s.upstreams }) cp
          (λ t. record t { upstreams = delete io.uuid t.upstreams }))

-- UpdateUpstream
unfoldable pub update_upstream : Io → Store → Text → Upstream → Result Upstream × Store
update_upstream io s id patch = elim (lookup id s.upstreams) [
  | none ↦ (err not_found, s)
  | some existing ↦
      (if upstream_name_taken_by_other id patch.name s.upstreams
        then (err conflict, s)
        else (let cp = patched_upstream io existing patch in
            commit io (record s { upstreams = insert id cp s.upstreams }) cp
              (λ t. record t { upstreams = insert id existing t.upstreams })))
]

-- DeleteUpstream: refused while a route names it.
unfoldable pub delete_upstream : Io → Store → Text → Result (Unit {0}) × Store
delete_upstream io s id = elim (lookup id s.upstreams) [
  | none ↦ (err not_found, s)
  | some backup ↦
      (if any (λ e. text_eq e.1.upstream_id id) s.routes
        then (err in_use, s)
        else commit io (record s { upstreams = delete id s.upstreams }) tt
            (λ t. record t { upstreams = insert id backup t.upstreams }))
]
