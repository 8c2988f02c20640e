-- ===== src/Store/Names.antt =====
-- Names are unique among the routes, among the upstreams and among the IP policies.
mod Common
mod Routes
mod Upstreams
mod Policies
use helix_gateway.Store.State.{Store, Io}
use helix_gateway.Store.Calls.{
  Call, creates_route, updates_route, deletes_route, toggles_route, creates_upstream,
  updates_upstream, deletes_upstream, creates_policy, updates_policy, deletes_policy,
  toggles_policy, exec,
}
pub use helix_gateway.Store.Names.Common.{HasUniqueNames}
use helix_gateway.Store.Names.Routes.{
  routes_creates, routes_updates, routes_deletes, routes_toggles,
}
use helix_gateway.Store.Names.Upstreams.{upstreams_creates, upstreams_updates, upstreams_deletes}
use helix_gateway.Store.Names.Policies.{
  policies_creates, policies_updates, policies_deletes, policies_toggles,
}

-- Every call on routes, upstreams or IP policies, failing or not, keeps names unique in each of
-- the three maps: two entries of one name stand under one key.
pub exec-HasUniqueNames :
    (io : Io) (s : Store) (c : Call) → HasUniqueNames s → HasUniqueNames (exec io s c).1
exec-HasUniqueNames io s (creates_route r) h = routes_creates io s h r
exec-HasUniqueNames io s (updates_route id r) h = routes_updates io s h id r
exec-HasUniqueNames io s (deletes_route id) h = routes_deletes io s h id
exec-HasUniqueNames io s (toggles_route id active) h = routes_toggles io s h id active
exec-HasUniqueNames io s (creates_upstream u) h = upstreams_creates io s h u
exec-HasUniqueNames io s (updates_upstream id u) h = upstreams_updates io s h id u
exec-HasUniqueNames io s (deletes_upstream id) h = upstreams_deletes io s h id
exec-HasUniqueNames io s (creates_policy p) h = policies_creates io s h p
exec-HasUniqueNames io s (updates_policy id p) h = policies_updates io s h id p
exec-HasUniqueNames io s (deletes_policy id) h = policies_deletes io s h id
exec-HasUniqueNames io s (toggles_policy id active) h = policies_toggles io s h id active
