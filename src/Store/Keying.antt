-- ===== src/Store/Keying.antt =====
-- Every record stands under its identifier, so that the configuration file gives the store back.
mod Common
mod Routes
mod Upstreams
mod Policies
use helix_gateway.Store.State.{Store, Io}
use helix_gateway.Store.Calls.{
  Call, creates_route, updates_route, deletes_route, toggles_route, creates_upstream,
  updates_upstream, deletes_upstream, creates_policy, updates_policy, deletes_policy,
  toggles_policy, exec,
}
pub use helix_gateway.Store.Keying.Common.{IsKeyed}
use helix_gateway.Store.Keying.Routes.{
  routes_creates, routes_updates, routes_deletes, routes_toggles,
}
use helix_gateway.Store.Keying.Upstreams.{upstreams_creates, upstreams_updates, upstreams_deletes}
use helix_gateway.Store.Keying.Policies.{
  policies_creates, policies_updates, policies_deletes, policies_toggles,
}

-- Every call on routes, upstreams or IP policies, failing or not, keeps each record under its own
-- identifier and no identifier twice.
pub exec-IsKeyed : (io : Io) (s : Store) (c : Call) → IsKeyed s → IsKeyed (exec io s c).1
exec-IsKeyed io s (creates_route r) h = routes_creates io s h r
exec-IsKeyed io s (updates_route id r) h = routes_updates io s h id r
exec-IsKeyed io s (deletes_route id) h = routes_deletes io s h id
exec-IsKeyed io s (toggles_route id active) h = routes_toggles io s h id active
exec-IsKeyed io s (creates_upstream u) h = upstreams_creates io s h u
exec-IsKeyed io s (updates_upstream id u) h = upstreams_updates io s h id u
exec-IsKeyed io s (deletes_upstream id) h = upstreams_deletes io s h id
exec-IsKeyed io s (creates_policy p) h = policies_creates io s h p
exec-IsKeyed io s (updates_policy id p) h = policies_updates io s h id p
exec-IsKeyed io s (deletes_policy id) h = policies_deletes io s h id
exec-IsKeyed io s (toggles_policy id active) h = policies_toggles io s h id active
