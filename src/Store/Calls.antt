-- ===== src/Store/Calls.antt =====
-- internal/store/store.go: the calls that change routes, upstreams or IP policies, as data, so that
-- one statement speaks of them all. The calls on API keys are in `Keys`.
use helix_gateway.Base.{Text, Bool, true, false}
use helix_gateway.Store.Model.{Route, Upstream, IpPolicy}
use helix_gateway.Store.State.{Store, Io, Result, ok, err}
use helix_gateway.Store.Routes.{create_route, update_route, delete_route, toggle_route}
use helix_gateway.Store.Upstreams.{create_upstream, update_upstream, delete_upstream}
use helix_gateway.Store.Policies.{
  create_ip_policy, update_ip_policy, delete_ip_policy, toggle_ip_policy,
}

pub data Call : Type 0 where
  creates_route : Route → Call
  updates_route : Text → Route → Call
  deletes_route : Text → Call
  toggles_route : Text → Bool → Call
  creates_upstream : Upstream → Call
  updates_upstream : Text → Upstream → Call
  deletes_upstream : Text → Call
  creates_policy : IpPolicy → Call
  updates_policy : Text → IpPolicy → Call
  deletes_policy : Text → Call
  toggles_policy : Text → Bool → Call

-- A result without its value.
abbrev pub status {ℓ} : {A : Type ℓ} → Result A × Store → Result (Unit {0}) × Store
status (ok a, s) = (ok tt, s)
status (err f, s) = (err f, s)

unfoldable pub exec : Io → Store → Call → Result (Unit {0}) × Store
exec io s (creates_route r) = status (create_route io s r)
exec io s (updates_route id r) = status (update_route io s id r)
exec io s (deletes_route id) = status (delete_route io s id)
exec io s (toggles_route id active) = status (toggle_route io s id active)
exec io s (creates_upstream u) = status (create_upstream io s u)
exec io s (updates_upstream id u) = status (update_upstream io s id u)
exec io s (deletes_upstream id) = status (delete_upstream io s id)
exec io s (creates_policy p) = status (create_ip_policy io s p)
exec io s (updates_policy id p) = status (update_ip_policy io s id p)
exec io s (deletes_policy id) = status (delete_ip_policy io s id)
exec io s (toggles_policy id active) = status (toggle_ip_policy io s id active)

-- The toggles, which change the record in place before they write.
unfoldable pub is_toggle : Call → Bool
is_toggle (toggles_route id active) = true
is_toggle (toggles_policy id active) = true
is_toggle _ = false
