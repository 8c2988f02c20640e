-- ===== src/Admin/Reading.antt =====
-- The requests that change nothing.
use mathlib.Core.Option
use helix_gateway.Base.{Option, none, some, refl, ◌≡◌}
use helix_gateway.Store.State.{Result, ok, err}
use helix_gateway.Store.Calls.{Call}
use helix_gateway.Admin.{Env, Handlers, Answer, AdminRequest, reply, decoded}
use helix_gateway.Admin.Mux.{Endpoint}
use helix_gateway.Admin.Server.{serve}
use helix_gateway.Admin.Trail.{audit_entry}
use helix_gateway.Admin.Effects.{change_of}
use helix_gateway.Admin.Keys
use helix_gateway.Admin.Routes
use helix_gateway.Admin.Upstreams
use helix_gateway.Admin.Policies

module _ (h : Handlers) where
  undecoded :
      {A : Type 0} (o : Option A) (call : A → Call) (k : A → Answer × Handlers)
      → Option.map call o ≡ none
      → (decoded h o k).1 ≡ h
  undecoded none call k e = refl
  undecoded (some a) call k e = cc

  reply-unchanged :
      {A : Type 0} (env : Env) (answer : A → Answer) (o : Result A)
      → (reply env h answer (o, h.store)).1 ≡ h
  reply-unchanged env answer (ok a) = refl
  reply-unchanged env answer (err f) = refl

module _ (env : Env) (h : Handlers) (r : AdminRequest) where
  -- A request that asks for no call of the store and is not about a change of an API key leaves all
  -- state as it was.
  pub serve-unchanged :
      (ep : Endpoint)
      → change_of env r ep ≡ none
      → audit_entry env r ep ≡ none
      → (serve env h r ep).1 ≡ h
  unfolding serve change_of
  serve-unchanged Endpoint.health a b = refl
  serve-unchanged Endpoint.info a b = refl
  serve-unchanged Endpoint.plugins a b = refl
  serve-unchanged Endpoint.config_export a b = refl
  serve-unchanged Endpoint.metrics a b = refl
  serve-unchanged Endpoint.list_routes a b = refl
  serve-unchanged Endpoint.list_upstreams a b = refl
  serve-unchanged Endpoint.list_policies a b = refl
  serve-unchanged Endpoint.list_keys a b = refl
  serve-unchanged Endpoint.audit_log a b = refl
  serve-unchanged Endpoint.create_key a b = cc
  serve-unchanged (Endpoint.delete_key id) a b = cc
  serve-unchanged (Endpoint.toggle_key id) a b = cc
  serve-unchanged (Endpoint.get_route id) a b = unfold Routes.get_route in reply-unchanged h env _ _
  serve-unchanged (Endpoint.get_upstream id) a b =
      unfold Upstreams.get_upstream in reply-unchanged h env _ _
  serve-unchanged (Endpoint.health_upstream id) a b =
      unfold Upstreams.upstream_health in reply-unchanged h env _ _
  serve-unchanged (Endpoint.get_policy id) a b =
      unfold Policies.get_policy in reply-unchanged h env _ _
  serve-unchanged (Endpoint.get_key id) a b = unfold Keys.get_key in reply-unchanged h env _ _
  serve-unchanged Endpoint.create_route a b = unfold Routes.create_route in undecoded h _ _ _ a
  serve-unchanged (Endpoint.update_route id) a b = unfold Routes.update_route in undecoded h _ _ _ a
  serve-unchanged (Endpoint.toggle_route id) a b = unfold Routes.toggle_route in undecoded h _ _ _ a
  serve-unchanged (Endpoint.delete_route id) a b = cc
  serve-unchanged Endpoint.create_upstream a b =
      unfold Upstreams.create_upstream in undecoded h _ _ _ a
  serve-unchanged (Endpoint.update_upstream id) a b =
      unfold Upstreams.update_upstream in undecoded h _ _ _ a
  serve-unchanged (Endpoint.delete_upstream id) a b = cc
  serve-unchanged Endpoint.create_policy a b = unfold Policies.create_policy in undecoded h _ _ _ a
  serve-unchanged (Endpoint.update_policy id) a b =
      unfold Policies.update_policy in undecoded h _ _ _ a
  serve-unchanged (Endpoint.toggle_policy id) a b =
      unfold Policies.toggle_policy in undecoded h _ _ _ a
  serve-unchanged (Endpoint.delete_policy id) a b = cc
