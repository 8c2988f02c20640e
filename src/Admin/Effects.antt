-- ===== src/Admin/Effects.antt =====
-- What a request to the admin API does to the store, as one call of the store.
use mathlib.Core.Option
use helix_gateway.Base.{ℕ, Option, none, some, refl, ◌≡◌}
use helix_gateway.Store.State.{
  Store, Failure, Result, ok, err, is_not_found, not_found, conflict, in_use, upstream_not_found,
  hash_required, marshal_failed, write_failed, rename_failed, read_failed, parse_failed,
}
use helix_gateway.Store.Calls.{
  Call, creates_route, updates_route, deletes_route, toggles_route, creates_upstream,
  updates_upstream, deletes_upstream, creates_policy, updates_policy, deletes_policy,
  toggles_policy, exec, status,
}
use helix_gateway.Admin.{
  Env, Handlers, Answer, AdminRequest, limited, reply, decoded, store_err, with_store,
}
use helix_gateway.Admin.Mux.{Endpoint}
use helix_gateway.Admin.Server.{serve}
use helix_gateway.Admin.Routes
use helix_gateway.Admin.Upstreams
use helix_gateway.Admin.Policies

-- The call of the store that a request asks for, `none` where its body does not decode, it only
-- reads, or it is about API keys.
unfoldable pub change_of : Env → AdminRequest → Endpoint → Option Call
change_of env r Endpoint.create_route = Option.map creates_route (env.json.route (limited r.body))
change_of env r (Endpoint.update_route id) =
    Option.map (updates_route id) (env.json.route (limited r.body))
change_of env r (Endpoint.delete_route id) = some (deletes_route id)
change_of env r (Endpoint.toggle_route id) =
    Option.map (toggles_route id) (env.json.toggle (limited r.body))
change_of env r Endpoint.create_upstream =
    Option.map creates_upstream (env.json.upstream (limited r.body))
change_of env r (Endpoint.update_upstream id) =
    Option.map (updates_upstream id) (env.json.upstream (limited r.body))
change_of env r (Endpoint.delete_upstream id) = some (deletes_upstream id)
change_of env r Endpoint.create_policy =
    Option.map creates_policy (env.json.policy (limited r.body))
change_of env r (Endpoint.update_policy id) =
    Option.map (updates_policy id) (env.json.policy (limited r.body))
change_of env r (Endpoint.delete_policy id) = some (deletes_policy id)
change_of env r (Endpoint.toggle_policy id) =
    Option.map (toggles_policy id) (env.json.toggle (limited r.body))
change_of env r _ = none

-- The status that the API promises for the outcome of a call.
abbrev pub success_status : Call → ℕ
success_status (creates_route r) = 201
success_status (creates_upstream u) = 201
success_status (creates_policy p) = 201
success_status (deletes_route id) = 204
success_status (deletes_upstream id) = 204
success_status (deletes_policy id) = 204
success_status _ = 200

abbrev pub failure_status : Failure → ℕ
failure_status not_found = 404
failure_status (upstream_not_found id) = 404
failure_status conflict = 409
failure_status in_use = 409
failure_status _ = 500

abbrev pub outcome_status : Call → Result (Unit {0}) → ℕ
outcome_status c (ok t) = success_status c
outcome_status c (err f) = failure_status f

pub store_err-status : (env : Env) (f : Failure) → (store_err env f).status ≡ failure_status f
unfolding store_err is_not_found
store_err-status env not_found = refl
store_err-status env conflict = refl
store_err-status env in_use = refl
store_err-status env hash_required = refl
store_err-status env (upstream_not_found id) = refl
store_err-status env marshal_failed = refl
store_err-status env write_failed = refl
store_err-status env rename_failed = refl
store_err-status env read_failed = refl
store_err-status env parse_failed = refl

-- The answer and the state are those that the call gives.
abbrev pub Performs : Env → Handlers → Call → Answer × Handlers → Type 0
Performs env h c p =
    (p.1 ≡ with_store h (exec env.io h.store c).1)
    × (p.0.status ≡ outcome_status c (exec env.io h.store c).0)

module _ (env : Env) (h : Handlers) (c : Call) where
  reply-Performs :
      {A : Type 0} (answer : A → Answer) (p : Result A × Store)
      → ((a : A) → (answer a).status ≡ success_status c)
      → status p ≡ exec env.io h.store c
      → Performs env h c (reply env h answer p)
  reply-Performs answer (ok a, s) at e = rw (← e) (refl, at a)
  reply-Performs answer (err f, s) at e = rw (← e) (refl, store_err-status env f)

  decoded-Performs :
      {A : Type 0} (o : Option A) (call : A → Call) (k : A → Answer × Handlers)
      → ((a : A) → call a ≡ c → Performs env h c (k a))
      → Option.map call o ≡ some c
      → Performs env h c (decoded h o k)
  decoded-Performs none call k f e = cc
  decoded-Performs (some a) call k f e = f a (cc)

-- Refinement: where a request to an endpoint on routes, upstreams or IP policies asks for a call of
-- the store, the handler leaves the state in which the store is what `exec` makes of it and all
-- else is the same, and answers the status that the outcome of that call has: 200, 201 or 204 for
-- a success, 404 for a record that is not found, 409 for a conflict or a use, 500 for the rest.
pub serve-Performs :
    (env : Env) (h : Handlers) (r : AdminRequest) (c : Call) (ep : Endpoint)
    → change_of env r ep ≡ some c
    → Performs env h c (serve env h r ep)
unfolding serve change_of exec
serve-Performs env h r c Endpoint.create_route e =
    unfold Routes.create_route in
    decoded-Performs env h c (env.json.route (limited r.body)) creates_route _
      (λ a q. rw (← q) (reply-Performs env h (creates_route a) _ _ (λ x. refl) refl)) e
serve-Performs env h r c (Endpoint.update_route id) e =
    unfold Routes.update_route in
    decoded-Performs env h c (env.json.route (limited r.body)) (updates_route id) _
      (λ a q. rw (← q) (reply-Performs env h (updates_route id a) _ _ (λ x. refl) refl)) e
serve-Performs env h r c (Endpoint.toggle_route id) e =
    unfold Routes.toggle_route in
    decoded-Performs env h c (env.json.toggle (limited r.body)) (toggles_route id) _
      (λ a q. rw (← q) (reply-Performs env h (toggles_route id a) _ _ (λ x. refl) refl)) e
serve-Performs env h r c (Endpoint.delete_route id) e =
    let q : deletes_route id ≡ c = cc in
    unfold Routes.delete_route in
    rw (← q) (reply-Performs env h (deletes_route id) _ _ (λ x. refl) refl)
serve-Performs env h r c Endpoint.create_upstream e =
    unfold Upstreams.create_upstream in
    decoded-Performs env h c (env.json.upstream (limited r.body)) creates_upstream _
      (λ a q. rw (← q) (reply-Performs env h (creates_upstream a) _ _ (λ x. refl) refl)) e
serve-Performs env h r c (Endpoint.update_upstream id) e =
    unfold Upstreams.update_upstream in
    decoded-Performs env h c (env.json.upstream (limited r.body)) (updates_upstream id) _
      (λ a q. rw (← q) (reply-Performs env h (updates_upstream id a) _ _ (λ x. refl) refl)) e
serve-Performs env h r c (Endpoint.delete_upstream id) e =
    let q : deletes_upstream id ≡ c = cc in
    unfold Upstreams.delete_upstream in
    rw (← q) (reply-Performs env h (deletes_upstream id) _ _ (λ x. refl) refl)
serve-Performs env h r c Endpoint.create_policy e =
    unfold Policies.create_policy in
    decoded-Performs env h c (env.json.policy (limited r.body)) creates_policy _
      (λ a q. rw (← q) (reply-Performs env h (creates_policy a) _ _ (λ x. refl) refl)) e
serve-Performs env h r c (Endpoint.update_policy id) e =
    unfold Policies.update_policy in
    decoded-Performs env h c (env.json.policy (limited r.body)) (updates_policy id) _
      (λ a q. rw (← q) (reply-Performs env h (updates_policy id a) _ _ (λ x. refl) refl)) e
serve-Performs env h r c (Endpoint.toggle_policy id) e =
    unfold Policies.toggle_policy in
    decoded-Performs env h c (env.json.toggle (limited r.body)) (toggles_policy id) _
      (λ a q. rw (← q) (reply-Performs env h (toggles_policy id a) _ _ (λ x. refl) refl)) e
serve-Performs env h r c (Endpoint.delete_policy id) e =
    let q : deletes_policy id ≡ c = cc in
    unfold Policies.delete_policy in
    rw (← q) (reply-Performs env h (deletes_policy id) _ _ (λ x. refl) refl)
serve-Performs env h r c Endpoint.health e = cc
serve-Performs env h r c Endpoint.info e = cc
serve-Performs env h r c Endpoint.plugins e = cc
serve-Performs env h r c Endpoint.config_export e = cc
serve-Performs env h r c Endpoint.metrics e = cc
serve-Performs env h r c Endpoint.list_routes e = cc
serve-Performs env h r c Endpoint.list_upstreams e = cc
serve-Performs env h r c Endpoint.list_policies e = cc
serve-Performs env h r c Endpoint.list_keys e = cc
serve-Performs env h r c Endpoint.create_key e = cc
serve-Performs env h r c Endpoint.audit_log e = cc
serve-Performs env h r c (Endpoint.get_route id) e = cc
serve-Performs env h r c (Endpoint.get_upstream id) e = cc
serve-Performs env h r c (Endpoint.health_upstream id) e = cc
serve-Performs env h r c (Endpoint.get_policy id) e = cc
serve-Performs env h r c (Endpoint.get_key id) e = cc
serve-Performs env h r c (Endpoint.delete_key id) e = cc
serve-Performs env h r c (Endpoint.toggle_key id) e = cc
