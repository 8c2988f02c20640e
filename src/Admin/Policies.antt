-- ===== src/Admin/Policies.antt =====
-- internal/admin/policies.go: the handlers of policies.
use helix_gateway.Base.{Text, length}
use helix_gateway.Store.Policies
use helix_gateway.Admin.{
  Env, Handlers, Answer, AdminRequest, policies, policy, nothing, limited, write_json, reply,
  decoded,
}

-- listPolicies
unfoldable pub list_policies : Handlers → Answer
list_policies h =
    write_json 200
      (policies (Policies.list_ip_policies h.store) (length (Policies.list_ip_policies h.store)))

-- createPolicy
unfoldable pub create_policy : Env → Handlers → AdminRequest → Answer × Handlers
create_policy env h r = decoded h (env.json.policy (limited r.body)) (λ body.
    reply env h (λ x. write_json 201 (policy x)) (Policies.create_ip_policy env.io h.store body))

-- getPolicy
unfoldable pub get_policy : Env → Handlers → Text → Answer × Handlers
get_policy env h id =
    reply env h (λ x. write_json 200 (policy x)) (Policies.get_ip_policy h.store id, h.store)

-- updatePolicy
unfoldable pub update_policy : Env → Handlers → Text → AdminRequest → Answer × Handlers
update_policy env h id r = decoded h (env.json.policy (limited r.body)) (λ body.
    reply env h (λ x. write_json 200 (policy x)) (Policies.update_ip_policy env.io h.store id body))

-- deletePolicy
unfoldable pub delete_policy : Env → Handlers → Text → Answer × Handlers
delete_policy env h id =
    reply env h (λ _. write_json 204 nothing) (Policies.delete_ip_policy env.io h.store id)

-- togglePolicy
unfoldable pub toggle_policy : Env → Handlers → Text → AdminRequest → Answer × Handlers
toggle_policy env h id r = decoded h (env.json.toggle (limited r.body)) (λ active.
    reply env h (λ x. write_json 200 (policy x))
      (Policies.toggle_ip_policy env.io h.store id active))
