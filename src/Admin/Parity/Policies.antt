-- ===== src/Admin/Parity/Policies.antt =====
-- The calls of the admin client on IP policies, as calls of the store.
use helix_gateway.Base.{text_eq, Text, text, true, false, ◌++◌, [], some, refl, ◌≡◌}
use helix_gateway.Store.Model.{IpPolicy}
use helix_gateway.Store.Policies
use helix_gateway.Admin.{Env, Handlers, Payload, policy, nothing, write_json, limited}
use helix_gateway.Admin.Policies as PolicyHandlers
use helix_gateway.Admin.Mux.{Endpoint, chosen, resolve, choose, match_path, segments}
use helix_gateway.Admin.Mux.Segments.{IsSegment, is_plain, is_plain_path}
use helix_gateway.Admin.Mux.Policies.{resolve-update_policy, resolve-delete_policy, policies-plain}
use helix_gateway.Admin.Server.{Login, serve}
use helix_gateway.Admin.Client
use helix_gateway.Admin.Client.{Web, Outcome, done, read_response, do_request}
use helix_gateway.Admin.Remote.{IsServed, seen, exchange-seen}

resolve-create_policy :
    resolve (text "POST") (text "/admin/v1/policies") ≡ chosen Endpoint.create_policy
unfolding resolve choose match_path segments text_eq
resolve-create_policy = refl

create_plain : is_plain_path (text "/admin/v1/policies") ≡ true
unfolding is_plain
create_plain = refl

module _ {B : Type 0} (w : Web B Handlers) (c : Client.Client) (login : Login) (env : Env)
    (render : Payload → B) (net : IsServed w c login env render) (h : Handlers) where
  pub create_policy-seen :
      (x : IpPolicy) (bytes : Text)
      → w.write_policy x ≡ some bytes
      → env.json.policy (limited bytes) ≡ some x
      → Client.create_policy w c x h
        ≡ seen env h
            (text "POST")
            (text "/admin/v1/policies")
            (Policies.create_ip_policy env.io h.store x)
  unfolding Client.create_policy do_request
  create_policy-seen x bytes e d =
      rw (e, Client.create_policy, do_request)
        (exchange-seen w c login env render net h (text "POST") (text "/admin/v1/policies")
          w.zero_policy w.read_policy bytes true Endpoint.create_policy
          (λ a. write_json 201 (policy a)) (Policies.create_ip_policy env.io h.store x)
          resolve-create_policy create_plain
          (λ r same. unfold serve PolicyHandlers.create_policy in rw (same, d) refl)
          (λ a. unfold read_response in rw (net.policy a) refl))

  pub update_policy-seen :
      (id : Text) (x : IpPolicy) (bytes : Text)
      → IsSegment id
      → w.write_policy x ≡ some bytes
      → env.json.policy (limited bytes) ≡ some x
      → Client.update_policy w c id x h
        ≡ seen env h
            (text "PUT")
            (text "/admin/v1/policies/" ++ id)
            (Policies.update_ip_policy env.io h.store id x)
  unfolding Client.update_policy do_request
  update_policy-seen id x bytes i e d =
      rw (e, Client.update_policy, do_request)
        (exchange-seen w c login env render net h (text "PUT") (text "/admin/v1/policies/" ++ id)
          w.zero_policy w.read_policy bytes true (Endpoint.update_policy id)
          (λ a. write_json 200 (policy a)) (Policies.update_ip_policy env.io h.store id x)
          (resolve-update_policy id i) (policies-plain id i)
          (λ r same. unfold serve PolicyHandlers.update_policy in rw (same, d) refl)
          (λ a. unfold read_response in rw (net.policy a) refl))

  pub delete_policy-seen :
      (id : Text)
      → IsSegment id
      → Client.delete_policy w c id h
        ≡ seen env h
            (text "DELETE")
            (text "/admin/v1/policies/" ++ id)
            (Policies.delete_ip_policy env.io h.store id)
  unfolding Client.delete_policy do_request
  delete_policy-seen id i =
      exchange-seen w c login env render net h (text "DELETE") (text "/admin/v1/policies/" ++ id) tt
        (λ _. some tt) [] false (Endpoint.delete_policy id) (λ _. write_json 204 nothing)
        (Policies.delete_ip_policy env.io h.store id) (resolve-delete_policy id i)
        (policies-plain id i) (λ r same. unfold serve PolicyHandlers.delete_policy in refl)
        (λ a. unfold read_response in refl)
