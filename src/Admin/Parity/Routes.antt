-- ===== src/Admin/Parity/Routes.antt =====
-- The calls of the admin client on routes, as calls of the store.
use helix_gateway.Base.{text_eq, Text, text, true, false, ◌++◌, [], some, refl, ◌≡◌}
use helix_gateway.Store.Model.{Route}
use helix_gateway.Store.Routes
use helix_gateway.Admin.{Env, Handlers, Payload, route, nothing, write_json, limited}
use helix_gateway.Admin.Routes as RouteHandlers
use helix_gateway.Admin.Mux.{Endpoint, chosen, resolve, choose, match_path, segments}
use helix_gateway.Admin.Mux.Segments.{IsSegment, is_plain, is_plain_path}
use helix_gateway.Admin.Mux.Routes.{resolve-update_route, resolve-delete_route, routes-plain}
use helix_gateway.Admin.Server.{Login, serve}
use helix_gateway.Admin.Client
use helix_gateway.Admin.Client.{Web, Outcome, done, read_response, do_request}
use helix_gateway.Admin.Remote.{IsServed, seen, exchange-seen}

resolve-create_route :
    resolve (text "POST") (text "/admin/v1/routes") ≡ chosen Endpoint.create_route
unfolding resolve choose match_path segments text_eq
resolve-create_route = refl

create_plain : is_plain_path (text "/admin/v1/routes") ≡ true
unfolding is_plain
create_plain = refl

module _ {B : Type 0} (w : Web B Handlers) (c : Client.Client) (login : Login) (env : Env)
    (render : Payload → B) (net : IsServed w c login env render) (h : Handlers) where
  pub create_route-seen :
      (x : Route) (bytes : Text)
      → w.write_route x ≡ some bytes
      → env.json.route (limited bytes) ≡ some x
      → Client.create_route w c x h
        ≡ seen env h (text "POST") (text "/admin/v1/routes") (Routes.create_route env.io h.store x)
  unfolding Client.create_route do_request
  create_route-seen x bytes e d =
      rw (e, Client.create_route, do_request)
        (exchange-seen w c login env render net h (text "POST") (text "/admin/v1/routes")
          w.zero_route w.read_route bytes true Endpoint.create_route (λ a. write_json 201 (route a))
          (Routes.create_route env.io h.store x) resolve-create_route create_plain
          (λ r same. unfold serve RouteHandlers.create_route in rw (same, d) refl)
          (λ a. unfold read_response in rw (net.route a) refl))

  pub update_route-seen :
      (id : Text) (x : Route) (bytes : Text)
      → IsSegment id
      → w.write_route x ≡ some bytes
      → env.json.route (limited bytes) ≡ some x
      → Client.update_route w c id x h
        ≡ seen env h
            (text "PUT")
            (text "/admin/v1/routes/" ++ id)
            (Routes.update_route env.io h.store id x)
  unfolding Client.update_route do_request
  update_route-seen id x bytes i e d =
      rw (e, Client.update_route, do_request)
        (exchange-seen w c login env render net h (text "PUT") (text "/admin/v1/routes/" ++ id)
          w.zero_route w.read_route bytes true (Endpoint.update_route id)
          (λ a. write_json 200 (route a)) (Routes.update_route env.io h.store id x)
          (resolve-update_route id i) (routes-plain id i)
          (λ r same. unfold serve RouteHandlers.update_route in rw (same, d) refl)
          (λ a. unfold read_response in rw (net.route a) refl))

  pub delete_route-seen :
      (id : Text)
      → IsSegment id
      → Client.delete_route w c id h
        ≡ seen env h
            (text "DELETE")
            (text "/admin/v1/routes/" ++ id)
            (Routes.delete_route env.io h.store id)
  unfolding Client.delete_route do_request
  delete_route-seen id i =
      exchange-seen w c login env render net h (text "DELETE") (text "/admin/v1/routes/" ++ id) tt
        (λ _. some tt) [] false (Endpoint.delete_route id) (λ _. write_json 204 nothing)
        (Routes.delete_route env.io h.store id) (resolve-delete_route id i) (routes-plain id i)
        (λ r same. unfold serve RouteHandlers.delete_route in refl)
        (λ a. unfold read_response in refl)
