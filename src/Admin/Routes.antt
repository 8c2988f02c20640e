-- ===== src/Admin/Routes.antt =====
-- internal/admin/routes.go: the handlers of routes.
use helix_gateway.Base.{Text, length}
use helix_gateway.Store.Routes
use helix_gateway.Admin.{
  Env, Handlers, Answer, AdminRequest, routes, route, nothing, limited, write_json, reply, decoded,
}

-- listRoutes
unfoldable pub list_routes : Handlers → Answer
list_routes h =
    write_json 200 (routes (Routes.list_routes h.store) (length (Routes.list_routes h.store)))

-- createRoute
unfoldable pub create_route : Env → Handlers → AdminRequest → Answer × Handlers
create_route env h r =
    decoded h (env.json.route (limited r.body)) (λ body.
      reply env h (λ x. write_json 201 (route x)) (Routes.create_route env.io h.store body))

-- getRoute
unfoldable pub get_route : Env → Handlers → Text → Answer × Handlers
get_route env h id =
    reply env h (λ x. write_json 200 (route x)) (Routes.get_route h.store id, h.store)

-- updateRoute
unfoldable pub update_route : Env → Handlers → Text → AdminRequest → Answer × Handlers
update_route env h id r = decoded h (env.json.route (limited r.body)) (λ body.
    reply env h (λ x. write_json 200 (route x)) (Routes.update_route env.io h.store id body))

-- deleteRoute
unfoldable pub delete_route : Env → Handlers → Text → Answer × Handlers
delete_route env h id =
    reply env h (λ _. write_json 204 nothing) (Routes.delete_route env.io h.store id)

-- toggleRoute
unfoldable pub toggle_route : Env → Handlers → Text → AdminRequest → Answer × Handlers
toggle_route env h id r = decoded h (env.json.toggle (limited r.body)) (λ active.
    reply env h (λ x. write_json 200 (route x)) (Routes.toggle_route env.io h.store id active))
