-- ===== src/Admin/Parity/Mismatch.antt =====
-- The methods of the admin client that do not say what their handlers read.
use helix_gateway.Base.{Text, text, text_eq, ◌++◌, [], List, ℕ, none, ◌≡◌, ◌∙◌, refl, true, false}
use helix_gateway.Store.Model.{Route}
use helix_gateway.Admin.{Env, Handlers, Payload, limited, routes}
use helix_gateway.Admin.Mux.{Endpoint, chosen, resolve, choose, match_path, segments}
use helix_gateway.Admin.Mux.Segments.{IsSegment, is_plain, is_plain_path}
use helix_gateway.Admin.Mux.Routes.{resolve-toggle_route, routes_toggle-plain}
use helix_gateway.Admin.Server.{Login, serve}
use helix_gateway.Admin.Routes as RouteHandlers
use helix_gateway.Admin.Client
use helix_gateway.Admin.Client.{
  Web, Outcome, done, failed, admin_api, decode_response, read_response, do_request,
}
use helix_gateway.Admin.Remote.{IsServed, exchange-served}

-- The toggle of a route through the client, which sends no body, is always answered with the error
-- BAD_REQUEST and changes nothing, where an empty body does not decode.
pub toggle_route_never_toggles :
    {B : Type 0} (w : Web B Handlers) (c : Client.Client) (login : Login) (env : Env)
    (render : Payload → B) (net : IsServed w c login env render) (h : Handlers) (id : Text)
    → IsSegment id
    → env.json.toggle (limited []) ≡ none
    → Client.toggle_route w c id h ≡ (
      failed (
          admin_api
            (text "PATCH")
            (text "/admin/v1/routes/" ++ id ++ text "/toggle")
            (text "BAD_REQUEST")
            (text "invalid request body")),
      h,
    )
unfolding Client.toggle_route do_request
toggle_route_never_toggles w c login env render net h id i e =
    exchange-served w c login env render net h (text "PATCH")
      (text "/admin/v1/routes/" ++ id ++ text "/toggle") w.zero_route w.read_route [] false
      (Endpoint.toggle_route id) (resolve-toggle_route id i) (routes_toggle-plain id i)
    ∙ (unfold serve RouteHandlers.toggle_route read_response in
        rw (e, net.error (text "BAD_REQUEST") (text "invalid request body")) refl)

resolve-list_routes : resolve (text "GET") (text "/admin/v1/routes") ≡ chosen Endpoint.list_routes
unfolding resolve choose match_path segments text_eq
resolve-list_routes = refl

list_plain : is_plain_path (text "/admin/v1/routes") ≡ true
unfolding is_plain
list_plain = refl

-- The client's list of routes always ends with a decoding error, where no object decodes into a
-- list: the handler answers with an object that has the list under data.
pub list_routes_never_lists :
    {B : Type 0} (w : Web B Handlers) (c : Client.Client) (login : Login) (env : Env)
    (render : Payload → B) (net : IsServed w c login env render) (h : Handlers)
    → ((xs : List Route) (n : ℕ) → w.read_routes (render (routes xs n)) ≡ none)
    → Client.list_routes w c h ≡ (failed decode_response, h)
unfolding Client.list_routes do_request
list_routes_never_lists w c login env render net h e =
    exchange-served w c login env render net h (text "GET") (text "/admin/v1/routes") []
      w.read_routes [] false Endpoint.list_routes resolve-list_routes list_plain
    ∙ (unfold serve RouteHandlers.list_routes read_response in rw (e _ _) refl)
