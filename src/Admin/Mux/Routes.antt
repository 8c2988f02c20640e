-- ===== src/Admin/Mux/Routes.antt =====
-- The endpoints that the paths of routes reach.
use helix_gateway.Base.{
  ap, ◌∙◌, Text, text, text_eq, is_empty, ◌==◌, not, true, false, all, [], ◌∷◌, ◌++◌, refl, ◌≡◌,
}
use helix_gateway.Admin.Mux.{
  chosen, resolve, segments, choose, patterns, match_path, update_route, delete_route, get_route,
  toggle_route,
}
use helix_gateway.Admin.Mux.Segments.{
  IsSegment, segments-one, segments-before, is_plain, is_plain_path, plain-no_slash, plain-id,
  plain-append,
}

-- The paths hold nothing that a URL escapes.
pub routes-plain :
    (id : Text) → IsSegment id → is_plain_path (text "/admin/v1/routes/" ++ id) ≡ true
unfolding is_plain
routes-plain id i = plain-append (text "/admin/v1/routes/") id refl (plain-id id i.1)

pub routes_toggle-plain :
    (id : Text)
    → IsSegment id
    → is_plain_path (text "/admin/v1/routes/" ++ id ++ text "/toggle") ≡ true
unfolding is_plain
routes_toggle-plain id i =
    plain-append (text "/admin/v1/routes/") (id ++ text "/toggle") refl
      (plain-append id (text "/toggle") (plain-id id i.1) refl)

routes_segments :
    (id : Text)
    → all (λ c. not (c == b'/')) id ≡ true
    → segments (text "/admin/v1/routes/" ++ id)
      ≡ [] ∷ text "admin" ∷ text "v1" ∷ text "routes" ∷ id ∷ []
unfolding segments
routes_segments id h =
    ap (λ ws. [] ∷ text "admin" ∷ text "v1" ∷ text "routes" ∷ ws) (segments-one id h)

chosen-get_route :
    (id : Text)
    → is_empty id ≡ false
    → choose patterns (text "GET") ([] ∷ text "admin" ∷ text "v1" ∷ text "routes" ∷ id ∷ [])
      ≡ chosen (get_route id)
unfolding choose match_path text_eq
chosen-get_route [] h = cc
chosen-get_route (c ∷ s) h = refl

-- GET of the path of one of the routes reaches its handler with the identifier.
resolve-get_route :
    (id : Text)
    → IsSegment id
    → resolve (text "GET") (text "/admin/v1/routes/" ++ id) ≡ chosen (get_route id)
unfolding resolve
resolve-get_route id h =
    ap (choose patterns (text "GET")) (routes_segments id (plain-no_slash id h.1))
    ∙ chosen-get_route id h.0

chosen-update_route :
    (id : Text)
    → is_empty id ≡ false
    → choose patterns (text "PUT") ([] ∷ text "admin" ∷ text "v1" ∷ text "routes" ∷ id ∷ [])
      ≡ chosen (update_route id)
unfolding choose match_path text_eq
chosen-update_route [] h = cc
chosen-update_route (c ∷ s) h = refl

-- PUT of the path of one of the routes reaches its handler with the identifier.
pub resolve-update_route :
    (id : Text)
    → IsSegment id
    → resolve (text "PUT") (text "/admin/v1/routes/" ++ id) ≡ chosen (update_route id)
unfolding resolve
resolve-update_route id h =
    ap (choose patterns (text "PUT")) (routes_segments id (plain-no_slash id h.1))
    ∙ chosen-update_route id h.0

chosen-delete_route :
    (id : Text)
    → is_empty id ≡ false
    → choose patterns (text "DELETE") ([] ∷ text "admin" ∷ text "v1" ∷ text "routes" ∷ id ∷ [])
      ≡ chosen (delete_route id)
unfolding choose match_path text_eq
chosen-delete_route [] h = cc
chosen-delete_route (c ∷ s) h = refl

-- DELETE of the path of one of the routes reaches its handler with the identifier.
pub resolve-delete_route :
    (id : Text)
    → IsSegment id
    → resolve (text "DELETE") (text "/admin/v1/routes/" ++ id) ≡ chosen (delete_route id)
unfolding resolve
resolve-delete_route id h =
    ap (choose patterns (text "DELETE")) (routes_segments id (plain-no_slash id h.1))
    ∙ chosen-delete_route id h.0

routes_toggle_segments :
    (id : Text)
    → all (λ c. not (c == b'/')) id ≡ true
    → segments (text "/admin/v1/routes/" ++ id ++ text "/toggle")
      ≡ [] ∷ text "admin" ∷ text "v1" ∷ text "routes" ∷ id ∷ text "toggle" ∷ []
unfolding segments
routes_toggle_segments id h =
    ap (λ ws. [] ∷ text "admin" ∷ text "v1" ∷ text "routes" ∷ ws)
      (segments-before id (text "toggle") h)

chosen-toggle_route :
    (id : Text)
    → is_empty id ≡ false
    → choose patterns
        (text "PATCH")
        ([] ∷ text "admin" ∷ text "v1" ∷ text "routes" ∷ id ∷ text "toggle" ∷ [])
      ≡ chosen (toggle_route id)
unfolding choose match_path text_eq
chosen-toggle_route [] h = cc
chosen-toggle_route (c ∷ s) h = refl

-- PATCH of its path with /toggle reaches the toggle.
pub resolve-toggle_route :
    (id : Text)
    → IsSegment id
    → resolve (text "PATCH") (text "/admin/v1/routes/" ++ id ++ text "/toggle")
      ≡ chosen (toggle_route id)
unfolding resolve
resolve-toggle_route id h =
    ap (choose patterns (text "PATCH")) (routes_toggle_segments id (plain-no_slash id h.1))
    ∙ chosen-toggle_route id h.0
