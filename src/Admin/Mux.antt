-- ===== src/Admin/Mux.antt =====
-- internal/admin/handler.go: the table of endpoints that registerRoutes gives to http.ServeMux, and
-- the mux's choice. The stream of metrics and the files of the UI are left out.
pub mod Segments
pub mod Routes
pub mod Upstreams
pub mod Policies
use helix_gateway.Base.{
  Text, text, text_eq, is_empty, ◌==◌, ◌&&◌, ◌||◌, Bool, List, [], ◌∷◌, Option, none, some,
  if◌then◌else◌, ◌≡◌, refl,
}

-- The handlers by name, with the path value id where the pattern has one.
pub data Endpoint : Type 0 where
  health info plugins config_export metrics list_routes create_route list_upstreams create_upstream
        list_policies create_policy list_keys create_key audit_log :
      Endpoint
  get_route update_route delete_route toggle_route get_upstream update_upstream delete_upstream
        health_upstream get_policy update_policy delete_policy toggle_policy get_key delete_key
        toggle_key :
      Text → Endpoint

-- A segment of a pattern: a word, or {id}
pub data Segment : Type 0 where
  word : Text → Segment
  id : Segment

pub record Pattern : Type 0 where
  pub method : Text
  pub path : List Segment
  pub endpoint : Text → Endpoint

pub data Choice : Type 0 where
  chosen : Endpoint → Choice
  wrong_method unknown : Choice

-- The text between the slashes.
unfoldable pub segments : Text → List Text
segments [] = [] ∷ []
segments (c ∷ s) =
    let rest = segments s in
    if c == b'/' then [] ∷ rest else elim rest [ [] ↦ (c ∷ []) ∷ [] | w ∷ ws ↦ (c ∷ w) ∷ ws ]

-- Whether the segments fit, and the value of {id}, which no empty segment gives.
unfoldable pub match_path : List Segment → List Text → Text → Option Text
match_path [] [] found = some found
match_path [] (w ∷ ws) found = none
match_path (p ∷ ps) [] found = none
match_path (word v ∷ ps) (w ∷ ws) found =
    let rest = match_path ps ws found in if text_eq v w then rest else none
match_path (id ∷ ps) (w ∷ ws) found =
    let rest = match_path ps ws w in if is_empty w then none else rest

-- A pattern for GET takes HEAD as well.
abbrev pub method_fits : Text → Text → Bool
method_fits pattern method =
    text_eq pattern method || text_eq pattern (text "GET") && text_eq method (text "HEAD")

-- The mux's choice among patterns of which no two fit one request.
unfoldable pub choose : List Pattern → Text → List Text → Choice
choose [] method ws = unknown
choose (p ∷ ps) method ws =
    let rest = choose ps method ws in
    elim (match_path p.path ws []) [
      | none ↦ rest
      | some found ↦
          if method_fits p.method method
          then chosen (p.endpoint found)
          else (elim rest [ chosen e ↦ chosen e | _ ↦ wrong_method ])
    ]

abbrev at : Text → List Segment → (Text → Endpoint) → Pattern
at method path endpoint = record { method = method; path = path; endpoint = endpoint }

abbrev v1 : Text → List Segment → List Segment
v1 name rest = word [] ∷ word (text "admin") ∷ word (text "v1") ∷ word name ∷ rest

-- registerRoutes
abbrev pub patterns : List Pattern
patterns =
    at (text "GET") (word [] ∷ word (text "admin") ∷ word (text "health") ∷ []) (λ _. health)
    ∷ at (text "GET") (v1 (text "info") []) (λ _. info)
    ∷ at (text "GET") (v1 (text "plugins") []) (λ _. plugins)
    ∷ at (text "GET") (v1 (text "config") (word (text "export") ∷ [])) (λ _. config_export)
    ∷ at (text "GET") (v1 (text "metrics") []) (λ _. metrics)
    ∷ at (text "GET") (v1 (text "routes") []) (λ _. list_routes)
    ∷ at (text "POST") (v1 (text "routes") []) (λ _. create_route)
    ∷ at (text "GET") (v1 (text "routes") (id ∷ [])) get_route
    ∷ at (text "PUT") (v1 (text "routes") (id ∷ [])) update_route
    ∷ at (text "DELETE") (v1 (text "routes") (id ∷ [])) delete_route
    ∷ at (text "PATCH") (v1 (text "routes") (id ∷ word (text "toggle") ∷ [])) toggle_route
    ∷ at (text "GET") (v1 (text "upstreams") []) (λ _. list_upstreams)
    ∷ at (text "POST") (v1 (text "upstreams") []) (λ _. create_upstream)
    ∷ at (text "GET") (v1 (text "upstreams") (id ∷ [])) get_upstream
    ∷ at (text "PUT") (v1 (text "upstreams") (id ∷ [])) update_upstream
    ∷ at (text "DELETE") (v1 (text "upstreams") (id ∷ [])) delete_upstream
    ∷ at (text "GET") (v1 (text "upstreams") (id ∷ word (text "health") ∷ [])) health_upstream
    ∷ at (text "GET") (v1 (text "policies") []) (λ _. list_policies)
    ∷ at (text "POST") (v1 (text "policies") []) (λ _. create_policy)
    ∷ at (text "GET") (v1 (text "policies") (id ∷ [])) get_policy
    ∷ at (text "PUT") (v1 (text "policies") (id ∷ [])) update_policy
    ∷ at (text "DELETE") (v1 (text "policies") (id ∷ [])) delete_policy
    ∷ at (text "PATCH") (v1 (text "policies") (id ∷ word (text "toggle") ∷ [])) toggle_policy
    ∷ at (text "GET") (v1 (text "keys") []) (λ _. list_keys)
    ∷ at (text "POST") (v1 (text "keys") []) (λ _. create_key)
    ∷ at (text "GET") (v1 (text "keys") (id ∷ [])) get_key
    ∷ at (text "DELETE") (v1 (text "keys") (id ∷ [])) delete_key
    ∷ at (text "PATCH") (v1 (text "keys") (id ∷ word (text "toggle") ∷ [])) toggle_key
    ∷ at (text "GET") (v1 (text "audit") []) (λ _. audit_log)
    ∷ []

-- The handler of a request.
unfoldable pub resolve : Text → Text → Choice
resolve method path = choose patterns method (segments path)

pub toggle_reached :
    resolve (text "PATCH") (text "/admin/v1/routes/r7/toggle") ≡ chosen (toggle_route (text "r7"))
unfolding resolve choose match_path segments text_eq
toggle_reached = refl
