-- ===== src/Admin/Mux/Policies.antt =====
-- The endpoints that the paths of IP policies reach.
use helix_gateway.Base.{
  ap, ◌∙◌, Text, text, text_eq, is_empty, ◌==◌, not, true, false, all, [], ◌∷◌, ◌++◌, refl, ◌≡◌,
}
use helix_gateway.Admin.Mux.{
  chosen, resolve, segments, choose, patterns, match_path, get_policy, update_policy, delete_policy,
  toggle_policy,
}
use helix_gateway.Admin.Mux.Segments.{
  IsSegment, segments-one, segments-before, is_plain, is_plain_path, plain-no_slash, plain-id,
  plain-append,
}

-- The paths hold nothing that a URL escapes.
pub policies-plain :
    (id : Text) → IsSegment id → is_plain_path (text "/admin/v1/policies/" ++ id) ≡ true
unfolding is_plain
policies-plain id i = plain-append (text "/admin/v1/policies/") id refl (plain-id id i.1)

policies_segments :
    (id : Text)
    → all (λ c. not (c == b'/')) id ≡ true
    → segments (text "/admin/v1/policies/" ++ id)
      ≡ [] ∷ text "admin" ∷ text "v1" ∷ text "policies" ∷ id ∷ []
unfolding segments
policies_segments id h =
    ap (λ ws. [] ∷ text "admin" ∷ text "v1" ∷ text "policies" ∷ ws) (segments-one id h)

chosen-get_policy :
    (id : Text)
    → is_empty id ≡ false
    → choose patterns (text "GET") ([] ∷ text "admin" ∷ text "v1" ∷ text "policies" ∷ id ∷ [])
      ≡ chosen (get_policy id)
unfolding choose match_path text_eq
chosen-get_policy [] h = cc
chosen-get_policy (c ∷ s) h = refl

-- GET of the path of one of the policies reaches its handler with the identifier.
resolve-get_policy :
    (id : Text)
    → IsSegment id
    → resolve (text "GET") (text "/admin/v1/policies/" ++ id) ≡ chosen (get_policy id)
unfolding resolve
resolve-get_policy id h =
    ap (choose patterns (text "GET")) (policies_segments id (plain-no_slash id h.1))
    ∙ chosen-get_policy id h.0

chosen-update_policy :
    (id : Text)
    → is_empty id ≡ false
    → choose patterns (text "PUT") ([] ∷ text "admin" ∷ text "v1" ∷ text "policies" ∷ id ∷ [])
      ≡ chosen (update_policy id)
unfolding choose match_path text_eq
chosen-update_policy [] h = cc
chosen-update_policy (c ∷ s) h = refl

-- PUT of the path of one of the policies reaches its handler with the identifier.
pub resolve-update_policy :
    (id : Text)
    → IsSegment id
    → resolve (text "PUT") (text "/admin/v1/policies/" ++ id) ≡ chosen (update_policy id)
unfolding resolve
resolve-update_policy id h =
    ap (choose patterns (text "PUT")) (policies_segments id (plain-no_slash id h.1))
    ∙ chosen-update_policy id h.0

chosen-delete_policy :
    (id : Text)
    → is_empty id ≡ false
    → choose patterns (text "DELETE") ([] ∷ text "admin" ∷ text "v1" ∷ text "policies" ∷ id ∷ [])
      ≡ chosen (delete_policy id)
unfolding choose match_path text_eq
chosen-delete_policy [] h = cc
chosen-delete_policy (c ∷ s) h = refl

-- DELETE of the path of one of the policies reaches its handler with the identifier.
pub resolve-delete_policy :
    (id : Text)
    → IsSegment id
    → resolve (text "DELETE") (text "/admin/v1/policies/" ++ id) ≡ chosen (delete_policy id)
unfolding resolve
resolve-delete_policy id h =
    ap (choose patterns (text "DELETE")) (policies_segments id (plain-no_slash id h.1))
    ∙ chosen-delete_policy id h.0

policies_toggle_segments :
    (id : Text)
    → all (λ c. not (c == b'/')) id ≡ true
    → segments (text "/admin/v1/policies/" ++ id ++ text "/toggle")
      ≡ [] ∷ text "admin" ∷ text "v1" ∷ text "policies" ∷ id ∷ text "toggle" ∷ []
unfolding segments
policies_toggle_segments id h =
    ap (λ ws. [] ∷ text "admin" ∷ text "v1" ∷ text "policies" ∷ ws)
      (segments-before id (text "toggle") h)

chosen-toggle_policy :
    (id : Text)
    → is_empty id ≡ false
    → choose patterns
        (text "PATCH")
        ([] ∷ text "admin" ∷ text "v1" ∷ text "policies" ∷ id ∷ text "toggle" ∷ [])
      ≡ chosen (toggle_policy id)
unfolding choose match_path text_eq
chosen-toggle_policy [] h = cc
chosen-toggle_policy (c ∷ s) h = refl

-- PATCH of its path with /toggle reaches the toggle.
pub resolve-toggle_policy :
    (id : Text)
    → IsSegment id
    → resolve (text "PATCH") (text "/admin/v1/policies/" ++ id ++ text "/toggle")
      ≡ chosen (toggle_policy id)
unfolding resolve
resolve-toggle_policy id h =
    ap (choose patterns (text "PATCH")) (policies_toggle_segments id (plain-no_slash id h.1))
    ∙ chosen-toggle_policy id h.0
