-- ===== src/Admin/Mux/Upstreams.antt =====
-- The endpoints that the paths of upstreams reach.
use helix_gateway.Base.{
  ap, ◌∙◌, Text, text, text_eq, is_empty, ◌==◌, not, true, false, all, [], ◌∷◌, ◌++◌, refl, ◌≡◌,
}
use helix_gateway.Admin.Mux.{
  chosen, resolve, segments, choose, patterns, match_path, get_upstream, update_upstream,
  delete_upstream,
}
use helix_gateway.Admin.Mux.Segments.{
  IsSegment, segments-one, is_plain, is_plain_path, plain-no_slash, plain-id, plain-append,
}

-- The paths hold nothing that a URL escapes.
pub upstreams-plain :
    (id : Text) → IsSegment id → is_plain_path (text "/admin/v1/upstreams/" ++ id) ≡ true
unfolding is_plain
upstreams-plain id i = plain-append (text "/admin/v1/upstreams/") id refl (plain-id id i.1)

upstreams_segments :
    (id : Text)
    → all (λ c. not (c == b'/')) id ≡ true
    → segments (text "/admin/v1/upstreams/" ++ id)
      ≡ [] ∷ text "admin" ∷ text "v1" ∷ text "upstreams" ∷ id ∷ []
unfolding segments
upstreams_segments id h =
    ap (λ ws. [] ∷ text "admin" ∷ text "v1" ∷ text "upstreams" ∷ ws) (segments-one id h)

chosen-get_upstream :
    (id : Text)
    → is_empty id ≡ false
    → choose patterns (text "GET") ([] ∷ text "admin" ∷ text "v1" ∷ text "upstreams" ∷ id ∷ [])
      ≡ chosen (get_upstream id)
unfolding choose match_path text_eq
chosen-get_upstream [] h = cc
chosen-get_upstream (c ∷ s) h = refl

-- GET of the path of one of the upstreams reaches its handler with the identifier.
resolve-get_upstream :
    (id : Text)
    → IsSegment id
    → resolve (text "GET") (text "/admin/v1/upstreams/" ++ id) ≡ chosen (get_upstream id)
unfolding resolve
resolve-get_upstream id h =
    ap (choose patterns (text "GET")) (upstreams_segments id (plain-no_slash id h.1))
    ∙ chosen-get_upstream id h.0

chosen-update_upstream :
    (id : Text)
    → is_empty id ≡ false
    → choose patterns (text "PUT") ([] ∷ text "admin" ∷ text "v1" ∷ text "upstreams" ∷ id ∷ [])
      ≡ chosen (update_upstream id)
unfolding choose match_path text_eq
chosen-update_upstream [] h = cc
chosen-update_upstream (c ∷ s) h = refl

-- PUT of the path of one of the upstreams reaches its handler with the identifier.
pub resolve-update_upstream :
    (id : Text)
    → IsSegment id
    → resolve (text "PUT") (text "/admin/v1/upstreams/" ++ id) ≡ chosen (update_upstream id)
unfolding resolve
resolve-update_upstream id h =
    ap (choose patterns (text "PUT")) (upstreams_segments id (plain-no_slash id h.1))
    ∙ chosen-update_upstream id h.0

chosen-delete_upstream :
    (id : Text)
    → is_empty id ≡ false
    → choose patterns (text "DELETE") ([] ∷ text "admin" ∷ text "v1" ∷ text "upstreams" ∷ id ∷ [])
      ≡ chosen (delete_upstream id)
unfolding choose match_path text_eq
chosen-delete_upstream [] h = cc
chosen-delete_upstream (c ∷ s) h = refl

-- DELETE of the path of one of the upstreams reaches its handler with the identifier.
pub resolve-delete_upstream :
    (id : Text)
    → IsSegment id
    → resolve (text "DELETE") (text "/admin/v1/upstreams/" ++ id) ≡ chosen (delete_upstream id)
unfolding resolve
resolve-delete_upstream id h =
    ap (choose patterns (text "DELETE")) (upstreams_segments id (plain-no_slash id h.1))
    ∙ chosen-delete_upstream id h.0
