-- ===== src/Plugins/Rewriting/Headers.antt =====
-- What the header and path plugins leave in a response or a request.
use helix_gateway.Base.{
  ◌||◌, not, Text, text, text_eq, is_empty, trim_prefix-append, has_prefix-append, true, false,
  List, [], ◌∷◌, ◌++◌, none, some, any, Table, lookup, delete, lookup-insert, lookup-delete,
  if◌then◌else◌, ◌≡◌, ◌⊎◌, inl, inr, refl, ◌∙◌, arith, Bool-cases,
}
use helix_gateway.Plugins.Http.{HttpRequest, Response, Handler, header}
use helix_gateway.Plugins.Rewriting.{
  UrlRewriteConfig, TransformConfig, set_all, del_all, rewrite_path, no_entries, write_header,
  transformed, transform, cors_headers, is_allowed, cors,
}

lookup-del_all :
    (k : Text) (ks : List Text) (m : Table Text)
    → lookup k (del_all ks m) ≡ (if any (λ j. text_eq j k) ks then none else lookup k m)
unfolding del_all
lookup-del_all k [] m = refl
lookup-del_all k (j ∷ ks) m = lookup-del_all k ks (delete j m) ∙ ground (arith, lookup-delete j k m)

-- The writer is used only where there is something to do, which makes no difference.
edited-headers :
    (k : Text) (set : Table Text) (removed : List Text) (response : Response)
    → lookup k
        (if not (no_entries set) || not (no_entries removed)
          then record response { headers = del_all removed (set_all set response.headers) }
          else response).headers
      ≡ (if any (λ j. text_eq j k) removed then none else lookup k (set_all set response.headers))
unfolding set_all del_all
edited-headers k [] [] response = refl
edited-headers k [] (j ∷ removed) response = lookup-del_all k (j ∷ removed) response.headers
edited-headers k (e ∷ set) removed response =
    lookup-del_all k removed (set_all (e ∷ set) response.headers)

-- The headers of a transformed response are those that the handler gave to the transformed request,
-- with the configured ones set, and without the removed ones.
lookup-transform :
    (cfg : TransformConfig) (next : Handler) (w : Table Text) (r : HttpRequest) (k : Text)
    → lookup k (transform cfg next w r).headers ≡ (
        if any (λ j. text_eq j k) cfg.remove_response_headers
        then none
        else lookup k (set_all cfg.set_response_headers (next w (transformed cfg r)).headers))
unfolding transform write_header
lookup-transform cfg next w r k =
    edited-headers k cfg.set_response_headers cfg.remove_response_headers
      (next w (transformed cfg r))

-- Under a prefix that is not empty, the path becomes the replacement and the rest, or the root if
-- both are empty.
rewrite_path-append :
    (c : UrlRewriteConfig) (rest : Text)
    → is_empty c.prefix_match ≡ false
    → rewrite_path (some c) (c.prefix_match ++ rest)
      ≡ (if is_empty (c.replacement ++ rest) then text "/" else c.replacement ++ rest)
unfolding rewrite_path
rewrite_path-append c rest full =
    rw (full, has_prefix-append c.prefix_match rest, trim_prefix-append c.prefix_match rest) refl

-- The origin that a browser is told is the request's own.
cors_headers-origin :
    (origin : Text) (w : Table Text)
    → lookup (text "Access-Control-Allow-Origin") (cors_headers origin w) ≡ some origin
unfolding cors_headers text_eq
cors_headers-origin origin w =
    let name = text "Access-Control-Allow-Origin" in
    lookup-insert (text "Vary") name _ _
    ∙ lookup-insert (text "Access-Control-Max-Age") name _ _
    ∙ lookup-insert (text "Access-Control-Allow-Headers") name _ _
    ∙ lookup-insert (text "Access-Control-Allow-Methods") name _ _
    ∙ lookup-insert (text "Access-Control-Allow-Credentials") name _ _
    ∙ lookup-insert name name origin w

-- A request with an origin that is not allowed is answered with 403 and never reaches the handler;
-- with an allowed origin, the headers that the handler or the preflight answer starts from allow
-- that origin.
cors-origin :
    (allowed : List Text) (next : Handler) (w : Table Text) (r : HttpRequest)
    → is_empty (header (text "Origin") r) ≡ false
    → ((is_allowed allowed (header (text "Origin") r) ≡ false)
        × (cors allowed next w r ≡ record { status = 403; headers = w; body = [] }))
      ⊎ ((is_allowed allowed (header (text "Origin") r) ≡ true)
          × ((v : Table Text) × (lookup (text "Access-Control-Allow-Origin") v
                ≡ some (header (text "Origin") r))
              × (cors allowed next w r ≡ (
                  if text_eq r.method (text "OPTIONS")
                  then record { status = 204; headers = v; body = [] }
                  else next v r))))
unfolding cors
cors-origin allowed next w r full =
    elim (Bool-cases (is_allowed allowed (header (text "Origin") r))) [
      | inr f ↦ inl (f, rw (full, f, cors) refl)
      | inl t ↦ inr (
        t,
        (
          cors_headers (header (text "Origin") r) w,
          cors_headers-origin (header (text "Origin") r) w,
          rw (full, t, cors) refl,
        ),
      )
    ]
