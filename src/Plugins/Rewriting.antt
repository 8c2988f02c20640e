-- ===== src/Plugins/Rewriting.antt =====
-- internal/plugin/builtin: transform.go, cors.go and security.go, which change headers and paths or
-- answer a request themselves. A response is one that the handler has written.
pub mod Headers
use helix_gateway.Base.{
  ℕ, ◌||◌, ◌&&◌, not, Text, text, text_eq, is_empty, has_prefix, trim_prefix, Bool, true, false,
  List, [], ◌∷◌, ◌++◌, Option, none, some, any, map, Table, lookup, insert, delete, if◌then◌else◌,
  to_lower,
}
use helix_gateway.Plugins.Http.{
  HttpRequest, Response, Handler, Plugin, header, write_json, trim_space,
}

-- URLRewriteConfig
pub record UrlRewriteConfig : Type 0 where
  pub prefix_match : Text
  pub replacement : Text

pub record TransformConfig : Type 0 where
  pub set_request_headers : Table Text
  pub remove_request_headers : List Text
  pub set_response_headers : Table Text
  pub remove_response_headers : List Text
  pub url_rewrite : Option UrlRewriteConfig

-- A loop of Header.Set over a map.
unfoldable pub set_all : Table Text → Table Text → Table Text
set_all [] headers = headers
set_all ((k, v) ∷ m) headers = set_all m (insert k v headers)

-- A loop of Header.Del.
unfoldable pub del_all : List Text → Table Text → Table Text
del_all [] headers = headers
del_all (k ∷ ks) headers = del_all ks (delete k headers)

-- The rewriting of the path in Transform.
unfoldable pub rewrite_path : Option UrlRewriteConfig → Text → Text
rewrite_path none path = path
rewrite_path (some c) path =
    if not (is_empty c.prefix_match) && has_prefix path c.prefix_match
    then (let rewritten = c.replacement ++ trim_prefix path c.prefix_match in
        if is_empty rewritten then text "/" else rewritten)
    else path

abbrev pub no_entries {ℓ} : {A : Type ℓ} → List A → Bool
no_entries [] = true
no_entries (x ∷ xs) = false

-- transformWriter.WriteHeader
unfoldable pub write_header : TransformConfig → Response → Response
write_header cfg response = record response {
  headers = del_all cfg.remove_response_headers (set_all cfg.set_response_headers response.headers);
}

-- The request that Transform passes on.
unfoldable pub transformed : TransformConfig → HttpRequest → HttpRequest
transformed cfg r = record r {
  headers = del_all cfg.remove_request_headers (set_all cfg.set_request_headers r.headers);
  path = rewrite_path cfg.url_rewrite r.path;
}

-- Transform
unfoldable pub transform : TransformConfig → Plugin
transform cfg next w r =
    if not (no_entries cfg.set_response_headers) || not (no_entries cfg.remove_response_headers)
    then write_header cfg (next w (transformed cfg r))
    else next w (transformed cfg r)

-- The function set in CORS.
unfoldable pub cors_headers : Text → Table Text → Table Text
cors_headers origin w = insert (text "Vary") (text "Origin") (
    insert (text "Access-Control-Max-Age") (text "3600") (
      insert (text "Access-Control-Allow-Headers")
        (text "Authorization, Content-Type, X-API-KEY, X-TENANT, X-Auth-Mode, X-CSRF-Token")
        (insert (text "Access-Control-Allow-Methods")
          (text "GET, POST, PUT, PATCH, DELETE, OPTIONS")
          (insert (text "Access-Control-Allow-Credentials") (text "true")
            (insert (text "Access-Control-Allow-Origin") origin w)))))

-- The set of allowed origins.
unfoldable pub is_allowed : List Text → Text → Bool
is_allowed allowed_origins origin = any (λ o. text_eq (trim_space o) origin) allowed_origins

-- CORS
unfoldable pub cors : List Text → Plugin
cors allowed_origins next w r =
    let origin = header (text "Origin") r in
    if is_empty origin
    then next w r
    else if not (is_allowed allowed_origins origin)
    then record { status = 403; headers = w; body = [] }
    else if text_eq r.method (text "OPTIONS")
    then record { status = 204; headers = cors_headers origin w; body = [] }
    else next (cors_headers origin w) r

-- SecurityHeaders
unfoldable pub security_headers : Plugin
security_headers next w r =
    next
      (insert (text "Permissions-Policy") (text "geolocation=(), microphone=(), camera=()") (
        insert (text "Strict-Transport-Security") (text "max-age=31536000; includeSubDomains") (
          insert (text "Referrer-Policy") (text "strict-origin-when-cross-origin") (
            insert (text "X-Xss-Protection") (text "1; mode=block") (
              insert (text "X-Frame-Options") (text "DENY")
                (insert (text "X-Content-Type-Options") (text "nosniff") w))))))
      r

-- RequestSecurity, over the tests of its expressions (package regexp) and url.QueryUnescape. The
-- lower case is that of ASCII.
unfoldable pub request_security :
    (Text → Bool) → List (Text → Bool) → List (Text → Bool) → (Text → Option Text) → Plugin
request_security is_traversal sql_patterns xss_patterns unescape next w r =
    if text_eq r.method (text "OPTIONS")
    then next w r
    else if is_traversal r.path
    then write_json w 400 (text "{\"error\":\"invalid_path\"}")
    else if is_empty r.raw_query
    then next w r
    else elim (unescape r.raw_query) [
      | none ↦ write_json w 400 (text "{\"error\":\"invalid_query\"}")
      | some decoded ↦
          (let lowered = map to_lower decoded in
            if any (λ p. p lowered) sql_patterns || any (λ p. p lowered) xss_patterns
            then write_json w 400 (text "{\"error\":\"invalid_request\"}")
            else next w r)
    ]
