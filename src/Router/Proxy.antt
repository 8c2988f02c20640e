-- ===== src/Router/Proxy.antt =====
-- internal/router/router.go: what buildUpstreamProxy makes of requests and responses. The URL of
-- the target is read by net/url, and the transport is I/O.
pub mod Identity
use helix_gateway.Base.{
  ℕ, Text, text, text_eq, is_empty, Bool, true, false, List, [], ◌∷◌, Option, none, some, Table,
  insert, delete, if◌then◌else◌,
}
use helix_gateway.Plugins.Http.{HttpRequest, Response, header, client_ip, write_json}

-- A request on its way to the target.
pub record Outgoing : Type 0 where
  pub scheme : Text
  pub host : Text
  pub request : HttpRequest

-- forwardedProto; `tls` says that the connection has TLS.
unfoldable pub forwarded_proto : Bool → HttpRequest → Text
forwarded_proto tls r =
    if is_empty (header (text "X-Forwarded-Proto") r)
    then (if tls then text "https" else text "http")
    else header (text "X-Forwarded-Proto") r

-- Header.Set and Header.Del on a request.
abbrev pub set_header : Text → Text → HttpRequest → HttpRequest
set_header name v r = record r { headers = insert name v r.headers }

abbrev pub del_header : Text → HttpRequest → HttpRequest
del_header name r = record r { headers = delete name r.headers }

-- What one request meets: whether it came with TLS, the host of net.SplitHostPort, and the headers
-- that the propagator of the traces adds.
pub record Proxying : Type 0 where
  pub tls : Bool
  pub split_host : Text → Text
  pub inject : Table Text → Table Text

-- The headers that the claims of a request add.
abbrev pub identified : HttpRequest → HttpRequest
identified r = elim r.claims [
  | none ↦ r
  | some c ↦
      set_header (text "X-Gateway-User-Role") c.role
        (set_header (text "X-Gateway-User-Id") c.subject r)
]

-- rp.Director
unfoldable pub director : Proxying → Text → Text → HttpRequest → Outgoing
director p scheme host r =
    let traced = record r { headers = p.inject r.headers } in
    let bare = del_header (text "X-Forwarded-For") traced in
    let named = set_header (text "X-Forwarded-For") (client_ip p.split_host bare) bare in
    let proto = set_header (text "X-Forwarded-Proto") (forwarded_proto p.tls named) named in
    record { scheme = scheme; host = host; request = identified proto }

-- A loop of Header.Del, as the six calls in ModifyResponse.
unfoldable pub without : List Text → Table Text → Table Text
without [] headers = headers
without (name ∷ names) headers = without names (delete name headers)

abbrev pub cors_names : List Text
cors_names =
    text "Access-Control-Allow-Origin"
    ∷ text "Access-Control-Allow-Credentials"
    ∷ text "Access-Control-Allow-Methods"
    ∷ text "Access-Control-Allow-Headers"
    ∷ text "Access-Control-Max-Age"
    ∷ text "Vary"
    ∷ []

-- rp.ModifyResponse, which an upstream of the protocol grpc does not have.
unfoldable pub modify_response : Text → Response → Response
modify_response protocol response =
    if text_eq protocol (text "grpc")
    then response
    else record response { headers = without cors_names response.headers }

-- rp.ErrorHandler
unfoldable pub error_handler : Table Text → Response
error_handler w = write_json w 502 (text "{\"error\":\"upstream_unavailable\"}")
