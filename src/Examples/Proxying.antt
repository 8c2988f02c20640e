-- ===== src/Examples/Proxying.antt =====
-- A split over two upstreams of which one is down, a balancer with the least connections, and a
-- request without claims.
use helix_gateway.Base.{
  ℕ, Text, text, text_eq, Bool, true, List, [], ◌∷◌, Option, none, some, Has, Table, lookup, insert,
  ◌+ℤ◌, pos, refl, ◌≡◌, arith,
}
use helix_gateway.Store.Model.{Upstream, WeightedUpstream}
use helix_gateway.Plugins.Http.{HttpRequest}
use helix_gateway.Lb.LeastConn
use helix_gateway.Lb.LeastConn.{LeastConn, new_least_conn}
use helix_gateway.Router.Split.{
  WeightedHandler, by, panicked, split_handlers, may_serve, eligible, serve_split, upstream_url,
}
use helix_gateway.Router.Split.Health.{serve_split-may_serve, serve_split-panicked}
use helix_gateway.Router.Balance.{
  Balancer, least_conn, next_endpoint, answer_from, release, serve_lb,
}
use helix_gateway.Router.Balance.Connections.{SameConns, serve_lb-SameConns}
use helix_gateway.Router.Proxy.{Proxying}
use helix_gateway.Examples.Configs.{pool}

abbrev backup : Upstream
backup = record pool { id = text "v"; name = text "backup"; url = text "http://b" }

abbrev check : Option (Text → Bool)
check = some (λ url. text_eq url (text "http://b"))

abbrev handlers : Table ℕ
handlers = (text "u", 1) ∷ (text "v", 2) ∷ []

abbrev shares : List WeightedUpstream
shares =
    record { upstream_id = text "u"; weight = pos 90 }
    ∷ record { upstream_id = text "v"; weight = pos 10 }
    ∷ []

abbrev healthy_entry : WeightedHandler ℕ
healthy_entry = record { upstream_id = text "v"; handler = 2; weight = 10 }

serve_split-may_serve_example :
    (f : WeightedHandler ℕ) × (serve_split check (pool ∷ backup ∷ []) (λ n. 3) handlers shares
      ≡ by f)
    × Has f (split_handlers handlers shares)
    × (may_serve check (pool ∷ backup ∷ []) f ≡ true)
unfolding split_handlers lookup text_eq upstream_url
serve_split-may_serve_example =
    serve_split-may_serve check (pool ∷ backup ∷ []) (λ n. 3) handlers shares healthy_entry
      (1, refl) refl (ground arith)

-- Two weights of 2 ^ 62.
abbrev huge : List WeightedUpstream
huge =
    record { upstream_id = text "u"; weight = pos 4611686018427387904 }
    ∷ record { upstream_id = text "v"; weight = pos 4611686018427387904 }
    ∷ []

serve_split-panicked_example : serve_split none [] (λ n. n) handlers huge ≡ panicked
unfolding split_handlers eligible lookup text_eq
serve_split-panicked_example =
    serve_split-panicked none [] (λ n. n) handlers huge (ground arith) (ground arith)

abbrev endpoints : LeastConn
endpoints = record { endpoints = text "a" ∷ []; conns = (text "a", pos 0) ∷ [] }

-- The balancer after a request to its only endpoint.
abbrev over : Balancer
over = least_conn (LeastConn.done (text "a") (record endpoints { conns = (text "a", pos 1) ∷ [] }))

serve_lb-SameConns_example : SameConns endpoints over
unfolding serve_lb next_endpoint LeastConn.next LeastConn.scan LeastConn.take_conn
    LeastConn.add_conn LeastConn.done lookup insert text_eq ◌+ℤ◌ answer_from release
serve_lb-SameConns_example =
    serve_lb-SameConns {H = ℕ} none (λ n. 0) ((text "a", 7) ∷ []) endpoints 7 over refl

abbrev anonymous : HttpRequest
anonymous = record {
  method = text "GET";
  path = text "/";
  raw_query = [];
  headers = (text "X-Gateway-User-Id", text "root") ∷ [];
  cookies = [];
  remote_addr = text "10.0.0.1:1";
  claims = none;
}

abbrev proxying : Proxying
proxying = record { tls = true; split_host = λ a. a; inject = λ h. h }
