-- ===== src/Router/Balance.antt =====
-- internal/router/router.go: the handler of an upstream with several endpoints (buildLBHandler).
pub mod Connections
use helix_gateway.Base.{
  ℕ, ltb, length, Text, text, text_eq, is_empty, Bool, true, false, List, [], ◌∷◌, Option, none,
  some, Option-cases, Bool-cases, inl, inr, Table, SameTable, lookup, insert, ◌≡◌, refl, ap, sym,
  ◌∙◌, if◌then◌else◌,
}
use helix_gateway.Store.Model.{Upstream}
use helix_gateway.Lb.RoundRobin
use helix_gateway.Lb.RoundRobin.{RoundRobin, new_round_robin}
use helix_gateway.Lb.LeastConn
use helix_gateway.Lb.LeastConn.{LeastConn, new_least_conn}
use helix_gateway.Lb.LeastConn.Selection.{done-next}
use helix_gateway.Lb.Weighted
use helix_gateway.Lb.Weighted.{WeightedBalancer, new_weighted, lb_weights}

-- lb.Balancer, by its three types.
pub data Balancer : Type 0 where
  round_robin : RoundRobin → Balancer
  least_conn : LeastConn → Balancer
  weighted : WeightedBalancer → Balancer

-- The switch on LBAlgorithm.
unfoldable pub new_balancer : Text → List Text → Balancer
new_balancer algorithm endpoints =
    if text_eq algorithm (text "weighted")
    then weighted (new_weighted (lb_weights endpoints))
    else if text_eq algorithm (text "least-conn")
    then least_conn (new_least_conn endpoints)
    else round_robin (new_round_robin endpoints)

-- balancer.Next; `draw` is rand.IntN, and `none` a failed access to a counter.
unfoldable pub next_endpoint : Option (Text → Bool) → (ℕ → ℕ) → Balancer → Option (Text × Balancer)
next_endpoint check draw (round_robin rr) =
    let (ep, rr') = RoundRobin.next check rr in
    elim ep [ none ↦ some ([], round_robin rr') | some e ↦ some (e, round_robin rr') ]
next_endpoint check draw (least_conn lc) = elim (LeastConn.next check lc) [
  | none ↦ none
  | some (ep, lc') ↦ some (ep, least_conn lc')
]
next_endpoint check draw (weighted wb) = some (Weighted.next check draw wb, weighted wb)

-- lc.Done(ep), for a balancer that is a LeastConn
unfoldable pub release : Text → Balancer → Balancer
release ep (round_robin rr) = round_robin rr
release ep (least_conn lc) = least_conn (LeastConn.done ep lc)
release ep (weighted wb) = weighted wb

-- How the handler answers: 503, 502, or by a proxy.
pub data Served (H : Type 0) : Type 0 where
  no_healthy_upstream bad_gateway : Served H
  forwarded : H → Served H

module _ {H : Type 0} where
  -- The loop that builds a proxy for each endpoint; one error ends it.
  unfoldable pub build_proxies : (Text → Option H) → List Text → Table H → Option (Table H)
  build_proxies make [] proxies = some proxies
  build_proxies make (ep ∷ eps) proxies = elim (make ep) [
    | none ↦ none
    | some h ↦ build_proxies make eps (insert ep h proxies)
  ]

  -- buildLBHandler
  unfoldable pub build_lb_handler : (Text → Option H) → Upstream → Option (Table H × Balancer)
  build_lb_handler make u = elim (build_proxies make u.endpoints []) [
    | none ↦ none
    | some proxies ↦ some (proxies, new_balancer u.lb_algorithm u.endpoints)
  ]

  -- The rest of the handler, after Next; Done runs when the proxy returns.
  unfoldable pub answer_from : Table H → Text → Balancer → Served H × Balancer
  answer_from proxies ep b =
      if is_empty ep then (no_healthy_upstream, b) else elim (lookup ep proxies) [
        | none ↦ (bad_gateway, b)
        | some h ↦ (forwarded h, release ep b)
      ]

  -- The handler of buildLBHandler, for one request.
  unfoldable pub serve_lb :
      Option (Text → Bool) → (ℕ → ℕ) → Table H → Balancer → Option (Served H × Balancer)
  serve_lb check draw proxies b = elim (next_endpoint check draw b) [
    | none ↦ none
    | some (ep, b') ↦ some (answer_from proxies ep b')
  ]

  -- buildUpstreamMap: an upstream whose handler is not built is left out. `single` and `balanced`
  -- are the handlers of the two kinds.
  unfoldable pub build_upstream_map :
      (Upstream → Option H) → (Upstream → Option H) → List Upstream → Table H → Table H
  build_upstream_map single balanced [] m = m
  build_upstream_map single balanced (u ∷ us) m = elim (handler_of u) [
    | none ↦ build_upstream_map single balanced us m
    | some h ↦ build_upstream_map single balanced us (insert u.id h m)
  ]
    where
      handler_of : Upstream → Option H
      handler_of u = if ltb 1 (length u.endpoints) then balanced u else single u
