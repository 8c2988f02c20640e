-- ===== src/Router/Balance/Connections.antt =====
-- The connections that a load balanced request counts.
use helix_gateway.Base.{
  ℕ, Text, is_empty, Bool, Option, some, Option-cases, Bool-cases, inl, inr, Table, SameTable,
  lookup, ◌≡◌, ap,
}
use helix_gateway.Lb.LeastConn
use helix_gateway.Lb.LeastConn.{LeastConn}
use helix_gateway.Lb.LeastConn.Selection.{done-next}
use helix_gateway.Router.Balance.{
  Balancer, least_conn, next_endpoint, release, no_healthy_upstream, bad_gateway, forwarded,
  answer_from, serve_lb,
}

-- The balancer counts as many connections for each endpoint as `lc`.
abbrev pub SameConns : LeastConn → Balancer → Type 0
SameConns lc (Balancer.round_robin rr) = ⊥
SameConns lc (least_conn after) = SameTable after.conns lc.conns
SameConns lc (Balancer.weighted wb) = ⊥

module _ {H : Type 0} (check : Option (Text → Bool)) (draw : ℕ → ℕ) (proxies : Table H)
    (lc : LeastConn) where
  answer-SameConns :
      (ep : Text) (lc' : LeastConn) (h : H) (b : Balancer)
      → LeastConn.next check lc ≡ some (ep, lc')
      → answer_from proxies ep (least_conn lc') ≡ (forwarded h, b)
      → SameConns lc b
  unfolding answer_from release
  answer-SameConns ep lc' h b e q = elim (Bool-cases (is_empty ep)) [
    | inl bare ↦
        (let r : no_healthy_upstream ≡ forwarded h = ap (λ p. p.0) (rw (bare, answer_from) at q) in
          absurd cc)
    | inr named ↦ elim (Option-cases (lookup ep proxies)) [
      | inl lost ↦
          (let r : bad_gateway ≡ forwarded h = ap (λ p. p.0) (rw (named, lost, answer_from) at q) in
            absurd cc)
      | inr (g, at) ↦
          (let r : least_conn (LeastConn.done ep lc') ≡ b =
              ap (λ p. p.1) (rw (named, at, answer_from, release) at q) in
            rw (← r) (done-next check lc lc' ep e named))
    ]
  ]

  -- When a request that the balancer with the least connections has forwarded is over, the balancer
  -- counts for each endpoint the connections that it counted before the request.
  pub serve_lb-SameConns :
      (h : H) (b : Balancer)
      → serve_lb check draw proxies (least_conn lc) ≡ some (forwarded h, b)
      → SameConns lc b
  unfolding serve_lb next_endpoint
  serve_lb-SameConns h b q = elim (Option-cases (LeastConn.next check lc)) [
    | inl e ↦ (let r = rw (e, serve_lb, next_endpoint) at q in absurd cc)
    | inr ((ep, lc'), e) ↦
        (let r = rw (e, serve_lb, next_endpoint) at q in
          let r' : answer_from proxies ep (least_conn lc') ≡ (forwarded h, b) = cc in
          answer-SameConns ep lc' h b e r')
  ]
