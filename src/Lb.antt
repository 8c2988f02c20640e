-- ===== src/Lb.antt =====
-- internal/lb/lb.go: the load balancers. A balancer is a state and a function `next` to an endpoint
-- and the next state; `none` for the endpoint is a panic of the code. Weighted keeps no state.
pub mod RoundRobin
pub mod LeastConn
pub mod Weighted
