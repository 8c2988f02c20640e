-- ===== src/Examples/Breaking.antt =====
-- A breaker that has opened after ten failures.
use helix_gateway.Base.{false, [], ◌∷◌, ◌≡◌, refl, arith}
use helix_gateway.Plugins.CircuitBreaker.{
  open_, CircuitBreaker, default_config, new_breaker, arrives, Guarded, handle, handle_all,
}
use helix_gateway.Plugins.CircuitBreaker.Recovery.{successes, recovered_backend_stays_blocked}

abbrev worn : CircuitBreaker
worn = record (new_breaker default_config) { failures = 9; total = 9 }

abbrev opened : Guarded
opened = record {
  breaker = record {
    cfg = default_config;
    state = open_;
    failures = 10;
    total = 10;
    opened_at = 4;
    probes = 0;
  };
  in_flight = 0;
}

recovered_backend_stays_blocked_example :
    (handle (handle_all (handle_all opened (successes 4 40)) (arrives 90 ∷ [])) (arrives 100)).0
    ≡ false
recovered_backend_stays_blocked_example =
    recovered_backend_stays_blocked 40 opened refl (ground arith) refl (ground arith)
      (arrives 90 ∷ []) 100
