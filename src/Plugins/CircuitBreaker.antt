-- ===== src/Plugins/CircuitBreaker.antt =====
-- internal/plugin/builtin/circuitbreaker.go. The methods hold the mutex, so each is one step; the
-- handler calls `allow` when a request arrives and `record_result` when it is finished.
-- The threshold is the fraction num / den, compared exactly; the one in use is 1 / 2. The clock is
-- monotonic, and a time is a number of its units.
pub mod Recovery
use helix_gateway.Base.{
  ℕ, zero, suc, ◌+◌, ◌-◌, ◌*◌, ◌==◌, leb, Bool, true, false, ◌&&◌, List, [], ◌∷◌, if◌then◌else◌,
}

pub data CbState : Type 0 where
  closed open_ half_open : CbState

pub record CircuitBreakerConfig : Type 0 where
  pub threshold_num : ℕ
  pub threshold_den : ℕ
  pub window : ℕ
  pub timeout : ℕ
  pub probe_count : ℕ

-- DefaultCircuitBreakerConfig, in seconds
abbrev pub default_config : CircuitBreakerConfig
default_config = record {
  threshold_num = 1;
  threshold_den = 2;
  window = 10;
  timeout = 30;
  probe_count = 3;
}

pub record CircuitBreaker : Type 0 where
  pub cfg : CircuitBreakerConfig
  pub state : CbState
  pub failures : ℕ
  pub total : ℕ
  pub opened_at : ℕ
  pub probes : ℕ

unfoldable pub new_breaker : CircuitBreakerConfig → CircuitBreaker
new_breaker cfg = record {
  cfg = cfg;
  state = closed;
  failures = 0;
  total = 0;
  opened_at = 0;
  probes = 0;
}

abbrev allow_in : CbState → ℕ → CircuitBreaker → Bool × CircuitBreaker
allow_in open_ now cb =
    if leb (cb.opened_at + cb.cfg.timeout) now
    then (true, record cb { state = half_open; probes = 0 })
    else (false, cb)
allow_in half_open now cb =
    if leb cb.cfg.probe_count cb.probes
    then (false, cb)
    else (true, record cb { probes = cb.probes + 1 })
allow_in closed now cb = (true, cb)

-- allow
unfoldable pub allow : ℕ → CircuitBreaker → Bool × CircuitBreaker
allow now cb = allow_in cb.state now cb

-- The two counters of every result.
abbrev pub counted : Bool → CircuitBreaker → CircuitBreaker
counted failed cb = record cb {
  total = cb.total + 1;
  failures = if failed then cb.failures + 1 else cb.failures;
}

-- At least ten results, and a failure rate of at least the threshold.
abbrev pub trips : CircuitBreaker → Bool
trips cb =
    leb 10 cb.total && leb (cb.cfg.threshold_num * cb.total) (cb.failures * cb.cfg.threshold_den)

abbrev record_in : CbState → ℕ → Bool → CircuitBreaker → CircuitBreaker
record_in half_open now failed cb =
    if failed
    then record cb { state = open_; opened_at = now }
    else if leb cb.cfg.probe_count cb.probes && cb.failures == 0
    then record cb { state = closed; failures = 0; total = 0 }
    else cb
record_in closed now failed cb =
    if trips cb then record cb { state = open_; opened_at = now } else cb
record_in open_ now failed cb = cb

-- record
unfoldable pub record_result : ℕ → Bool → CircuitBreaker → CircuitBreaker
record_result now failed cb = record_in cb.state now failed (counted failed cb)

-- The handler around the breaker: requests arrive and, if they were let through, finish with a
-- status that is or is not a failure (500 or more).
pub data Event : Type 0 where
  arrives : ℕ → Event
  finishes : ℕ → Bool → Event

pub record Guarded : Type 0 where
  pub breaker : CircuitBreaker
  pub in_flight : ℕ

-- CircuitBreaker: the handler. The flag says whether a request was let through.
unfoldable pub handle : Guarded → Event → Bool × Guarded
handle g (arrives now) =
    let (allowed, cb) = allow now g.breaker in
    if allowed
    then (true, record { breaker = cb; in_flight = g.in_flight + 1 })
    else (false, record { breaker = cb; in_flight = g.in_flight })
handle g (finishes now failed) = if g.in_flight == 0 then (false, g) else (
  false,
  record { breaker = record_result now failed g.breaker; in_flight = g.in_flight - 1 },
)

unfoldable pub handle_all : Guarded → List Event → Guarded
handle_all g [] = g
handle_all g (e ∷ es) = handle_all (handle g e).1 es
