-- ===== src/Plugins/CircuitBreaker/Recovery.antt =====
-- When the breaker trips, whom it admits, and whether it closes again.
use helix_gateway.Base.{
  suc, zero, suc, ℕ, ◌+◌, ◌*◌, ◌≤◌, ◌<◌, ◌≡◌, ◌≢◌, ◌↔◌, refl, Bool, false, List, [], ◌∷◌,
  if◌then◌else◌, arith,
}
use helix_gateway.Plugins.CircuitBreaker.{
  CircuitBreaker, closed, open_, half_open, Guarded, Event, arrives, finishes, allow, record_result,
  handle, handle_all,
}

-- Of a closed breaker, a result opens it exactly if it is at least the tenth result and the failure
-- rate, this result counted, has reached the threshold.
record_result-trips :
    (now : ℕ) (failed : Bool) (cb : CircuitBreaker)
    → cb.state ≡ closed
    → ((record_result now failed cb).state ≡ open_) ↔ (
        (10 ≤ cb.total + 1)
        × (cb.cfg.threshold_num * (cb.total + 1)
            ≤ (if failed then cb.failures + 1 else cb.failures) * cb.cfg.threshold_den))
unfolding record_result
record_result-trips now failed cb h = ground arith

-- A breaker that has left the closed state with a failure on its count.
record Tripped (cb : CircuitBreaker) : Type 0 where
  failed : 0 < cb.failures
  away : cb.state ≢ closed

allow-Tripped : (now : ℕ) (cb : CircuitBreaker) → Tripped cb → Tripped (allow now cb).1
unfolding allow
allow-Tripped now cb h = ground arith

record_result-Tripped :
    (now : ℕ) (failed : Bool) (cb : CircuitBreaker)
    → Tripped cb
    → Tripped (record_result now failed cb)
unfolding record_result
record_result-Tripped now failed cb h = ground arith

handle-Tripped : (g : Guarded) (e : Event) → Tripped g.breaker → Tripped (handle g e).1.breaker
unfolding handle
handle-Tripped g (arrives now) h = ground (arith, allow-Tripped now g.breaker h)
handle-Tripped g (finishes now failed) h =
    ground (arith, record_result-Tripped now failed g.breaker h)

handle_all-Tripped :
    (g : Guarded) (es : List Event) → Tripped g.breaker → Tripped (handle_all g es).breaker
unfolding handle_all
handle_all-Tripped g [] h = h
handle_all-Tripped g (e ∷ es) h = handle_all-Tripped (handle g e).1 es (handle-Tripped g e h)

-- A breaker that is not closed and has counted a failure never closes again, whatever requests
-- arrive and however they finish.
pub never_closes :
    (g : Guarded) (es : List Event)
    → 0 < g.breaker.failures
    → g.breaker.state ≢ closed
    → (handle_all g es).breaker.state ≢ closed
never_closes g es f a = (handle_all-Tripped g es (record { failed = f; away = a })).away

-- A half-open breaker that has let its probes through, and has none of them in flight.
pub record Wedged (g : Guarded) : Type 0 where
  pub half : g.breaker.state ≡ half_open
  pub spent : g.breaker.cfg.probe_count ≤ g.breaker.probes
  pub idle : g.in_flight ≡ 0

handle-Wedged : (g : Guarded) (e : Event) → Wedged g → handle g e ≡ (false, g)
unfolding handle allow
handle-Wedged g (arrives now) h = ground arith
handle-Wedged g (finishes now failed) h = ground arith

handle_all-Wedged : (g : Guarded) (es : List Event) → Wedged g → handle_all g es ≡ g
unfolding handle_all
handle_all-Wedged g [] h = refl
handle_all-Wedged g (e ∷ es) h = rw (handle-Wedged g e h) (handle_all-Wedged g es h)

-- A half-open breaker whose probes are spent and finished rejects every request from then on: after
-- any events, at any time, the next request is turned away.
Wedged-for_ever :
    (g : Guarded) (es : List Event) (now : ℕ)
    → Wedged g
    → (handle (handle_all g es) (arrives now)).0 ≡ false
Wedged-for_ever g es now h = rw (handle_all-Wedged g es h, handle-Wedged g (arrives now) h)

-- n requests, one after the other, that all succeed.
unfoldable pub successes : ℕ → ℕ → List Event
successes zero now = []
successes (suc n) now = arrives now ∷ finishes now false ∷ successes n now

-- A half-open breaker with n probes left, none in flight, and a failure on its count.
record Probing (n : ℕ) (g : Guarded) : Type 0 where
  half : g.breaker.state ≡ half_open
  left : g.breaker.probes + n ≡ g.breaker.cfg.probe_count
  idle : g.in_flight ≡ 0
  failed : 0 < g.breaker.failures

success-Probing :
    (n now : ℕ) (g : Guarded)
    → Probing (suc n) g
    → Probing n (handle (handle g (arrives now)).1 (finishes now false)).1
unfolding handle allow record_result
success-Probing n now g h = ground arith

successes-Wedged : (n now : ℕ) (g : Guarded) → Probing n g → Wedged (handle_all g (successes n now))
unfolding handle_all successes
successes-Wedged zero now g h = ground arith
successes-Wedged (suc n) now g h = successes-Wedged n now _ (success-Probing n now g h)

reopen-Probing :
    (now : ℕ) (g : Guarded)
    → g.breaker.state ≡ open_
    → 0 < g.breaker.failures
    → g.in_flight ≡ 0
    → g.breaker.opened_at + g.breaker.cfg.timeout ≤ now
    → Probing g.breaker.cfg.probe_count (handle (handle g (arrives now)).1 (finishes now false)).1
unfolding handle allow record_result
reopen-Probing now g o f i t = ground arith

-- A tripped breaker does not recover with its backend: if it is open, has counted a failure and
-- has no request in flight, then once the timeout is over, probe_count + 1 successful requests
-- leave it half open with its probes spent, so that it rejects every request from then on, after
-- any events and at any time.
pub recovered_backend_stays_blocked :
    (now : ℕ) (g : Guarded)
    → g.breaker.state ≡ open_
    → 0 < g.breaker.failures
    → g.in_flight ≡ 0
    → g.breaker.opened_at + g.breaker.cfg.timeout ≤ now
    → (es : List Event) (later : ℕ)
    → (handle
        (handle_all (handle_all g (successes (suc g.breaker.cfg.probe_count) now)) es)
        (arrives later)).0
      ≡ false
unfolding handle_all successes
recovered_backend_stays_blocked now g o f i t es later =
    Wedged-for_ever _ es later
      (successes-Wedged g.breaker.cfg.probe_count now _ (reopen-Probing now g o f i t))
