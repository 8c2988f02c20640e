-- ===== src/Metrics.antt =====
-- internal/metrics/tracker.go: the counters of each route. A call of Track is one step. A latency is
-- a count of milliseconds; the float64 averages of a snapshot are kept as exact fractions, and the
-- rank of p99 is computed exactly, which agrees with float64 for a window of 1000.
pub mod Totals
pub mod Latency
use helix_gateway.Base.{
  ℕ, ◌+◌, ◌-◌, ◌*◌, ◌/◌, ltb, leb, Text, Bool, List, [], ◌∷◌, ◌++◌, Option, none, some, length,
  tail, map, get_or, Table, lookup, insert, if◌then◌else◌,
}

pub record Fraction : Type 0 where
  pub num : ℕ
  pub den : ℕ

pub record RouteSnapshot : Type 0 where
  pub route_id : Text
  pub route_name : Text
  pub requests : ℕ
  pub errors : ℕ
  pub avg_latency_ms : Fraction
  pub error_rate : Fraction
  pub p99_latency_ms : ℕ

pub record Snapshot : Type 0 where
  pub routes : List RouteSnapshot
  pub total_reqs : ℕ
  pub total_errs : ℕ

pub record Counter : Type 0 where
  pub name : Text
  pub requests : ℕ
  pub errors : ℕ
  pub lat_sum : ℕ
  pub lat_window : List ℕ

abbrev pub window_size : ℕ
window_size = 1000

-- recordLatency
unfoldable pub record_latency : ℕ → Counter → Counter
record_latency ms c = record c {
  lat_window =
      (if leb window_size (length c.lat_window) then tail c.lat_window else c.lat_window)
      ++ ms ∷ [];
}

-- The rank in p99: int(float64(n) * 0.99), below n.
abbrev pub rank : ℕ → ℕ
rank n = let idx = n * 99 / 100 in if leb n idx then n - 1 else idx

-- The value at the rank of a window; `sort` is sort.Slice by rising value.
abbrev pub p99_of : (List ℕ → List ℕ) → List ℕ → ℕ
p99_of sort [] = 0
p99_of sort (ms ∷ window) = get_or (sort (ms ∷ window)) (rank (length (ms ∷ window))) 0

-- p99
unfoldable pub p99 : (List ℕ → List ℕ) → Counter → ℕ
p99 sort c = p99_of sort c.lat_window

pub record Tracker : Type 0 where
  pub routes : Table Counter

-- NewTracker
unfoldable pub new_tracker : Tracker
new_tracker = record { routes = [] }

-- getOrCreate: the counter, which the caller writes back
unfoldable pub get_or_create : Text → Text → Tracker → Counter
get_or_create route_id route_name t = elim (lookup route_id t.routes) [
  | some c ↦ c
  | none ↦ record { name = route_name; requests = 0; errors = 0; lat_sum = 0; lat_window = [] }
]

pub record Sample : Type 0 where
  pub route_id : Text
  pub route_name : Text
  pub status_code : ℕ
  pub latency : ℕ

-- The counter after a sample.
unfoldable pub counted_in : Sample → Counter → Counter
counted_in s c =
    let timed =
      record_latency s.latency
        (record c { requests = c.requests + 1; lat_sum = c.lat_sum + s.latency }) in
    if leb 400 s.status_code then record timed { errors = timed.errors + 1 } else timed

-- Track
unfoldable pub track : Sample → Tracker → Tracker
track s t = record t {
  routes = insert s.route_id (counted_in s (get_or_create s.route_id s.route_name t)) t.routes;
}

-- A run of Track.
unfoldable pub track_all : List Sample → Tracker → Tracker
track_all [] t = t
track_all (s ∷ ss) t = track_all ss (track s t)

-- One round of the loop of Snapshot: without requests, the averages are 0.
unfoldable pub row : (List ℕ → List ℕ) → Text × Counter → RouteSnapshot
row sort (id, c) =
    let some_reqs = ltb 0 c.requests in
    record {
      route_id = id;
      route_name = c.name;
      requests = c.requests;
      errors = c.errors;
      avg_latency_ms =
          (if some_reqs
            then record { num = c.lat_sum; den = c.requests }
            else record { num = 0; den = 1 });
      error_rate =
          (if some_reqs
            then record { num = c.errors * 100; den = c.requests }
            else record { num = 0; den = 1 });
      p99_latency_ms = p99 sort c;
    }

-- The sum that the loop of Snapshot keeps.
abbrev pub total : (Counter → ℕ) → Table Counter → ℕ
total f [] = 0
total f ((id, c) ∷ m) = f c + total f m

-- Snapshot; `by_name` is sort.Slice by the names.
unfoldable pub take_snapshot :
    (List ℕ → List ℕ) → (List RouteSnapshot → List RouteSnapshot) → Tracker → Snapshot
take_snapshot sort by_name t = record {
  routes = by_name (map (row sort) t.routes);
  total_reqs = total (λ c. c.requests) t.routes;
  total_errs = total (λ c. c.errors) t.routes;
}
