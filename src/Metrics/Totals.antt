-- ===== src/Metrics/Totals.antt =====
-- The counters add up to what was tracked.
use helix_gateway.Base.{
  ℕ, suc, ◌+◌, leb, Text, text_eq, Bool, List, [], ◌∷◌, Option, none, some, length, Table, lookup,
  insert, if◌then◌else◌, ◌≡◌, ◌∙◌, arith, Bool-cases, inl, inr,
}
use helix_gateway.Metrics.{
  Counter, Tracker, Sample, new_tracker, get_or_create, record_latency, counted_in, track,
  track_all, total, take_snapshot, RouteSnapshot,
}

abbrev pub is_error : Sample → Bool
is_error s = leb 400 s.status_code

-- The number of samples that pass the test.
abbrev pub count : (Sample → Bool) → List Sample → ℕ
count p [] = 0
count p (s ∷ ss) = if p s then suc (count p ss) else count p ss

abbrev value_at : (Counter → ℕ) → Option Counter → ℕ
value_at f none = 0
value_at f (some c) = f c

total-insert :
    (f : Counter → ℕ) (id : Text) (c : Counter) (m : Table Counter)
    → total f (insert id c m) + value_at f (lookup id m) ≡ total f m + f c
unfolding insert lookup
total-insert f id c [] = omega arith
total-insert f id c ((j, d) ∷ m) = elim (Bool-cases (text_eq j id)) [
  | inl t ↦ simp (t) (omega arith)
  | inr n ↦ simp (n) (omega (arith, total-insert f id c m))
]

counted_in-requests : (s : Sample) (c : Counter) → (counted_in s c).requests ≡ c.requests + 1
unfolding counted_in record_latency
counted_in-requests s c = ground arith

counted_in-errors :
    (s : Sample) (c : Counter) → (counted_in s c).errors ≡ c.errors + (if is_error s then 1 else 0)
unfolding counted_in record_latency
counted_in-errors s c = ground arith

get_or_create-requests :
    (id name : Text) (t : Tracker)
    → (get_or_create id name t).requests ≡ value_at (λ c. c.requests) (lookup id t.routes)
unfolding get_or_create
get_or_create-requests id name t = ground arith

get_or_create-errors :
    (id name : Text) (t : Tracker)
    → (get_or_create id name t).errors ≡ value_at (λ c. c.errors) (lookup id t.routes)
unfolding get_or_create
get_or_create-errors id name t = ground arith

track-requests :
    (s : Sample) (t : Tracker)
    → total (λ c. c.requests) (track s t).routes ≡ total (λ c. c.requests) t.routes + 1
unfolding track
track-requests s t =
    let c = get_or_create s.route_id s.route_name t in
    omega (
      arith,
      total-insert (λ c. c.requests) s.route_id (counted_in s c) t.routes,
      counted_in-requests s c,
      get_or_create-requests s.route_id s.route_name t,
    )

track-errors :
    (s : Sample) (t : Tracker)
    → total (λ c. c.errors) (track s t).routes
      ≡ total (λ c. c.errors) t.routes + (if is_error s then 1 else 0)
unfolding track
track-errors s t =
    let c = get_or_create s.route_id s.route_name t in
    omega (
      arith,
      total-insert (λ c. c.errors) s.route_id (counted_in s c) t.routes,
      counted_in-errors s c,
      get_or_create-errors s.route_id s.route_name t,
    )

track_all-requests :
    (ss : List Sample) (t : Tracker)
    → total (λ c. c.requests) (track_all ss t).routes ≡ total (λ c. c.requests) t.routes + length ss
unfolding track_all
track_all-requests [] t = omega arith
track_all-requests (s ∷ ss) t = omega (arith, track_all-requests ss (track s t), track-requests s t)

track_all-errors :
    (ss : List Sample) (t : Tracker)
    → total (λ c. c.errors) (track_all ss t).routes
      ≡ total (λ c. c.errors) t.routes + count is_error ss
unfolding track_all
track_all-errors [] t = omega arith
track_all-errors (s ∷ ss) t = ground (arith, track_all-errors ss (track s t), track-errors s t)

-- The totals of a snapshot are the number of the requests that were tracked and, among them, of
-- those with a status of 400 or more.
pub take_snapshot-totals :
    (sort : List ℕ → List ℕ) (by_name : List RouteSnapshot → List RouteSnapshot) (ss : List Sample)
    → ((take_snapshot sort by_name (track_all ss new_tracker)).total_reqs ≡ length ss)
      × ((take_snapshot sort by_name (track_all ss new_tracker)).total_errs ≡ count is_error ss)
unfolding take_snapshot new_tracker
take_snapshot-totals sort by_name ss =
    (track_all-requests ss new_tracker ∙ omega arith, track_all-errors ss new_tracker ∙ omega arith)
