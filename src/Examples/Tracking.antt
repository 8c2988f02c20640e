-- ===== src/Examples/Tracking.antt =====
-- Three requests to two routes.
use helix_gateway.Base.{ℕ, text, List, [], ◌∷◌, ◌≡◌, refl, length}
use helix_gateway.Metrics.{Counter, Sample, new_tracker, track_all, take_snapshot}
use helix_gateway.Metrics.Totals.{count, is_error, take_snapshot-totals}
use helix_gateway.Metrics.Latency.{IsArrangement}

abbrev sample : ℕ → Sample
sample status = record {
  route_id = text "r";
  route_name = text "api";
  status_code = status;
  latency = 12;
}

abbrev samples : List Sample
samples = sample 200 ∷ sample 502 ∷ record (sample 404) { route_id = text "s" } ∷ []

take_snapshot-totals_example :
    ((take_snapshot (λ xs. xs) (λ rows. rows) (track_all samples new_tracker)).total_reqs
      ≡ length samples)
    × ((take_snapshot (λ xs. xs) (λ rows. rows) (track_all samples new_tracker)).total_errs
        ≡ count is_error samples)
take_snapshot-totals_example = take_snapshot-totals (λ xs. xs) (λ rows. rows) samples

abbrev timed : Counter
timed = record {
  name = text "api";
  requests = 3;
  errors = 0;
  lat_sum = 33;
  lat_window = 10 ∷ 11 ∷ 12 ∷ [];
}

-- On a window that rises already, sorting changes nothing.
unsorted-IsArrangement : IsArrangement (λ xs. xs)
unsorted-IsArrangement = record { same_length = λ xs. refl; only = λ xs x k. k }
