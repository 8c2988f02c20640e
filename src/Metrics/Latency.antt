-- ===== src/Metrics/Latency.antt =====
-- The window of latencies of a route, and the rank that p99 reads in it.
use mathlib.Core.List.{append-nil, append_assoc}
use helix_gateway.Base.{
  insert, ℕ, zero, suc, ◌<◌, leb, Text, text_eq, text_eq_iff, List, [], ◌∷◌, ◌++◌, none, some,
  length, tail, get_or, get_elem?, get_elem?-below, Has, lookup, lookup-insert, if◌then◌else◌,
  newest, newest-nil, newest-push, ◌≡◌, sym, ◌∙◌, ap, arith, Bool-cases, inl, inr,
}
use helix_gateway.Metrics.{
  Counter, Tracker, Sample, new_tracker, get_or_create, record_latency, counted_in, track,
  track_all, rank, p99, window_size,
}

-- The latencies of the samples of one route, oldest first.
unfoldable pub latencies : Text → List Sample → List ℕ
latencies id [] = []
latencies id (s ∷ ss) =
    let rest = latencies id ss in if text_eq s.route_id id then s.latency ∷ rest else rest

-- The window of a route; one that is not there has an empty one.
unfoldable pub window : Text → Tracker → List ℕ
window id t = elim (lookup id t.routes) [ none ↦ [] | some c ↦ c.lat_window ]

push : ℕ → List ℕ → List ℕ
push ms w = (if leb window_size (length w) then tail w else w) ++ ms ∷ []

counted_in-window :
    (s : Sample) (c : Counter) → (counted_in s c).lat_window ≡ push s.latency c.lat_window
unfolding counted_in record_latency push
counted_in-window s c = elim (Bool-cases (leb 400 s.status_code)) [
  | inl t ↦ simp (t)
  | inr f ↦ simp (f)
]

get_or_create-window :
    (id name : Text) (t : Tracker) → (get_or_create id name t).lat_window ≡ window id t
unfolding get_or_create window
get_or_create-window id name t = ground arith

window-insert :
    (id j : Text) (c : Counter) (t : Tracker)
    → window id (record t { routes = insert j c t.routes })
      ≡ (if text_eq j id then c.lat_window else window id t)
unfolding window
window-insert id j c t = rw (lookup-insert j id c t.routes, window) (ground arith)

track-window :
    (s : Sample) (t : Tracker) (id : Text)
    → window id (track s t)
      ≡ (if text_eq s.route_id id then push s.latency (window id t) else window id t)
unfolding track
track-window s t id =
    let c = get_or_create s.route_id s.route_name t in
    window-insert id s.route_id (counted_in s c) t ∙ elim (Bool-cases (text_eq s.route_id id)) [
      | inr f ↦ simp (f)
      | inl e ↦
          (let same : s.route_id ≡ id = (text_eq_iff s.route_id id).0 e in
            simp (e) (
              counted_in-window s c
              ∙ ap (push s.latency) (get_or_create-window s.route_id s.route_name t)
              ∙ (λ i. push s.latency (window (same i) t))))
    ]

track_all-window :
    (ss : List Sample) (t : Tracker) (id : Text) (past : List ℕ)
    → window id t ≡ newest window_size past
    → window id (track_all ss t) ≡ newest window_size (past ++ latencies id ss)
unfolding track_all latencies
track_all-window [] t id past h = rw append-nil h
track_all-window (s ∷ ss) t id past h = elim (Bool-cases (text_eq s.route_id id)) [
  | inr f ↦ simp (f) (track_all-window ss (track s t) id past (track-window s t id ∙ simp (f) h))
  | inl e ↦ simp (e) (
      rw (← append_assoc past (s.latency ∷ []) (latencies id ss)) (
        track_all-window ss (track s t) id (past ++ s.latency ∷ []) (
          track-window s t id
          ∙ simp (e) (
              ap (push s.latency) h
              ∙ unfold push in newest-push window_size past s.latency (omega arith)))))
]

-- The window of a route holds its newest thousand latencies, oldest first.
window-track_all :
    (ss : List Sample) (id : Text)
    → window id (track_all ss new_tracker) ≡ newest window_size (latencies id ss)
unfolding new_tracker lookup window
window-track_all ss id = track_all-window ss new_tracker id [] (sym (newest-nil window_size))

-- What sort.Slice promises that p99 needs: the same values, as many.
pub record IsArrangement (sort : List ℕ → List ℕ) : Type 0 where
  pub same_length : (xs : List ℕ) → length (sort xs) ≡ length xs
  pub only : (xs : List ℕ) (x : ℕ) → Has x (sort xs) → Has x xs

rank_below : (n : ℕ) → rank (suc n) < suc n
rank_below n = ground arith

get_or-get_elem? : (xs : List ℕ) (i x : ℕ) → get_elem? xs i ≡ some x → get_or xs i 0 ≡ x
get_or-get_elem? [] i x e = absurd (ground arith)
get_or-get_elem? (y ∷ xs) zero x e = ground arith
get_or-get_elem? (y ∷ xs) (suc i) x e = get_or-get_elem? xs i x e

-- The rank that p99 reads exists in a window that is not empty: the value is one of the window. The
-- sort is assumed to keep the values.
p99-Has :
    (sort : List ℕ → List ℕ) (c : Counter) (ms : ℕ) (rest : List ℕ)
    → IsArrangement sort
    → c.lat_window ≡ ms ∷ rest
    → Has (p99 sort c) c.lat_window
unfolding p99
p99-Has sort c ms rest ok full = rw full (
    let below : rank (length (ms ∷ rest)) < length (sort (ms ∷ rest)) =
      rw (ok.same_length (ms ∷ rest)) (rank_below (length rest)) in
    let (x, at) = get_elem?-below (sort (ms ∷ rest)) (rank (length (ms ∷ rest))) below in
    let value = get_or-get_elem? (sort (ms ∷ rest)) (rank (length (ms ∷ rest))) x at in
    rw value (ok.only (ms ∷ rest) x (rank (length (ms ∷ rest)), at)))
