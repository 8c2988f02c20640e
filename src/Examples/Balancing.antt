-- ===== src/Examples/Balancing.antt =====
-- Balancers over two or three endpoints, one of them down.
use helix_gateway.Base.{
  List, none, ◌-◌, ℕ, Text, text, text_eq, Bool, true, [], ◌∷◌, Option, some, lookup, insert, ◌≡◌,
  refl, Each, arith, not, ◌<◌, length, get_elem?, ℤ, pos, ◌≤ℤ◌, ◌+ℤ◌,
}
use helix_gateway.Lb.RoundRobin.{RoundRobin, passes, new_round_robin}
use helix_gateway.Lb.RoundRobin as RoundRobin
use helix_gateway.Lb.RoundRobin.Selection.{next-healthy, calls, calls-cover}
use helix_gateway.Lb.LeastConn.{LeastConn, new_least_conn, done}
use helix_gateway.Lb.LeastConn.Selection.{next-minimal}
use helix_gateway.Lb.LeastConn as LeastConn
use helix_gateway.Lb.Weighted.{WeightedEndpoint, new_weighted, weight_sum, eligible, lb_weights}
use helix_gateway.Lb.Weighted as Weighted
use helix_gateway.Lb.Weighted.Shares.{next-share}

abbrev is_up : Option (Text → Bool)
is_up = some (λ ep. not (text_eq ep (text "a")))

abbrev ring : RoundRobin
ring = record { endpoints = text "a" ∷ text "b" ∷ text "c" ∷ []; counter = 2 }

next-healthy_example :
    (e : Text) × ((RoundRobin.next is_up ring).0 ≡ some e) × (passes is_up e ≡ true)
unfolding text_eq
next-healthy_example = next-healthy is_up ring 1 (text "b") refl (ground arith) refl (ground arith)

calls-cover_example :
    (j : ℕ) × (j < length ring.endpoints)
    × (get_elem? (calls (length ring.endpoints) ring) j ≡ some (get_elem? ring.endpoints 0))
calls-cover_example = calls-cover ring 0 (ground arith) (ground arith)

abbrev busy : LeastConn
busy = record {
  endpoints = text "a" ∷ text "b" ∷ text "c" ∷ [];
  conns = (text "a", pos 0) ∷ (text "b", pos 5) ∷ (text "c", pos 2) ∷ [];
}

abbrev busier : LeastConn
busier = record busy { conns = (text "a", pos 0) ∷ (text "b", pos 5) ∷ (text "c", pos 3) ∷ [] }

busy-counts : Each (λ c. pos 0 ≤ℤ c) busy.conns
unfolding lookup text_eq
busy-counts = record { at_key = λ k c e. ground arith }

next-minimal_example :
    (n : ℤ) × (lookup (text "c") busy.conns ≡ some n)
    × (passes is_up (text "c") ≡ true)
    × (n ≤ℤ pos 5)
unfolding text_eq lookup insert LeastConn.next LeastConn.scan LeastConn.take_conn LeastConn.add_conn
    ◌+ℤ◌
next-minimal_example =
    next-minimal is_up busy busier (text "c") busy-counts refl 1 (text "b") (pos 5)
      (λ j e at. ground arith) refl refl refl

-- Two endpoints share the hundred draws.
abbrev pair : List WeightedEndpoint
pair = record { url = text "a"; weight = 60 } ∷ record { url = text "b"; weight = 40 } ∷ []

next-share_example : Weighted.next none (λ n. n - 1) (new_weighted pair) ≡ text "b"
unfolding eligible new_weighted weight_sum
next-share_example =
    next-share none (λ n. n - 1) pair (record { url = text "a"; weight = 60 } ∷ []) []
      (record { url = text "b"; weight = 40 }) refl (ground arith) (ground arith)
