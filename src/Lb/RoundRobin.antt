-- ===== src/Lb/RoundRobin.antt =====
-- internal/lb/lb.go: roundRobin. The counter is a uint64; a call is taken alone, so that its
-- additions follow one another.
pub mod Selection
use native.Mathlib.Nat.{mod-lt, mod-eq_of_lt, div-add-mod}
use helix_gateway.Base.{
  ℕ, zero, suc, ◌+◌, ◌-◌, ◌*◌, ◌/◌, ◌%◌, ◌^◌, ◌<◌, ◌≡◌, refl, Text, Bool, true, false, List, ◌∷◌,
  [], Option, none, some, arith, length, get_elem?, if◌then◌else◌, ◌==◌, Bool-cases, inl, inr,
  Option-cases,
}

abbrev pub uint64 : ℕ
uint64 = 2 ^ 64

pub record RoundRobin : Type 0 where
  pub endpoints : List Text
  pub counter : ℕ

-- The optional test of health: without one every endpoint is healthy.
abbrev pub passes : Option (Text → Bool) → Text → Bool
passes none ep = true
passes (some is_healthy) ep = is_healthy ep

-- NewRoundRobin
unfoldable pub new_round_robin : List Text → RoundRobin
new_round_robin endpoints = record { endpoints = endpoints; counter = 0 }

-- One addition to the counter, and the endpoint at it. The index is below the length.
unfoldable pub advance : RoundRobin → Option Text × RoundRobin
advance rr =
    let c = (rr.counter + 1) % uint64 in
    (get_elem? rr.endpoints (c % length rr.endpoints), record rr { counter = c })

-- `for range n`: stops at the first endpoint that passes.
unfoldable pub search_healthy : ℕ → Option (Text → Bool) → RoundRobin → Option Text × RoundRobin
search_healthy zero is_healthy rr = (none, rr)
search_healthy (suc n) is_healthy rr =
    let (ep, rr') = advance rr in
    let rest = search_healthy n is_healthy rr' in
    elim ep [ none ↦ rest | some e ↦ if passes is_healthy e then (some e, rr') else rest ]

-- What follows the loop of Next: after a full round without a healthy endpoint, the one at the
-- counter is taken anyway.
unfoldable pub settle : ℕ → Option Text × RoundRobin → Option Text × RoundRobin
settle n (some e, rr) = (some e, rr)
settle n (none, rr) = if n == 0 then (none, rr) else (get_elem? rr.endpoints (rr.counter % n), rr)

-- Next
unfoldable pub next : Option (Text → Bool) → RoundRobin → Option Text × RoundRobin
next is_healthy rr =
    settle (length rr.endpoints) (search_healthy (length rr.endpoints) is_healthy rr)
