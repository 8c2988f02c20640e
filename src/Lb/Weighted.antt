-- ===== src/Lb/Weighted.antt =====
-- internal/lb/lb.go: the weighted balancer, and the weights that buildLBHandler in
-- internal/router/router.go gives it, which are not negative.
pub mod Shares
use helix_gateway.Base.{
  ℕ, ◌+◌, ◌/◌, ◌%◌, ◌==◌, ltb, Text, Bool, List, [], ◌∷◌, ◌++◌, Option, none, some, keep, length,
  if◌then◌else◌,
}
use helix_gateway.Lb.RoundRobin.{passes}

pub record WeightedEndpoint : Type 0 where
  pub url : Text
  pub weight : ℕ

pub record WeightedBalancer : Type 0 where
  pub endpoints : List WeightedEndpoint
  pub total : ℕ

-- A loop that adds up weights.
unfoldable pub weight_sum : List WeightedEndpoint → ℕ
weight_sum [] = 0
weight_sum (e ∷ es) = e.weight + weight_sum es

-- NewWeighted
unfoldable pub new_weighted : List WeightedEndpoint → WeightedBalancer
new_weighted endpoints = record { endpoints = endpoints; total = weight_sum endpoints }

-- The endpoints that Next chooses from, and their total: the healthy ones, or else all.
unfoldable pub eligible : Option (Text → Bool) → WeightedBalancer → List WeightedEndpoint × ℕ
eligible is_healthy wb = elim is_healthy [
  | none ↦ (wb.endpoints, wb.total)
  | some healthy ↦
      (let filtered = keep (λ e. healthy e.url) wb.endpoints in
        if length filtered == 0 then (wb.endpoints, wb.total) else (filtered, weight_sum filtered))
]

-- The loop over the eligible endpoints, with its variable `cum`; after it, the last endpoint.
unfoldable pub pick : List WeightedEndpoint → ℕ → ℕ → Text → Text
pick [] cum r last = last
pick (e ∷ es) cum r last =
    let rest = pick es (cum + e.weight) r e.url in if ltb r (cum + e.weight) then e.url else rest

-- Next; `draw` is rand.IntN.
unfoldable pub next : Option (Text → Bool) → (ℕ → ℕ) → WeightedBalancer → Text
next is_healthy draw wb =
    let (endpoints, total) = eligible is_healthy wb in
    if total == 0 then [] else pick endpoints 0 (draw total) []

abbrev with_weight : ℕ → List Text → List WeightedEndpoint
with_weight w [] = []
with_weight w (ep ∷ eps) = record { url = ep; weight = w } ∷ with_weight w eps

-- The weights of buildLBHandler: an equal part of 100 for each, and the remainder for the first.
unfoldable pub lb_weights : List Text → List WeightedEndpoint
lb_weights [] = []
lb_weights (ep ∷ eps) =
    let n = length (ep ∷ eps) in
    record { url = ep; weight = 100 / n + 100 % n } ∷ with_weight (100 / n) eps
