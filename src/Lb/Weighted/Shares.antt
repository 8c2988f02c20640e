-- ===== src/Lb/Weighted/Shares.antt =====
-- Each eligible endpoint owns as many draws as its weight says.
use native.Mathlib.Nat.{div-add-mod}
use helix_gateway.Base.{
  ℕ, suc, ◌+◌, ◌*◌, ◌/◌, ◌≤◌, ◌<◌, ◌==◌, Text, Bool, false, List, [], ◌∷◌, ◌++◌, Option, none, some,
  keep, length, ◌≡◌, refl, ◌∙◌, ap, arith, Bool-cases, inl, inr,
}
use helix_gateway.Lb.Weighted.{
  WeightedEndpoint, weight_sum, new_weighted, eligible, pick, next, with_weight, lb_weights,
}

weight_sum-append :
    (es fs : List WeightedEndpoint) → weight_sum (es ++ fs) ≡ weight_sum es + weight_sum fs
unfolding weight_sum
weight_sum-append [] fs = omega arith
weight_sum-append (e ∷ es) fs = omega (arith, weight_sum-append es fs)

pick-share :
    (before after : List WeightedEndpoint) (e : WeightedEndpoint) (cum r : ℕ) (last : Text)
    → cum + weight_sum before ≤ r
    → r < cum + weight_sum before + e.weight
    → pick (before ++ e ∷ after) cum r last ≡ e.url
unfolding pick weight_sum
pick-share [] after e cum r last low high = ground arith
pick-share (f ∷ before) after e cum r last low high =
    let rest = pick-share before after e (cum + f.weight) r f.url (omega arith) (omega arith) in
    ground (arith, rest)

-- The total that the draw is taken from is the sum of the eligible weights.
eligible-total :
    (is_healthy : Option (Text → Bool)) (endpoints : List WeightedEndpoint)
    → (eligible is_healthy (new_weighted endpoints)).1
      ≡ weight_sum (eligible is_healthy (new_weighted endpoints)).0
unfolding eligible new_weighted
eligible-total none endpoints = refl
eligible-total (some healthy) endpoints =
    elim (Bool-cases (length (keep (λ e. healthy e.url) endpoints) == 0)) [
      | inl t ↦ simp (t)
      | inr f ↦ simp (f)
    ]

-- An endpoint with weight w among the eligible ones is chosen for each of the w draws that follow
-- the weights of those before it.
pub next-share :
    (is_healthy : Option (Text → Bool)) (draw : ℕ → ℕ)
    (endpoints before after : List WeightedEndpoint) (e : WeightedEndpoint)
    → (eligible is_healthy (new_weighted endpoints)).0 ≡ before ++ e ∷ after
    → weight_sum before ≤ draw (eligible is_healthy (new_weighted endpoints)).1
    → draw (eligible is_healthy (new_weighted endpoints)).1 < weight_sum before + e.weight
    → next is_healthy draw (new_weighted endpoints) ≡ e.url
unfolding next weight_sum
next-share is_healthy draw endpoints before after e parts low high =
    let total = (eligible is_healthy (new_weighted endpoints)).1 in
    let found : pick (eligible is_healthy (new_weighted endpoints)).0 0 (draw total) [] ≡ e.url =
      ap (λ es. pick es 0 (draw total) []) parts
      ∙ pick-share before after e 0 (draw total) [] (omega (arith, low)) (omega (arith, high)) in
    let whole : total ≡ weight_sum before + (e.weight + weight_sum after) =
      eligible-total is_healthy endpoints
      ∙ ap weight_sum parts
      ∙ weight_sum-append before (e ∷ after) in
    let positive : (total == 0) ≡ false = ground arith in rw (positive, next) found

with_weight-sum : (w : ℕ) (eps : List Text) → weight_sum (with_weight w eps) ≡ length eps * w
unfolding weight_sum
with_weight-sum w [] = omega arith
with_weight-sum w (ep ∷ eps) = omega (arith, with_weight-sum w eps)

-- The weights that the router gives the endpoints of an upstream add up to 100.
lb_weights-total :
    (ep : Text) (eps : List Text) → (new_weighted (lb_weights (ep ∷ eps))).total ≡ 100
unfolding new_weighted lb_weights weight_sum
lb_weights-total ep eps =
    omega (arith, with_weight-sum (100 / suc (length eps)) eps, div-add-mod 100 (suc (length eps)))
