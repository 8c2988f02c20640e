-- ===== src/Router/Split/Health.antt =====
-- Which entry of a traffic split serves a request, and when the sum of the weights overflows.
use mathlib.Core.Path.{subst}
use native.Mathlib.Nat.{mod-eq_of_lt}
use helix_gateway.Base.{
  false, ◌≤◌, if_true, if_false, ap, ◌∙◌, ℕ, zero, suc, ◌+◌, ◌<◌, Text, Bool, true, ℤ, pos, negsuc,
  List, [], ◌∷◌, Option, some, keep, get_elem?, Has, Has-tail, All, All-Has, Table, lookup, ◌≡◌,
  refl, arith, Bool-cases, Option-cases, inl, inr,
}
use helix_gateway.Store.Model.{Upstream, WeightedUpstream}
use helix_gateway.Router.Split.{
  WeightedHandler, weight_of, split_handlers, total_weight, may_serve, or_all, eligible, pick,
  serve_split, serve_entries, int_size, first_negative, add_int, less_int, in_range, panicked, by,
  at_entry,
}

module _ {H : Type 0} where
  pick-Has :
      (rnd cum : ℕ) (h : WeightedHandler H) (hs : List (WeightedHandler H))
      → (e : WeightedHandler H) × (pick rnd cum (h ∷ hs) ≡ some e) × Has e (h ∷ hs)
  unfolding pick
  pick-Has rnd cum h [] = (h, refl, (0, refl))
  pick-Has rnd cum h (g ∷ hs) = elim (Bool-cases (less_int rnd (add_int cum h.weight))) [
    | inl here ↦ (h, rw here refl, (0, refl))
    | inr later ↦
        (let (e, q, i) = pick-Has rnd (add_int cum h.weight) g hs in
          (e, rw later q, Has-tail e h (g ∷ hs) i))
  ]

  keep-Has :
      (p : WeightedHandler H → Bool) (e : WeightedHandler H) (hs : List (WeightedHandler H)) (i : ℕ)
      → get_elem? (keep p hs) i ≡ some e
      → Has e hs × (p e ≡ true)
  keep-Has p e [] i q = cc
  keep-Has p e (h ∷ hs) i q = elim (Bool-cases (p h)) [
    | inr f ↦ (let (j, ok) = keep-Has p e hs i (rw f at q) in (Has-tail e h hs j, ok))
    | inl t ↦ kept_head (λ j q. keep-Has p e hs j q) i (rw t at q) t
  ]
    where
      kept_head :
          ((j : ℕ) → get_elem? (keep p hs) j ≡ some e → Has e hs × (p e ≡ true))
          → (i : ℕ) → get_elem? (h ∷ keep p hs) i ≡ some e
          → p h ≡ true
          → Has e (h ∷ hs) × (p e ≡ true)
      kept_head later zero q t = (let same : h ≡ e = cc in ((0, q), rw (← same) t))
      kept_head later (suc i) q t = (let (j, ok) = later i q in (Has-tail e h hs j, ok))

  Has-keep :
      (p : WeightedHandler H → Bool) (e : WeightedHandler H) (hs : List (WeightedHandler H)) (i : ℕ)
      → get_elem? hs i ≡ some e
      → p e ≡ true
      → Has e (keep p hs)
  Has-keep p e [] i q t = cc
  Has-keep p e (h ∷ hs) zero q t =
      (let same : h ≡ e = cc in let t' : p h ≡ true = rw same t in rw t' (0, q))
  Has-keep p e (h ∷ hs) (suc i) q t = elim (Bool-cases (p h)) [
    | inl pass ↦ rw pass (Has-tail e h (keep p hs) (Has-keep p e hs i q t))
    | inr stop ↦ rw stop (Has-keep p e hs i q t)
  ]

  weights_positive :
      (upstreams : Table H) (wus : List WeightedUpstream)
      → All (λ h. 0 < h.weight) (split_handlers upstreams wus)
  unfolding split_handlers
  weights_positive upstreams [] = tt
  weights_positive upstreams (wu ∷ wus) = elim (Option-cases (lookup wu.upstream_id upstreams)) [
    | inl e ↦ rw (e, split_handlers) (weights_positive upstreams wus)
    | inr (h, e) ↦ rw (e, split_handlers) (positive wu.weight, weights_positive upstreams wus)
  ]
    where
      positive : (w : ℤ) → 0 < weight_of w
      positive (pos n) = ground arith
      positive (negsuc n) = omega arith

  -- The sum of the weights, without wrapping.
  abbrev pub sum_weights : List (WeightedHandler H) → ℕ
  sum_weights [] = 0
  sum_weights (h ∷ hs) = h.weight + sum_weights hs

  total-sum :
      (hs : List (WeightedHandler H)) → sum_weights hs < int_size → total_weight hs ≡ sum_weights hs
  unfolding total_weight
  total-sum [] small = refl
  total-sum (h ∷ hs) small =
      let rest : sum_weights hs < int_size = omega arith in
      rw (total-sum hs rest) (mod-eq_of_lt small)

  sum-keep :
      (p : WeightedHandler H → Bool) (hs : List (WeightedHandler H))
      → sum_weights (keep p hs) ≤ sum_weights hs
  sum-keep p [] = ground arith
  sum-keep p (h ∷ hs) = elim (Bool-cases (p h)) [
    | inl t ↦ rw t (let k = sum-keep p hs in omega arith)
    | inr f ↦ rw f (let k = sum-keep p hs in omega arith)
  ]

  in_range-sum :
      (hs : List (WeightedHandler H))
      → 0 < sum_weights hs
      → sum_weights hs < first_negative
      → in_range (total_weight hs) ≡ true
  in_range-sum hs low high = rw (total-sum hs (omega arith)) (ground arith)

  -- Among entries of which one may serve.
  chosen :
      (check : Option (Text → Bool)) (us : List Upstream) (hs ks : List (WeightedHandler H))
      (rnd : ℕ) (e : WeightedHandler H) (i : ℕ)
      → All (λ h. 0 < h.weight) hs
      → sum_weights hs < first_negative
      → keep (may_serve check us) hs ≡ ks
      → get_elem? ks i ≡ some e
      → (f : WeightedHandler H) × (pick rnd 0 (or_all ks hs) ≡ some f)
        × Has f hs
        × (may_serve check us f ≡ true)
        × (in_range (total_weight (or_all ks hs)) ≡ true)
  chosen check us hs [] rnd e i w small q g = cc
  chosen check us hs (k ∷ ks) rnd e i w small q g =
      let (f, picked, (j, at)) = pick-Has rnd 0 k ks in
      let (inside, ok) = keep-Has (may_serve check us) f hs j (rw q at) in
      let (first, _) = keep-Has (may_serve check us) k hs 0 (rw q refl) in
      let heavy : 0 < k.weight = All-Has (λ h. 0 < h.weight) k hs w first in
      let less : sum_weights (k ∷ ks) ≤ sum_weights hs =
        subst (λ xs. sum_weights xs ≤ sum_weights hs) q (sum-keep (may_serve check us) hs) in
      (f, picked, inside, ok, in_range-sum (k ∷ ks) (omega arith) (omega arith))

  served :
      (check : Option (Text → Bool)) (us : List Upstream) (int_n : ℕ → ℕ)
      (hs : List (WeightedHandler H)) (e : WeightedHandler H) (i : ℕ)
      → All (λ h. 0 < h.weight) hs
      → sum_weights hs < first_negative
      → get_elem? hs i ≡ some e
      → may_serve check us e ≡ true
      → (f : WeightedHandler H) × (serve_entries check us int_n hs ≡ by f)
        × Has f hs
        × (may_serve check us f ≡ true)
  unfolding serve_entries eligible
  served check us int_n [] e i w small at ok = cc
  served check us int_n (h ∷ hs) e i w small at ok =
      let (j, kept) = Has-keep (may_serve check us) e (h ∷ hs) i at ok in
      let (f, picked, inside, may, range) =
        chosen check us (h ∷ hs) (keep (may_serve check us) (h ∷ hs))
          (int_n (total_weight (eligible check us (h ∷ hs)))) e j w small refl kept in
      (f, if_true _ _ range ∙ ap at_entry picked, inside, may)

  -- Where one of the known weighted upstreams may serve a request, being healthy or without a URL,
  -- and the weights of all known ones add up to less than 2 ^ 63, the request is served by a known
  -- one that may serve it too, whatever the random number: there is no panic.
  pub serve_split-may_serve :
      (check : Option (Text → Bool)) (us : List Upstream) (int_n : ℕ → ℕ) (upstreams : Table H)
      (wus : List WeightedUpstream) (e : WeightedHandler H)
      → Has e (split_handlers upstreams wus)
      → may_serve check us e ≡ true
      → sum_weights (split_handlers upstreams wus) < first_negative
      → (f : WeightedHandler H) × (serve_split check us int_n upstreams wus ≡ by f)
        × Has f (split_handlers upstreams wus)
        × (may_serve check us f ≡ true)
  unfolding serve_split
  serve_split-may_serve check us int_n upstreams wus e (i, at) ok small =
      served check us int_n (split_handlers upstreams wus) e i (weights_positive upstreams wus)
        small at ok

  panics :
      (check : Option (Text → Bool)) (us : List Upstream) (int_n : ℕ → ℕ)
      (hs : List (WeightedHandler H))
      → first_negative ≤ sum_weights (eligible check us hs)
      → sum_weights (eligible check us hs) < int_size
      → serve_entries check us int_n hs ≡ panicked
  unfolding serve_entries eligible
  panics check us int_n [] heavy small = absurd (omega arith)
  panics check us int_n (h ∷ hs) heavy small =
      let total = total-sum (eligible check us (h ∷ hs)) small in
      let off : in_range (total_weight (eligible check us (h ∷ hs))) ≡ false =
        rw total (ground arith) in
      if_false _ _ off

  -- Where the weights of the eligible entries add up to 2 ^ 63 or more, but to less than 2 ^ 64, their
  -- sum is a negative int, and every request to the split panics in rand.IntN.
  pub serve_split-panicked :
      (check : Option (Text → Bool)) (us : List Upstream) (int_n : ℕ → ℕ) (upstreams : Table H)
      (wus : List WeightedUpstream)
      → first_negative ≤ sum_weights (eligible check us (split_handlers upstreams wus))
      → sum_weights (eligible check us (split_handlers upstreams wus)) < int_size
      → serve_split check us int_n upstreams wus ≡ panicked
  unfolding serve_split
  serve_split-panicked check us int_n upstreams wus heavy small =
      panics check us int_n (split_handlers upstreams wus) heavy small
