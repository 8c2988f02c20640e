-- ===== src/Router/Split.antt =====
-- internal/router/router.go: the traffic split over weighted upstreams (buildTrafficSplitHandler).
pub mod Health
use helix_gateway.Base.{
  ◌&&◌, ◌%◌, ℕ, ◌+◌, ◌<◌, ◌==◌, ltb, Text, text_eq, is_empty, Bool, true, false, ◌||◌, ℤ, pos,
  negsuc, List, [], ◌∷◌, Option, none, some, keep, Has, Has-tail, Table, lookup, ◌≡◌, refl, ap, sym,
  ◌∙◌, arith, if◌then◌else◌, Bool-cases, inl, inr, zero,
}
use helix_gateway.Store.Model.{Upstream, WeightedUpstream}

-- The struct wh.
pub record WeightedHandler (H : Type 0) : Type 0 where
  pub upstream_id : Text
  pub handler : H
  pub weight : ℕ

-- A Go int is the 64-bit number that its bits stand for: from 2 ^ 63 on, it is negative.
abbrev pub int_size : ℕ
int_size = 18446744073709551616

abbrev pub first_negative : ℕ
first_negative = 9223372036854775808

abbrev pub add_int : ℕ → ℕ → ℕ
add_int a b = (a + b) % int_size

-- The comparison `<` of two such numbers.
abbrev pub less_int : ℕ → ℕ → Bool
less_int a b = ltb ((a + first_negative) % int_size) ((b + first_negative) % int_size)

-- rand.IntN panics unless its argument is positive.
abbrev pub in_range : ℕ → Bool
in_range n = ltb 0 n && ltb n first_negative

-- How a request to a split ends: with the answer 502, where no upstream is known, with a panic, or at
-- an entry.
pub data SplitEnd (H : Type 0) : Type 0 where
  no_upstream panicked : SplitEnd H
  by : WeightedHandler H → SplitEnd H

-- A weight that is not positive counts as 1.
abbrev pub weight_of : ℤ → ℕ
weight_of (negsuc n) = 1
weight_of (pos n) = if n == 0 then 1 else n

-- The URL of the upstream, empty where it is not listed.
unfoldable pub upstream_url : Text → List Upstream → Text
upstream_url id [] = []
upstream_url id (u ∷ us) = let rest = upstream_url id us in if text_eq u.id id then u.url else rest

module _ {H : Type 0} where
  -- The loop that collects the handlers: an unknown upstream is skipped.
  unfoldable pub split_handlers : Table H → List WeightedUpstream → List (WeightedHandler H)
  split_handlers upstreams [] = []
  split_handlers upstreams (wu ∷ wus) =
      let rest = split_handlers upstreams wus in
      elim (lookup wu.upstream_id upstreams) [
        | none ↦ rest
        | some h ↦
            record { upstream_id = wu.upstream_id; handler = h; weight = weight_of wu.weight }
            ∷ rest
      ]

  unfoldable pub total_weight : List (WeightedHandler H) → ℕ
  total_weight [] = 0
  total_weight (h ∷ hs) = add_int h.weight (total_weight hs)

  -- The test of the filter, without a checker and with one.
  abbrev pub may_serve : Option (Text → Bool) → List Upstream → WeightedHandler H → Bool
  may_serve none us h = true
  may_serve (some is_healthy) us h =
      is_empty (upstream_url h.upstream_id us) || is_healthy (upstream_url h.upstream_id us)

  -- All handlers, where none passes.
  abbrev pub or_all : List (WeightedHandler H) → List (WeightedHandler H) → List (WeightedHandler H)
  or_all [] all = all
  or_all (h ∷ hs) all = h ∷ hs

  unfoldable pub eligible :
      Option (Text → Bool) → List Upstream → List (WeightedHandler H) → List (WeightedHandler H)
  eligible check us hs = or_all (keep (may_serve check us) hs) hs

  -- The loop that adds up weights until the number is reached; the last handler, if it never is.
  unfoldable pub pick : ℕ → ℕ → List (WeightedHandler H) → Option (WeightedHandler H)
  pick rnd cum [] = none
  pick rnd cum (h ∷ []) = some h
  pick rnd cum (h ∷ g ∷ hs) =
      let rest = pick rnd (add_int cum h.weight) (g ∷ hs) in
      if less_int rnd (add_int cum h.weight) then some h else rest

  -- The end of a request at the entry that was picked; an index out of range panics.
  abbrev pub at_entry : Option (WeightedHandler H) → SplitEnd H
  at_entry none = panicked
  at_entry (some h) = by h

  -- A request to the collected entries; `int_n` is rand.IntN.
  unfoldable pub serve_entries :
      Option (Text → Bool) → List Upstream → (ℕ → ℕ) → List (WeightedHandler H) → SplitEnd H
  serve_entries check us int_n [] = no_upstream
  serve_entries check us int_n (h ∷ hs) =
      let among = eligible check us (h ∷ hs) in
      if in_range (total_weight among)
      then at_entry (pick (int_n (total_weight among)) 0 among)
      else panicked

  -- buildTrafficSplitHandler, for one request
  unfoldable pub serve_split :
      Option (Text → Bool) → List Upstream → (ℕ → ℕ) → Table H → List WeightedUpstream → SplitEnd H
  serve_split check us int_n upstreams wus =
      serve_entries check us int_n (split_handlers upstreams wus)
