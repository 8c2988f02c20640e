-- ===== src/RateLimit/TokenBucket/Burst.antt =====
-- How many requests a bucket can let through: its capacity, and what its rate yields in the time.
use native.Mathlib.Nat.{mul-le-mul_right, add-mul}
use helix_gateway.Base.{
  ℕ, suc, ◌+◌, ◌-◌, ◌*◌, ◌≤◌, leb, List, [], ◌∷◌, Option, none, some, if◌then◌else◌, ◌≡◌, ◌∙◌, ap,
  arith, Bool-cases, inl, inr,
}
use helix_gateway.RateLimit.TokenBucket.{Bucket, expiry, refill, run_bucket}
use helix_gateway.RateLimit.SlidingWindow.Quota.{Rising, last_of}

Rising-last : (start : ℕ) (nows : List ℕ) → Rising start nows → start ≤ last_of start nows
Rising-last start [] r = omega arith
Rising-last start (now ∷ nows) r = omega (arith, r.0, Rising-last now nows r.1)

-- A span of time yields what its two parts do.
span : (rate a b c : ℕ) → a ≤ b → b ≤ c → (c - a) * rate ≡ (c - b) * rate + (b - a) * rate
span rate a b c h k =
    let e : c - a ≡ (c - b) + (b - a) = omega arith in
    ap (λ n. n * rate) e ∙ add-mul (c - b) (b - a) rate

module _ (capacity rate : ℕ) where
  -- The hash after requests of one token at the instants.
  unfoldable pub bucket_after : List ℕ → Option Bucket → Option Bucket
  bucket_after [] key = key
  bucket_after (now ∷ nows) key = bucket_after nows (run_bucket capacity rate now 1 key).1

  -- The number of requests that were allowed.
  unfoldable pub allowed : List ℕ → Option Bucket → ℕ
  allowed [] key = 0
  allowed (now ∷ nows) key =
      let rest = allowed nows (run_bucket capacity rate now 1 key).1 in
      if (run_bucket capacity rate now 1 key).0.0 then suc rest else rest

  module _ (lasting : capacity * 1000 ≤ expiry * rate) where
    refill-bound :
        (b : Bucket) (now : ℕ)
        → b.ts ≤ now
        → refill capacity rate now (some b) ≤ b.tokens + (now - b.ts) * rate
    unfolding refill
    refill-bound b now h = elim (Bool-cases (leb (b.ts + expiry) now)) [
      | inl t ↦
          simp (t, refill)
            (let yield : expiry * rate ≤ (now - b.ts) * rate =
                mul-le-mul_right rate (ground arith) in
              ground arith)
      | inr f ↦ simp (f, refill) (ground arith)
    ]

    -- One request, and the requests after it.
    allowed-cons :
        (now : ℕ) (nows : List ℕ) (key : Option Bucket) (bound : ℕ)
        → ((tokens : ℕ)
            → allowed nows (some (record { tokens = tokens; ts = now })) * 1000000 ≤ tokens + bound)
        → allowed (now ∷ nows) key * 1000000 ≤ refill capacity rate now key + bound
    unfolding allowed run_bucket
    allowed-cons now nows key bound h =
        elim (Bool-cases (leb (1 * 1000000) (refill capacity rate now key))) [
          | inl t ↦ simp (t) (ground (arith, h (refill capacity rate now key - 1 * 1000000)))
          | inr f ↦ simp (f) (h (refill capacity rate now key))
        ]

    allowed-bound :
        (nows : List ℕ) (b : Bucket)
        → Rising b.ts nows
        → allowed nows (some b) * 1000000 ≤ b.tokens + (last_of b.ts nows - b.ts) * rate
    unfolding allowed
    allowed-bound [] b r = omega arith
    allowed-bound (now ∷ nows) b r =
        let here = refill-bound b now r.0 in
        let parts = span rate b.ts now (last_of now nows) r.0 (Rising-last now nows r.1) in
        let step =
          allowed-cons now nows (some b) ((last_of now nows - now) * rate)
            (λ tokens. allowed-bound nows (record { tokens = tokens; ts = now }) r.1) in
        omega (arith, here, parts, step)

  -- If a bucket refills within the hour, then among requests from an instant on, starting with no
  -- bucket, at most the capacity is allowed, and what the rate yields until the last of them.
  pub allowed-burst :
      (start : ℕ) (nows : List ℕ)
      → capacity * 1000 ≤ expiry * rate
      → Rising start nows
      → allowed (start ∷ nows) none * 1000000
        ≤ capacity * 1000 + (last_of start nows - start) * rate
  unfolding refill
  allowed-burst start nows lasting r =
      let step =
        allowed-cons lasting start nows none ((last_of start nows - start) * rate)
          (λ tokens. allowed-bound lasting nows (record { tokens = tokens; ts = start }) r) in
      ground (arith, step)
