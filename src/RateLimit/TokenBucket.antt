-- ===== src/RateLimit/TokenBucket.antt =====
-- internal/ratelimit/token_bucket.go: the script that Redis runs as one step. The capacity and the
-- rate are given in thousandths, and tokens are counted in millionths, so that elapsed / 1000 * rate
-- is exact. The clock does not go back.
pub mod Burst
use helix_gateway.Base.{
  ℕ, ◌+◌, ◌-◌, ◌*◌, ◌/◌, leb, Bool, true, false, Option, none, some, if◌then◌else◌,
}

-- The fields t and ts of the key's hash.
pub record Bucket : Type 0 where
  pub tokens : ℕ
  pub ts : ℕ

-- PEXPIRE: an hour after the last call the key is gone.
abbrev pub expiry : ℕ
expiry = 3600000

-- HMGET: the hash, unless it is missing or expired.
abbrev pub alive : ℕ → Option Bucket → Option Bucket
alive now none = none
alive now (some b) = if leb (b.ts + expiry) now then none else some b

-- math.min
abbrev pub min : ℕ → ℕ → ℕ
min a b = if leb a b then a else b

-- The tokens of a bucket at the instant, before the cost is taken.
unfoldable pub refill : ℕ → ℕ → ℕ → Option Bucket → ℕ
refill capacity rate now key = elim (alive now key) [
  | none ↦ min (capacity * 1000) (capacity * 1000 + (now - now) * rate)
  | some b ↦ min (capacity * 1000) (b.tokens + (now - b.ts) * rate)
]

-- tokenBucketScript: whether the cost was paid, the whole tokens left, and the hash.
unfoldable pub run_bucket : ℕ → ℕ → ℕ → ℕ → Option Bucket → (Bool × ℕ) × Option Bucket
run_bucket capacity rate now cost key =
    let tokens = refill capacity rate now key in
    if leb (cost * 1000000) tokens
    then (
      (true, (tokens - cost * 1000000) / 1000000),
      some (record { tokens = tokens - cost * 1000000; ts = now }),
    )
    else ((false, tokens / 1000000), some (record { tokens = tokens; ts = now }))
