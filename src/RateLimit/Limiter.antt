-- ===== src/RateLimit/Limiter.antt =====
-- internal/ratelimit/limiter.go, with the allow methods of the bucket and the window: a call runs
-- both scripts on the keys of Redis, each of which can fail.
pub mod Decision
use helix_gateway.Base.{
  ℕ, Text, text, Bool, true, false, ◌&&◌, List, [], ◌++◌, Option, none, some, Table, lookup, insert,
  if◌then◌else◌,
}
use helix_gateway.RateLimit.TokenBucket.{Bucket, run_bucket}
use helix_gateway.RateLimit.SlidingWindow.{run_window}

-- config.RateLimitTier: the settings of a pair of limits.
pub record Tier : Type 0 where
  pub capacity : ℕ
  pub rate : ℕ
  pub window : ℕ
  pub limit : ℕ

-- New: the three pairs.
pub record Limiter : Type 0 where
  pub ip : Tier
  pub user : Tier
  pub auth : Tier

pub record Redis : Type 0 where
  pub buckets : Table Bucket
  pub windows : Table (List ℕ)

-- What one call meets: the clock, and whether each of the two script runs succeeds. A run that
-- fails changes nothing.
pub record Moment : Type 0 where
  pub now : ℕ
  pub bucket_up : Bool
  pub window_up : Bool

-- TokenBucket.allow: `none` is an error.
unfoldable pub allow_bucket : Moment → Tier → Text → Redis → Option Bool × Redis
allow_bucket m tier key redis =
    let name = text "rl:tb:" ++ key in
    let ((ok, left), b) = run_bucket tier.capacity tier.rate m.now 1 (lookup name redis.buckets) in
    if m.bucket_up
    then (
      some ok,
      record redis {
        buckets = elim b [ none ↦ redis.buckets | some c ↦ insert name c redis.buckets ];
      },
    )
    else (none, redis)

-- SlidingWindow.allow
unfoldable pub allow_window : Moment → Tier → Text → Redis → Option Bool × Redis
allow_window m tier key redis =
    let name = text "rl:sw:" ++ key in
    let scores : List ℕ = elim (lookup name redis.windows) [ none ↦ [] | some xs ↦ xs ] in
    let ((ok, left), xs) = run_window tier.window tier.limit m.now scores in
    if m.window_up
    then (some ok, record redis { windows = insert name xs redis.windows })
    else (none, redis)

-- The end of check: a script that failed lets the other one decide.
unfoldable pub decide : Option Bool → Option Bool → Bool
decide none none = true
decide none (some sw_ok) = sw_ok
decide (some tb_ok) none = tb_ok
decide (some tb_ok) (some sw_ok) = tb_ok && sw_ok

-- check
unfoldable pub check : Moment → Tier → Text → Redis → Bool × Redis
check m tier key redis =
    let (tb, redis1) = allow_bucket m tier key redis in
    let (sw, redis2) = allow_window m tier key redis1 in (decide tb sw, redis2)

-- AllowIP
unfoldable pub allow_ip : Moment → Limiter → Text → Redis → Bool × Redis
allow_ip m l ip redis = check m l.ip (text "ip:" ++ ip) redis

-- AllowUser
unfoldable pub allow_user : Moment → Limiter → Text → Redis → Bool × Redis
allow_user m l user_id redis = check m l.user (text "user:" ++ user_id) redis

-- AllowAuth
unfoldable pub allow_auth : Moment → Limiter → Text → Redis → Bool × Redis
allow_auth m l ip redis = check m l.auth (text "auth:" ++ ip) redis
