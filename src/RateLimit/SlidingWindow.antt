-- ===== src/RateLimit/SlidingWindow.antt =====
-- internal/ratelimit/sliding_window.go: the script that Redis runs as one step. The sorted set of a
-- key is the list of its scores, since the identifiers of requests are random and do not meet. The
-- key's expiry is left out: it comes when every score has left the window.
pub mod Quota
use helix_gateway.Base.{
  ℕ, ◌+◌, ◌-◌, ltb, Bool, true, false, List, [], ◌∷◌, ◌++◌, length, keep, if◌then◌else◌,
}

-- A score that ZREMRANGEBYSCORE up to now - window leaves.
abbrev pub recent : ℕ → ℕ → ℕ → Bool
recent window now score = ltb now (score + window)

-- slidingWindowScript: whether the request is allowed, how many remain, and the set.
unfoldable pub run_window : ℕ → ℕ → ℕ → List ℕ → (Bool × ℕ) × List ℕ
run_window window limit now scores =
    let left = keep (recent window now) scores in
    let count = length left in
    if ltb count limit then ((true, limit - count - 1), left ++ now ∷ []) else ((false, 0), left)
