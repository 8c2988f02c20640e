-- ===== src/RateLimit.antt =====
-- internal/ratelimit: the two limits that Redis keeps, and the limiter that asks both.
pub mod SlidingWindow
pub mod TokenBucket
pub mod Limiter
