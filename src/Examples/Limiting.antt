-- ===== src/Examples/Limiting.antt =====
-- A limit of two requests in ten milliseconds, a bucket of two tokens, and the clients of a route.
use helix_gateway.Base.{
  ℕ, Text, text, text_eq, Bool, ltb, List, true, false, [], ◌∷◌, none, ◌≡◌, ◌↔◌, ◌≤◌, ◌<◌, ◌+◌, ◌*◌,
  ◌-◌, length, keep, arith,
}
use helix_gateway.RateLimit.SlidingWindow.{recent, run_window}
use helix_gateway.RateLimit.SlidingWindow.Quota.{
  scores_after, allowed_at, run_window-quota, last_of,
}
use helix_gateway.RateLimit.TokenBucket.Burst.{allowed, allowed-burst}
use helix_gateway.RateLimit.Limiter.{Moment, Tier, Limiter, Redis}
use helix_gateway.Plugins.Limits.Isolation.{run, run-keep}

run_window-quota_example :
    ((run_window 10 2 8 (scores_after 10 2 (1 ∷ 2 ∷ 3 ∷ []) [])).0.0 ≡ true)
    ↔ (length (keep (recent 10 8) (allowed_at 10 2 (1 ∷ 2 ∷ 3 ∷ []) [])) < 2)
run_window-quota_example =
    run_window-quota 10 2 (1 ∷ 2 ∷ 3 ∷ []) 8 (ground arith, (ground arith, (ground arith, tt)))
      (ground arith)

allowed-burst_example :
    allowed 2000 100 (5 ∷ 6 ∷ 7 ∷ []) none * 1000000
    ≤ 2000 * 1000 + (last_of 5 (6 ∷ 7 ∷ []) - 5) * 100
allowed-burst_example =
    allowed-burst 2000 100 5 (6 ∷ 7 ∷ []) (ground arith) (ground arith, (ground arith, tt))

abbrev tier : Tier
tier = record { capacity = 2000; rate = 100; window = 10; limit = 2 }

abbrev limits : Limiter
limits = record { ip = tier; user = tier; auth = tier }

abbrev moment : Moment
moment = record { now = 5; bucket_up = true; window_up = false }

abbrev blank : Redis
blank = record { buckets = []; windows = [] }

-- A limiter that counts its tokens down.
abbrev count_down : ℕ → ℕ → Bool × ℕ
count_down now n = (ltb 0 n, n - 1)

abbrev requests : List (ℕ × Text)
requests = (1, text "a") ∷ (2, text "b") ∷ (3, text "a") ∷ []

run-keep_example :
    keep (λ d. text_eq d.0 (text "a")) (run 1 count_down requests [])
    ≡ run 1 count_down (keep (λ r. text_eq r.1 (text "a")) requests) []
run-keep_example = run-keep 1 count_down (text "a") requests []
