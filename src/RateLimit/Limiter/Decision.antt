-- ===== src/RateLimit/Limiter/Decision.antt =====
-- The limiter rejects only what a script rejects, and keeps its keys apart.
use helix_gateway.Base.{
  ℕ, Text, text, text_eq, Bool, false, List, [], ◌++◌, Option, none, some, Table, lookup, insert,
  lookup-insert, if◌then◌else◌, ◌≡◌, ◌↔◌, ◌⊎◌, refl, sym, ◌∙◌, ap, arith, Bool-cases, inl, inr,
}
use helix_gateway.RateLimit.TokenBucket.{Bucket, run_bucket}
use helix_gateway.RateLimit.SlidingWindow.{run_window}
use helix_gateway.RateLimit.Limiter.{
  Moment, Tier, Limiter, Redis, allow_bucket, allow_window, decide, check, allow_ip, allow_user,
  allow_auth,
}

-- A call is rejected exactly if one of the two scripts ran and rejected it.
check-rejects :
    (m : Moment) (tier : Tier) (key : Text) (redis : Redis)
    → ((check m tier key redis).0 ≡ false) ↔ (
        ((allow_bucket m tier key redis).0 ≡ some false)
        ⊎ ((allow_window m tier key (allow_bucket m tier key redis).1).0 ≡ some false))
unfolding check decide
check-rejects m tier key redis = ground arith

-- What Redis holds for a key.
abbrev bucket_at : Text → Redis → Option Bucket
bucket_at key redis = lookup (text "rl:tb:" ++ key) redis.buckets

abbrev window_at : Text → Redis → Option (List ℕ)
window_at key redis = lookup (text "rl:sw:" ++ key) redis.windows

insert_other {ℓ} :
    {V : Type ℓ} (k j : Text) (v : V) (t : Table V)
    → text_eq k j ≡ false
    → lookup j (insert k v t) ≡ lookup j t
insert_other k j v t h = lookup-insert k j v t ∙ simp (h)

save_other :
    (k j : Text) (b : Option Bucket) (t : Table Bucket)
    → text_eq k j ≡ false
    → lookup j (elim b [ none ↦ t | some c ↦ insert k c t ]) ≡ lookup j t
save_other k j none t h = refl
save_other k j (some c) t h = insert_other k j c t h

allow_bucket-others :
    (m : Moment) (tier : Tier) (key other : Text) (redis : Redis)
    → text_eq key other ≡ false
    → (bucket_at other (allow_bucket m tier key redis).1 ≡ bucket_at other redis)
      × ((allow_bucket m tier key redis).1.windows ≡ redis.windows)
unfolding allow_bucket text_eq
allow_bucket-others m tier key other redis h = elim (Bool-cases m.bucket_up) [
  | inl on ↦
      simp (on, allow_bucket)
        (save_other (text "rl:tb:" ++ key) (text "rl:tb:" ++ other) _ redis.buckets h, refl)
  | inr off ↦ simp (off, allow_bucket) (refl, refl)
]

allow_window-others :
    (m : Moment) (tier : Tier) (key other : Text) (redis : Redis)
    → text_eq key other ≡ false
    → (window_at other (allow_window m tier key redis).1 ≡ window_at other redis)
      × ((allow_window m tier key redis).1.buckets ≡ redis.buckets)
unfolding allow_window text_eq
allow_window-others m tier key other redis h = elim (Bool-cases m.window_up) [
  | inl on ↦
      simp (on, allow_window)
        (insert_other (text "rl:sw:" ++ key) (text "rl:sw:" ++ other) _ redis.windows h, refl)
  | inr off ↦ simp (off, allow_window) (refl, refl)
]

-- The answers, as functions of what Redis holds for the key.
abbrev bucket_answer : Moment → Tier → Option Bucket → Option Bool
bucket_answer m tier b =
    if m.bucket_up then some (run_bucket tier.capacity tier.rate m.now 1 b).0.0 else none

abbrev window_answer : Moment → Tier → Option (List ℕ) → Option Bool
window_answer m tier w =
    if m.window_up
    then some (run_window tier.window tier.limit m.now (elim w [ none ↦ [] | some xs ↦ xs ])).0.0
    else none

allow_bucket-answer :
    (m : Moment) (tier : Tier) (key : Text) (redis : Redis)
    → (allow_bucket m tier key redis).0 ≡ bucket_answer m tier (bucket_at key redis)
unfolding allow_bucket
allow_bucket-answer m tier key redis = elim (Bool-cases m.bucket_up) [
  | inl on ↦ simp (on, allow_bucket)
  | inr off ↦ simp (off, allow_bucket)
]

allow_window-answer :
    (m : Moment) (tier : Tier) (key : Text) (redis : Redis)
    → (allow_window m tier key redis).0 ≡ window_answer m tier (window_at key redis)
unfolding allow_window
allow_window-answer m tier key redis = elim (Bool-cases m.window_up) [
  | inl on ↦ simp (on, allow_window)
  | inr off ↦ simp (off, allow_window)
]

allow_bucket-windows :
    (m : Moment) (tier : Tier) (key : Text) (redis : Redis)
    → (allow_bucket m tier key redis).1.windows ≡ redis.windows
unfolding allow_bucket
allow_bucket-windows m tier key redis = elim (Bool-cases m.bucket_up) [
  | inl on ↦ simp (on, allow_bucket)
  | inr off ↦ simp (off, allow_bucket)
]

check-answers :
    (m : Moment) (tier : Tier) (key : Text) (redis : Redis)
    → (check m tier key redis).0
      ≡ decide
          (bucket_answer m tier (bucket_at key redis))
          (window_answer m tier (window_at key redis))
unfolding check
check-answers m tier key redis = λ i. decide (allow_bucket-answer m tier key redis i) (
    (allow_window-answer m tier key (allow_bucket m tier key redis).1 ∙ (λ j.
        window_answer m tier
          (lookup (text "rl:sw:" ++ key) (allow_bucket-windows m tier key redis j))))
      i)

-- A call on one key leaves the verdict on every other key as it was.
check-check :
    (m n : Moment) (tier other_tier : Tier) (key other : Text) (redis : Redis)
    → text_eq key other ≡ false
    → (check n other_tier other (check m tier key redis).1).0 ≡ (check n other_tier other redis).0
unfolding check
check-check m n tier other_tier key other redis h =
    let middle = (allow_bucket m tier key redis).1 in
    let (buckets, windows) = allow_bucket-others m tier key other redis h in
    let (windows', buckets') = allow_window-others m tier key other middle h in
    let b : bucket_at other (allow_window m tier key middle).1 ≡ bucket_at other redis =
      ap (λ t. lookup (text "rl:tb:" ++ other) t) buckets' ∙ buckets in
    let w : window_at other (allow_window m tier key middle).1 ≡ window_at other redis =
      windows' ∙ ap (λ t. lookup (text "rl:sw:" ++ other) t) windows in
    check-answers n other_tier other (allow_window m tier key middle).1
    ∙ (λ i. decide (bucket_answer n other_tier (b i)) (window_answer n other_tier (w i)))
    ∙ sym (check-answers n other_tier other redis)

-- The limits of addresses, users and logins do not use one another up: a call of AllowIP leaves the
-- verdict on every user and on every login as it was, and a call of AllowUser that on every login.
pub scopes_apart :
    (m n : Moment) (l : Limiter) (ip user_id login_ip : Text) (redis : Redis)
    → ((allow_user n l user_id (allow_ip m l ip redis).1).0 ≡ (allow_user n l user_id redis).0)
      × ((allow_auth n l login_ip (allow_ip m l ip redis).1).0 ≡ (allow_auth n l login_ip redis).0)
      × ((allow_auth n l login_ip (allow_user m l user_id redis).1).0
          ≡ (allow_auth n l login_ip redis).0)
unfolding allow_ip allow_user allow_auth text_eq
scopes_apart m n l ip user_id login_ip redis = (
  check-check m n l.ip l.user (text "ip:" ++ ip) (text "user:" ++ user_id) redis refl,
  check-check m n l.ip l.auth (text "ip:" ++ ip) (text "auth:" ++ login_ip) redis refl,
  check-check m n l.user l.auth (text "user:" ++ user_id) (text "auth:" ++ login_ip) redis refl,
)
