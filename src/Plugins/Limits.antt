-- ===== src/Plugins/Limits.antt =====
-- internal/plugin/builtin: ratelimit.go, routelimit.go and correlation.go. A plugin that keeps state
-- is what it decides of a request, with the state after it. The metrics that it counts are left out.
pub mod Isolation
use helix_gateway.Base.{
  ℕ, ◌+◌, ◌-◌, ltb, not, ◌&&◌, ◌||◌, Text, text, text_eq, is_empty, Bool, true, false, ℤ, List, [],
  ◌∷◌, Option, none, some, Table, lookup, insert, keep, if◌then◌else◌,
}
use helix_gateway.Plugins.Http.{HttpRequest, Response, header, client_ip, write_json}
use helix_gateway.Plugins.Access.{is_public}
use helix_gateway.RateLimit.Limiter.{Limiter, Redis, Moment, allow_ip, allow_user, allow_auth}

-- A request goes on, with the response headers so far, or is answered.
pub data Decision : Type 0 where
  passed : Table Text → HttpRequest → Decision
  answered : Response → Decision

-- The answer 429, after so many seconds.
abbrev pub too_many : Table Text → Text → Text → Decision
too_many w seconds body = answered (write_json (insert (text "Retry-After") seconds w) 429 body)

module _ (split_host : Text → Text) (m : Moment) (l : Limiter) (w : Table Text)
    (r : HttpRequest) where
  -- IPRateLimit
  unfoldable pub ip_rate_limit : List Text → Redis → Decision × Redis
  ip_rate_limit bypass redis =
      if text_eq r.method (text "OPTIONS") || is_public r.path bypass
      then (passed w r, redis)
      else (let (ok, after) = allow_ip m l (client_ip split_host r) redis in
          if ok then (passed w r, after) else (
            too_many w (text "5") (text "{\"error\":\"rate_limit_exceeded\",\"scope\":\"ip\"}"),
            after,
          ))

  -- AuthRateLimit
  unfoldable pub auth_rate_limit : Redis → Decision × Redis
  auth_rate_limit redis =
      if text_eq r.method (text "POST") && text_eq r.path (text "/api/auth/login")
      then (let (ok, after) = allow_auth m l (client_ip split_host r) redis in
          if ok then (passed w r, after) else (
            too_many w (text "60") (text "{\"error\":\"rate_limit_exceeded\",\"scope\":\"auth\"}"),
            after,
          ))
      else (passed w r, redis)

  -- UserRateLimit
  unfoldable pub user_rate_limit : Redis → Decision × Redis
  user_rate_limit redis = elim r.claims [
    | none ↦ (passed w r, redis)
    | some c ↦
        (let (ok, after) = allow_user m l c.subject redis in
          if ok then (passed w r, after) else (
            too_many w (text "5") (text "{\"error\":\"rate_limit_exceeded\",\"scope\":\"user\"}"),
            after,
          ))
  ]

-- CorrelationID, for a new identifier
unfoldable pub correlation_id : Text → Table Text → HttpRequest → Decision
correlation_id uuid w r =
    let sent = header (text "X-Correlation-Id") r in
    let id = if is_empty sent then uuid else sent in
    passed (insert (text "X-Correlation-Id") id w)
      (record r { headers = insert (text "X-Correlation-Id") id r.headers })

-- The entry of a client, with its rate.Limiter, a value of L.
pub record Client (L : Type 0) : Type 0 where
  pub lim : L
  pub last_seen : ℕ

-- The limiter of an entry, or a new one.
abbrev pub limiter_of : {L : Type 0} → L → Option (Client L) → L
limiter_of fresh none = fresh
limiter_of fresh (some e) = e.lim

-- `fresh` is rate.NewLimiter with the plugin's numbers, and `allow` is Allow at a time.
module _ {L : Type 0} (fresh : L) (allow : ℕ → L → Bool × L) where
  -- getLimiter, and Allow on the limiter that the map's entry points to
  unfoldable pub take_token : ℕ → Text → Table (Client L) → Bool × Table (Client L)
  take_token now key clients =
      let lim = limiter_of fresh (lookup key clients) in
      let (ok, lim') = allow now lim in
      (ok, insert key (record { lim = lim'; last_seen = now }) clients)

  -- RouteRateLimit, for one request
  unfoldable pub route_rate_limit :
      (Text → Text) → ℕ → Table Text → HttpRequest → Table (Client L) → Decision × Table (Client L)
  route_rate_limit split_host now w r clients =
      let (ok, after) = take_token now (client_ip split_host r) clients in
      if ok
      then (passed w r, after)
      else (answered (write_json w 429 (text "{\"error\":\"route_rate_limit_exceeded\"}")), after)

-- One tick of the goroutine: a client that was not seen for ten minutes is forgotten. Times are in
-- milliseconds.
unfoldable pub sweep : {L : Type 0} → ℕ → Table (Client L) → Table (Client L)
sweep now clients = keep (λ e. not (ltb 600000 (now - e.1.last_seen))) clients
