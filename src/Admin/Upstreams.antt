-- ===== src/Admin/Upstreams.antt =====
-- internal/admin/upstreams.go: the handlers of upstreams.
use helix_gateway.Store.Model.{Upstream}
use helix_gateway.Base.{ℕ, ◌++◌, Text, text, is_empty, leb, length, if◌then◌else◌}
use helix_gateway.Store.Upstreams
use helix_gateway.Admin.{
  Env, Handlers, Answer, AdminRequest, upstreams, upstream, nothing, unreachable, probed, failed,
  answered, limited, write_json, reply, decoded,
}

-- listUpstreams
unfoldable pub list_upstreams : Handlers → Answer
list_upstreams h =
    write_json 200
      (upstreams (Upstreams.list_upstreams h.store) (length (Upstreams.list_upstreams h.store)))

-- createUpstream
unfoldable pub create_upstream : Env → Handlers → AdminRequest → Answer × Handlers
create_upstream env h r = decoded h (env.json.upstream (limited r.body)) (λ body.
    reply env h (λ x. write_json 201 (upstream x)) (Upstreams.create_upstream env.io h.store body))

-- getUpstream
unfoldable pub get_upstream : Env → Handlers → Text → Answer × Handlers
get_upstream env h id =
    reply env h (λ x. write_json 200 (upstream x)) (Upstreams.get_upstream h.store id, h.store)

-- updateUpstream
unfoldable pub update_upstream : Env → Handlers → Text → AdminRequest → Answer × Handlers
update_upstream env h id r = decoded h (env.json.upstream (limited r.body)) (λ body.
    reply env h (λ x. write_json 200 (upstream x))
      (Upstreams.update_upstream env.io h.store id body))

-- deleteUpstream
unfoldable pub delete_upstream : Env → Handlers → Text → Answer × Handlers
delete_upstream env h id =
    reply env h (λ _. write_json 204 nothing) (Upstreams.delete_upstream env.io h.store id)

-- The status of upstreamHealth for a response: a code from 400 on is unhealthy.
abbrev pub probe_status : ℕ → Text
probe_status code = if leb 400 code then text "unhealthy" else text "healthy"

-- upstreamHealth, after the upstream is found
unfoldable pub probe_upstream : Env → Upstream → Answer
probe_upstream env u =
    let path = if is_empty u.health_path then text "/health" else u.health_path in
    elim (env.probe (u.url ++ path)) [
      | failed e ↦ write_json 200 (unreachable u.id (text "unhealthy") e env.latency)
      | answered code ↦ write_json 200 (probed u.id (probe_status code) code env.latency)
    ]

-- upstreamHealth
unfoldable pub upstream_health : Env → Handlers → Text → Answer × Handlers
upstream_health env h id =
    reply env h (probe_upstream env) (Upstreams.get_upstream h.store id, h.store)
