-- ===== src/Admin/Reports.antt =====
-- internal/admin: the handlers that only read (handler.go, metrics_handler.go, audit_handler.go).
use helix_gateway.Base.{
  Text, text, is_empty, atoi, ltb_ℤ, length, ℤ, pos, List, [], ◌∷◌, none, some, if◌then◌else◌,
}
use helix_gateway.Store.State.{export}
use helix_gateway.Metrics.{take_snapshot}
use helix_gateway.Audit
use helix_gateway.Admin.{
  Env, Handlers, Answer, AdminRequest, healthy, info, plugins, config, metrics, entries, write_json,
}

-- handleHealth
abbrev pub handle_health : Answer
handle_health = write_json 200 healthy

-- handleInfo
abbrev pub handle_info : Env → Answer
handle_info env = write_json 200 (info (text "Helix Gateway") (text "0.1.0") env.runtime)

-- The names that handlePlugins lists as global.
abbrev pub global_plugins : List Text
global_plugins =
    text "correlation-id"
    ∷ text "tracing"
    ∷ text "logging"
    ∷ text "http-metrics"
    ∷ text "security-headers"
    ∷ text "cors"
    ∷ text "request-security"
    ∷ text "ip-policy"
    ∷ text "auth-rate-limit"
    ∷ text "ip-rate-limit"
    ∷ text "jwt-auth"
    ∷ text "user-rate-limit"
    ∷ text "circuit-breaker"
    ∷ []

-- handlePlugins
abbrev pub handle_plugins : Env → Answer
handle_plugins env = write_json 200 (plugins global_plugins env.plugin_names)

-- handleConfigExport
unfoldable pub handle_config_export : Handlers → Answer
handle_config_export h = write_json 200 (config (export h.store))

-- handleMetrics
unfoldable pub handle_metrics : Env → Handlers → Answer
handle_metrics env h = write_json 200 (metrics (take_snapshot env.sort env.by_name h.tracker))

-- The limit of handleAuditLog: a positive number of the query, or 100.
unfoldable pub audit_limit : Text → ℤ
audit_limit l =
    if is_empty l
    then pos 100
    else elim (atoi l) [ none ↦ pos 100 | some n ↦ if ltb_ℤ (pos 0) n then n else pos 100 ]

-- handleAuditLog
unfoldable pub handle_audit_log : Handlers → AdminRequest → Answer
handle_audit_log h r =
    let es = Audit.list (audit_limit r.limit) h.audit_log in write_json 200 (entries es (length es))
