-- ===== src/Admin.antt =====
-- internal/admin: what the admin API answers, and the state and the parameters of its handlers.
-- The bytes of a body are read and written by encoding/json, which is a parameter here.
pub mod Mux
pub mod Routes
pub mod Upstreams
pub mod Policies
pub mod Keys
pub mod Reports
pub mod Server
pub mod Effects
pub mod Trail
pub mod Reading
pub mod Runs
pub mod Refusals
pub mod Client
pub mod Remote
pub mod Parity
use helix_gateway.Base.{
  ℕ, Text, text, Bool, true, false, List, Option, none, some, take, if◌then◌else◌, ◌++◌,
}
use helix_gateway.Store.Model.{Route, Upstream, IpPolicy, ApiKey, Snapshot}
use helix_gateway.Store.State.{
  Store, Io, Failure, is_not_found, not_found, conflict, in_use, hash_required, upstream_not_found,
  Result, ok, err,
}
use helix_gateway.Audit.{Entry, Log}
use helix_gateway.Metrics
use helix_gateway.Metrics.{Tracker}

-- The body of POST /admin/v1/keys.
pub record KeyRequest : Type 0 where
  pub name : Text
  pub scopes : List Text

-- What the process says of itself in GET /admin/v1/info.
pub record Runtime : Type 0 where
  pub uptime : Text
  pub go : Text
  pub os : Text
  pub arch : Text

-- The values that writeJSON encodes, one constructor for each shape.
pub data Payload : Type 0 where
  nothing denied healthy not_routed : Payload
  problem : Text → Text → Payload
  info : Text → Text → Runtime → Payload
  plugins : List Text → List Text → Payload
  config : Snapshot → Payload
  metrics : Metrics.Snapshot → Payload
  routes : List Route → ℕ → Payload
  route : Route → Payload
  upstreams : List Upstream → ℕ → Payload
  upstream : Upstream → Payload
  unreachable : Text → Text → Text → ℕ → Payload
  probed : Text → Text → ℕ → ℕ → Payload
  policies : List IpPolicy → ℕ → Payload
  policy : IpPolicy → Payload
  keys : List ApiKey → Payload
  key : ApiKey → Payload
  created_key : ApiKey → Text → Payload
  entries : List Entry → ℕ → Payload

pub record Answer : Type 0 where
  pub status : ℕ
  pub payload : Payload

-- The decoders of encoding/json; `none` is an error. `toggle` reads the field active.
pub record Json : Type 0 where
  pub route : Text → Option Route
  pub upstream : Text → Option Upstream
  pub policy : Text → Option IpPolicy
  pub toggle : Text → Option Bool
  pub key : Text → Option KeyRequest

-- What a GET of a health URL gives: the text of an error, or a status code.
pub data Probe : Type 0 where
  failed : Text → Probe
  answered : ℕ → Probe

-- What the handlers take from outside. `quote` is the verb %q, `cause` the text of an error of
-- encoding/json or of the file system, `random` is crypto/rand's bytes,
-- `base64` and `hash_key` are the encodings of a new key, and `sort` and `by_name` are the sorts
-- that a snapshot of the metrics uses.
pub record Env : Type 0 where
  pub io : Io
  pub json : Json
  pub quote : Text → Text
  pub cause : Failure → Text
  pub random : Option (List ℕ)
  pub base64 : List ℕ → Text
  pub hash_key : Text → Text
  pub probe : Text → Probe
  pub latency : ℕ
  pub runtime : Runtime
  pub plugin_names : List Text
  pub sort : List ℕ → List ℕ
  pub by_name : List Metrics.RouteSnapshot → List Metrics.RouteSnapshot

-- handlers: the objects that the handlers share
pub record Handlers : Type 0 where
  pub store : Store
  pub tracker : Tracker
  pub audit_log : Log

-- The path is in the clean form, without escapes, that http.ServeMux gives to a handler, and
-- `limit` is the query parameter limit.
pub record AdminRequest : Type 0 where
  pub method : Text
  pub path : Text
  pub limit : Text
  pub credentials : Option (Text × Text)
  pub remote_addr : Text
  pub body : Text

-- http.MaxBytesReader(w, r.Body, 1<<20): the decoder sees no more than these bytes.
unfoldable pub limited : Text → Text
limited body = take 1048576 body

-- writeJSON
abbrev pub write_json : ℕ → Payload → Answer
write_json status payload = record { status = status; payload = payload }

-- writeError
abbrev pub write_error : ℕ → Text → Text → Answer
write_error status code msg = write_json status (problem code msg)

-- errBadRequest
abbrev pub err_bad_request : Text → Answer
err_bad_request msg = write_error 400 (text "BAD_REQUEST") msg

-- err.Error(), for the errors of the store
unfoldable pub error_text : Env → Failure → Text
error_text env not_found = text "not found"
error_text env conflict = text "name already exists"
error_text env in_use = text "resource in use"
error_text env hash_required = text "key hash is required"
error_text env (upstream_not_found id) = text "upstream " ++ env.quote id ++ text ": not found"
error_text env f = env.cause f

-- errors.Is(err, store.ErrConflict)
abbrev is_conflict : Failure → Bool
is_conflict conflict = true
is_conflict _ = false

-- errors.Is(err, store.ErrInUse)
abbrev is_in_use : Failure → Bool
is_in_use in_use = true
is_in_use _ = false

-- storeErr
unfoldable pub store_err : Env → Failure → Answer
unfolding is_not_found
store_err env f =
    if is_not_found f
    then write_error 404 (text "NOT_FOUND") (error_text env f)
    else if is_conflict f
    then write_error 409 (text "CONFLICT") (error_text env f)
    else if is_in_use f
    then write_error 409 (text "IN_USE") (error_text env f)
    else write_error 500 (text "INTERNAL_ERROR") (text "internal error")

abbrev pub with_store : Handlers → Store → Handlers
with_store h s = record h { store = s }

-- The handlers' common end: the error, or the answer to the value.
abbrev pub reply {ℓ} :
    {A : Type ℓ} → Env → Handlers → (A → Answer) → Result A × Store → Answer × Handlers
reply env h answer (ok a, s) = (answer a, with_store h s)
reply env h answer (err f, s) = (store_err env f, with_store h s)

-- The decoding at the head of a handler: an error is answered at once.
abbrev pub decoded {ℓ} :
    {A : Type ℓ} → Handlers → Option A → (A → Answer × Handlers) → Answer × Handlers
decoded h none k = (err_bad_request (text "invalid request body"), h)
decoded h (some a) k = k a
