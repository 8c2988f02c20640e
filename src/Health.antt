-- ===== src/Health.antt =====
-- internal/health/checker.go: the cache of health states and one round of probes. Package net/http
-- is a parameter: what a GET of a URL answers in the round. The states are stamped with the instant
-- of the round.
pub mod Round
use helix_gateway.Base.{
  ℕ, leb, Text, text, is_empty, Bool, true, false, List, [], ◌∷◌, ◌++◌, Option, none, some, Table,
  lookup, insert, if◌then◌else◌,
}
use helix_gateway.Store.Model.{Upstream}

pub record State : Type 0 where
  pub healthy : Bool
  pub last_check : ℕ
  pub error : Text

pub record Checker : Type 0 where
  pub states : Table State

-- New
unfoldable pub new_checker : Checker
new_checker = record { states = [] }

-- The answer to a GET: an error, or a status.
pub data Reply : Type 0 where
  refused : Text → Reply
  answered : ℕ → Reply

-- markHealthy
unfoldable pub mark_healthy : ℕ → Text → Checker → Checker
mark_healthy now url c = record c {
  states = insert url (record { healthy = true; last_check = now; error = [] }) c.states;
}

-- markUnhealthy
unfoldable pub mark_unhealthy : ℕ → Text → Text → Checker → Checker
mark_unhealthy now url msg c = record c {
  states = insert url (record { healthy = false; last_check = now; error = msg }) c.states;
}

-- IsHealthy: an endpoint that was never probed counts as healthy.
unfoldable pub is_healthy : Text → Checker → Bool
is_healthy url c = elim (lookup url c.states) [ none ↦ true | some s ↦ s.healthy ]

-- States
unfoldable pub all_states : Checker → Table State
all_states c = c.states

-- upstreamURLs
unfoldable pub upstream_urls : Upstream → List Text
upstream_urls u = elim u.endpoints [
  | [] ↦ (if is_empty u.url then [] else u.url ∷ [])
  | ep ∷ eps ↦ ep ∷ eps
]

-- `get` is the client's Get, `decimal` prints the status as fmt does, `now` is the instant.
module _ (get : Text → Reply) (decimal : ℕ → Text) (now : ℕ) where
  -- probe: `none` is a nil error.
  unfoldable pub probe : Text → Option Text
  probe url = elim (get url) [
    | refused msg ↦ some msg
    | answered status ↦ (if leb 500 status then some (text "status " ++ decimal status) else none)
  ]

  -- One round of the inner loop of probeAll.
  unfoldable pub check_url : Text → Text → Checker → Checker
  check_url health_path url c =
      if is_empty health_path then mark_healthy now url c else elim (probe (url ++ health_path)) [
        | some msg ↦ mark_unhealthy now url msg c
        | none ↦ mark_healthy now url c
      ]

  unfoldable pub check_urls : Text → List Text → Checker → Checker
  check_urls health_path [] c = c
  check_urls health_path (url ∷ urls) c = check_urls health_path urls (check_url health_path url c)

  -- probeAll, over ListUpstreams
  unfoldable pub probe_all : List Upstream → Checker → Checker
  probe_all [] c = c
  probe_all (u ∷ us) c = probe_all us (check_urls u.health_path (upstream_urls u) c)
