-- ===== src/Operator/Routes.antt =====
-- internal/operator/controller/route.go: the reconciler of GatewayRoute.
pub mod Asked
pub mod Sync
pub mod Backend
use helix_gateway.Base.{
  Text, text, text_eq, is_empty, Bool, true, false, [], ◌++◌, none, some, inl, inr, ◌⊎◌,
  if◌then◌else◌,
}
use helix_gateway.Store.Model.{Route, PathMode, prefix, exact, regex, other}
use helix_gateway.Admin.Client.{Outcome, done, failed}
use helix_gateway.Operator.{
  GatewayRoute, found, missing, unavailable, Kube, Gateway, Verdict, fine, failing, has_finalizer,
  add_finalizer, remove_finalizer,
}

abbrev pub route_finalizer : Text
route_finalizer = text "helix.io/route"

-- helixstore.PathMode of a text
abbrev pub path_mode_of : Text → PathMode
path_mode_of s =
    if text_eq s (text "prefix")
    then prefix
    else if text_eq s (text "exact")
    then exact
    else if text_eq s (text "regex")
    then regex
    else other s

-- The route that handleUpsert sends for a resource and the upstream that it refers to.
unfoldable pub desired_route : GatewayRoute → Text → Route
desired_route cr upstream_id = record {
  id = cr.status.route_id;
  name = cr.meta.name;
  active = cr.spec.active;
  match = record {
    hosts = cr.spec.match.hosts;
    path = cr.spec.match.path;
    path_mode =
        if is_empty cr.spec.match.path_mode then prefix else path_mode_of cr.spec.match.path_mode;
    methods = cr.spec.match.methods;
    headers = cr.spec.match.headers;
  };
  upstream_id = upstream_id;
  plugins = cr.spec.plugins;
  strip_path = cr.spec.strip_path;
  weighted_upstreams = [];
  created_at = 0;
  updated_at = 0;
}

-- resolveUpstreamID: the identifier, or the text of the error
unfoldable pub resolve_upstream_id : {K : Type 0} → Kube K → GatewayRoute → K → Text ⊎ Text
resolve_upstream_id kube cr k = elim (kube.get_upstream cr.meta.namespace cr.spec.upstream_ref k) [
  | missing e ↦
      inr (text "upstream " ++ kube.quote cr.spec.upstream_ref ++ text " not found: " ++ e)
  | unavailable e ↦
      inr (text "upstream " ++ kube.quote cr.spec.upstream_ref ++ text " not found: " ++ e)
  | found u ↦
      if is_empty u.status.upstream_id
      then inr (
          text "upstream "
          ++ kube.quote cr.spec.upstream_ref
          ++ text " not yet synced — waiting for status.upstreamId")
      else inl u.status.upstream_id
]

-- The resource with its identifier in the gateway.
abbrev pub with_route_id : GatewayRoute → Text → GatewayRoute
with_route_id cr id = record cr { status = record cr.status { route_id = id } }

-- The resource with the condition Ready.
abbrev pub route_ready : {K : Type 0} → Kube K → GatewayRoute → Bool → Text → Text → GatewayRoute
route_ready kube cr holds reason msg = record cr {
  status = record cr.status {
    conditions =
        kube.set_condition
          (record {
            kind = text "Ready";
            holds = holds;
            reason = reason;
            message = msg;
            observed_generation = cr.meta.generation;
          })
          cr.status.conditions;
  };
}

module _ {K S : Type 0} (kube : Kube K) (gateway : Gateway S) where
  -- setCondition, of the condition Ready
  unfoldable pub set_route_condition : GatewayRoute → Bool → Text → Text → K → Verdict × K
  set_route_condition cr holds reason msg k =
      let (e, l) = kube.status_route (route_ready kube cr holds reason msg) k in
      elim e [ some why ↦ (failing why, l) | none ↦ ((if holds then fine else failing msg), l) ]

  -- The end of handleUpsert, on the admin API's answer.
  unfoldable pub finish_route : GatewayRoute → K → Outcome Route × S → Verdict × K × S
  finish_route cr k (failed e, t) =
      let (v, l) = set_route_condition cr false (text "SyncFailed") (gateway.message e) k in
      (v, l, t)
  finish_route cr k (done x, t) =
      let (v, l) =
        set_route_condition (with_route_id cr x.id) true (text "Synced")
          (text "route " ++ x.id ++ text " synced") k in
      (v, l, t)

  -- The call of the admin API: a creation until the gateway has given an identifier.
  abbrev pub send_route : GatewayRoute → Text → S → Outcome Route × S
  send_route cr upstream_id s =
      if is_empty cr.status.route_id
      then gateway.create_route (desired_route cr upstream_id) s
      else gateway.update_route cr.status.route_id (desired_route cr upstream_id) s

  -- handleUpsert
  unfoldable pub upsert_route : GatewayRoute → K → S → Verdict × K × S
  upsert_route cr k s = elim (resolve_upstream_id kube cr k) [
    | inr msg ↦
        let (v, l) = set_route_condition cr false (text "UpstreamNotReady") msg k in (v, l, s)
    | inl upstream_id ↦ finish_route cr k (send_route cr upstream_id s)
  ]

  -- The end of handleDelete: the finalizer goes.
  unfoldable pub release_route : GatewayRoute → K → S → Verdict × K × S
  release_route cr k s =
      let (e, l) =
        kube.update_route (record cr { meta = remove_finalizer route_finalizer cr.meta }) k in
      elim e [ some why ↦ (failing why, l, s) | none ↦ (fine, l, s) ]

  -- handleDelete
  unfoldable pub remove_route : GatewayRoute → K → S → Verdict × K × S
  remove_route cr k s =
      if has_finalizer route_finalizer cr.meta
      then (if is_empty cr.status.route_id
          then release_route cr k s
          else (let (o, t) = gateway.delete_route cr.status.route_id s in
              elim o [
                | failed e ↦ (failing (gateway.message e), k, t)
                | done _ ↦ release_route cr k t
              ]))
      else (fine, k, s)

  -- Reconcile, after the resource is read
  unfoldable pub reconcile_read_route : GatewayRoute → K → S → Verdict × K × S
  reconcile_read_route cr k s =
      if cr.meta.deleting
      then remove_route cr k s
      else if has_finalizer route_finalizer cr.meta
      then upsert_route cr k s
      else (let cr' = record cr { meta = add_finalizer route_finalizer cr.meta } in
          let (e, l) = kube.update_route cr' k in
          elim e [ some why ↦ (failing why, l, s) | none ↦ upsert_route cr' l s ])

  -- Reconcile
  unfoldable pub reconcile_route : Text → Text → K → S → Verdict × K × S
  reconcile_route namespace name k s = elim (kube.get_route namespace name k) [
    | missing e ↦ (fine, k, s)
    | unavailable e ↦ (failing e, k, s)
    | found cr ↦ reconcile_read_route cr k s
  ]
