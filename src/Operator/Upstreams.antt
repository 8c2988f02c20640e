-- ===== src/Operator/Upstreams.antt =====
-- internal/operator/controller/upstream.go: the reconciler of GatewayUpstream.
pub mod Sync
pub mod Backend
pub mod Lost
use helix_gateway.Base.{
  Text, text, is_empty, Bool, true, false, [], ◌++◌, none, some, if◌then◌else◌,
}
use helix_gateway.Store.Model.{Upstream}
use helix_gateway.Admin.Client.{Outcome, done, failed}
use helix_gateway.Operator.{
  GatewayUpstream, found, missing, unavailable, Kube, Gateway, Verdict, fine, failing,
  has_finalizer, add_finalizer, remove_finalizer, GatewayUpstream,
}

abbrev pub upstream_finalizer : Text
upstream_finalizer = text "helix.io/upstream"

-- The upstream that handleUpsert sends for a resource.
unfoldable pub desired_upstream : GatewayUpstream → Upstream
desired_upstream cr = record {
  id = cr.status.upstream_id;
  name = cr.meta.name;
  url = cr.spec.url;
  protocol = [];
  endpoints = [];
  lb_algorithm = [];
  health_path = cr.spec.health_path;
  created_at = 0;
  updated_at = 0;
}

-- The resource with its identifier in the gateway.
abbrev pub with_upstream_id : GatewayUpstream → Text → GatewayUpstream
with_upstream_id cr id = record cr { status = record cr.status { upstream_id = id } }

-- The resource with the condition Ready.
abbrev pub upstream_ready :
    {K : Type 0} → Kube K → GatewayUpstream → Bool → Text → Text → GatewayUpstream
upstream_ready kube cr holds reason msg = record cr {
  status = record cr.status {
    conditions =
        kube.set_condition
          (record {
            kind = text "Ready";
            holds = holds;
            reason = reason;
            message = msg;
            observed_generation = cr.meta.generation;
          })
          cr.status.conditions;
  };
}

module _ {K S : Type 0} (kube : Kube K) (gateway : Gateway S) where
  -- setCondition, of the condition Ready
  unfoldable pub set_upstream_condition : GatewayUpstream → Bool → Text → Text → K → Verdict × K
  set_upstream_condition cr holds reason msg k =
      let (e, l) = kube.status_upstream (upstream_ready kube cr holds reason msg) k in
      elim e [ some why ↦ (failing why, l) | none ↦ ((if holds then fine else failing msg), l) ]

  -- The end of handleUpsert, on the admin API's answer.
  unfoldable pub finish_upstream : GatewayUpstream → K → Outcome Upstream × S → Verdict × K × S
  finish_upstream cr k (failed e, t) =
      let (v, l) = set_upstream_condition cr false (text "SyncFailed") (gateway.message e) k in
      (v, l, t)
  finish_upstream cr k (done x, t) =
      let (v, l) =
        set_upstream_condition (with_upstream_id cr x.id) true (text "Synced")
          (text "upstream " ++ x.id ++ text " synced") k in
      (v, l, t)

  -- The call of the admin API: a creation until the gateway has given an identifier.
  abbrev pub send_upstream : GatewayUpstream → S → Outcome Upstream × S
  send_upstream cr s =
      if is_empty cr.status.upstream_id
      then gateway.create_upstream (desired_upstream cr) s
      else gateway.update_upstream cr.status.upstream_id (desired_upstream cr) s

  -- handleUpsert
  unfoldable pub upsert_upstream : GatewayUpstream → K → S → Verdict × K × S
  upsert_upstream cr k s = finish_upstream cr k (send_upstream cr s)

  -- The end of handleDelete: the finalizer goes.
  unfoldable pub release_upstream : GatewayUpstream → K → S → Verdict × K × S
  release_upstream cr k s =
      let (e, l) =
        kube.update_upstream (record cr { meta = remove_finalizer upstream_finalizer cr.meta }) k in
      elim e [ some why ↦ (failing why, l, s) | none ↦ (fine, l, s) ]

  -- handleDelete
  unfoldable pub remove_upstream : GatewayUpstream → K → S → Verdict × K × S
  remove_upstream cr k s =
      if has_finalizer upstream_finalizer cr.meta
      then (if is_empty cr.status.upstream_id
          then release_upstream cr k s
          else (let (o, t) = gateway.delete_upstream cr.status.upstream_id s in
              elim o [
                | failed e ↦ (failing (gateway.message e), k, t)
                | done _ ↦ release_upstream cr k t
              ]))
      else (fine, k, s)

  -- Reconcile, after the resource is read
  unfoldable pub reconcile_read_upstream : GatewayUpstream → K → S → Verdict × K × S
  reconcile_read_upstream cr k s =
      if cr.meta.deleting
      then remove_upstream cr k s
      else if has_finalizer upstream_finalizer cr.meta
      then upsert_upstream cr k s
      else (let cr' = record cr { meta = add_finalizer upstream_finalizer cr.meta } in
          let (e, l) = kube.update_upstream cr' k in
          elim e [ some why ↦ (failing why, l, s) | none ↦ upsert_upstream cr' l s ])

  -- Reconcile
  unfoldable pub reconcile_upstream : Text → Text → K → S → Verdict × K × S
  reconcile_upstream namespace name k s = elim (kube.get_upstream namespace name k) [
    | missing e ↦ (fine, k, s)
    | unavailable e ↦ (failing e, k, s)
    | found cr ↦ reconcile_read_upstream cr k s
  ]
