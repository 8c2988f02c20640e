-- ===== src/Operator/Policies.antt =====
-- internal/operator/controller/policy.go: the reconciler of HelixIPPolicy.
pub mod Sync
pub mod Backend
use helix_gateway.Base.{Text, text, is_empty, Bool, true, false, ◌++◌, none, some, if◌then◌else◌}
use helix_gateway.Store.Model.{IpPolicy}
use helix_gateway.Admin.Client.{Outcome, done, failed}
use helix_gateway.Operator.{
  HelixIpPolicy, found, missing, unavailable, Kube, Gateway, Verdict, fine, failing, has_finalizer,
  add_finalizer, remove_finalizer,
}

abbrev pub policy_finalizer : Text
policy_finalizer = text "helix.io/policy"

-- The IP policy that handleUpsert sends for a resource.
unfoldable pub desired_policy : HelixIpPolicy → IpPolicy
desired_policy cr = record {
  id = cr.status.policy_id;
  name = cr.meta.name;
  mode = cr.spec.mode;
  cidrs = cr.spec.cidrs;
  active = cr.spec.active;
  created_at = 0;
  updated_at = 0;
}

-- The resource with its identifier in the gateway.
abbrev pub with_policy_id : HelixIpPolicy → Text → HelixIpPolicy
with_policy_id cr id = record cr { status = record cr.status { policy_id = id } }

-- The resource with the condition Ready.
abbrev pub policy_ready : {K : Type 0} → Kube K → HelixIpPolicy → Bool → Text → Text → HelixIpPolicy
policy_ready kube cr holds reason msg = record cr {
  status = record cr.status {
    conditions =
        kube.set_condition
          (record {
            kind = text "Ready";
            holds = holds;
            reason = reason;
            message = msg;
            observed_generation = cr.meta.generation;
          })
          cr.status.conditions;
  };
}

module _ {K S : Type 0} (kube : Kube K) (gateway : Gateway S) where
  -- setCondition, of the condition Ready
  unfoldable pub set_policy_condition : HelixIpPolicy → Bool → Text → Text → K → Verdict × K
  set_policy_condition cr holds reason msg k =
      let (e, l) = kube.status_policy (policy_ready kube cr holds reason msg) k in
      elim e [ some why ↦ (failing why, l) | none ↦ ((if holds then fine else failing msg), l) ]

  -- The end of handleUpsert, on the admin API's answer.
  unfoldable pub finish_policy : HelixIpPolicy → K → Outcome IpPolicy × S → Verdict × K × S
  finish_policy cr k (failed e, t) =
      let (v, l) = set_policy_condition cr false (text "SyncFailed") (gateway.message e) k in
      (v, l, t)
  finish_policy cr k (done x, t) =
      let (v, l) =
        set_policy_condition (with_policy_id cr x.id) true (text "Synced")
          (text "policy " ++ x.id ++ text " synced") k in
      (v, l, t)

  -- The call of the admin API: a creation until the gateway has given an identifier.
  abbrev pub send_policy : HelixIpPolicy → S → Outcome IpPolicy × S
  send_policy cr s =
      if is_empty cr.status.policy_id
      then gateway.create_policy (desired_policy cr) s
      else gateway.update_policy cr.status.policy_id (desired_policy cr) s

  -- handleUpsert
  unfoldable pub upsert_policy : HelixIpPolicy → K → S → Verdict × K × S
  upsert_policy cr k s = finish_policy cr k (send_policy cr s)

  -- The end of handleDelete: the finalizer goes.
  unfoldable pub release_policy : HelixIpPolicy → K → S → Verdict × K × S
  release_policy cr k s =
      let (e, l) =
        kube.update_policy (record cr { meta = remove_finalizer policy_finalizer cr.meta }) k in
      elim e [ some why ↦ (failing why, l, s) | none ↦ (fine, l, s) ]

  -- handleDelete
  unfoldable pub remove_policy : HelixIpPolicy → K → S → Verdict × K × S
  remove_policy cr k s =
      if has_finalizer policy_finalizer cr.meta
      then (if is_empty cr.status.policy_id
          then release_policy cr k s
          else (let (o, t) = gateway.delete_policy cr.status.policy_id s in
              elim o [
                | failed e ↦ (failing (gateway.message e), k, t)
                | done _ ↦ release_policy cr k t
              ]))
      else (fine, k, s)

  -- Reconcile, after the resource is read
  unfoldable pub reconcile_read_policy : HelixIpPolicy → K → S → Verdict × K × S
  reconcile_read_policy cr k s =
      if cr.meta.deleting
      then remove_policy cr k s
      else if has_finalizer policy_finalizer cr.meta
      then upsert_policy cr k s
      else (let cr' = record cr { meta = add_finalizer policy_finalizer cr.meta } in
          let (e, l) = kube.update_policy cr' k in
          elim e [ some why ↦ (failing why, l, s) | none ↦ upsert_policy cr' l s ])

  -- Reconcile
  unfoldable pub reconcile_policy : Text → Text → K → S → Verdict × K × S
  reconcile_policy namespace name k s = elim (kube.get_policy namespace name k) [
    | missing e ↦ (fine, k, s)
    | unavailable e ↦ (failing e, k, s)
    | found cr ↦ reconcile_read_policy cr k s
  ]
