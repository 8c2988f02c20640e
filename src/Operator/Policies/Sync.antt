-- ===== src/Operator/Policies/Sync.antt =====
-- What a reconciliation of a HelixIPPolicy that ends without an error has done.
use helix_gateway.Base.{
  if_true, if_false, Text, text, is_empty, Bool, Bool-cases, inl, inr, ◌⊎◌, true, false, Option,
  some, none, refl, sym, ◌∙◌, ◌≡◌, ◌++◌, ap,
}
use helix_gateway.Store.Model.{IpPolicy}
use helix_gateway.Admin.Client.{Outcome, ClientError, done, failed}
use helix_gateway.Operator.{
  HelixIpPolicy, Kube, Gateway, Verdict, fine, failing, found, has_finalizer, add_finalizer,
  remove_finalizer,
}
use helix_gateway.Operator.Contract.{Contract}
use helix_gateway.Operator.Ends.{condition-fine, then-fine, WriteEnds, write-ends}
use helix_gateway.Operator.Policies.{
  policy_finalizer, desired_policy, with_policy_id, policy_ready, set_policy_condition,
  finish_policy, send_policy, upsert_policy, release_policy, remove_policy, reconcile_read_policy,
  reconcile_policy,
}

-- A text is an error or an identifier, and an outcome a value or an error.
Outcome-cases :
    {A S : Type 0} (p : Outcome A × S)
    → ((a : A) × (p ≡ (done a, p.1))) ⊎ ((e : _) × (p ≡ (failed e, p.1)))
Outcome-cases (done a, s) = inl (a, refl)
Outcome-cases (failed e, s) = inr (e, refl)

module _ {K S : Type 0} (kube : Kube K) (gateway : Gateway S) (find : Text → S → Option IpPolicy)
    (Same : IpPolicy → IpPolicy → Type 0) (Fits : IpPolicy → Type 0) (Names : Text → Type 0)
    (Good : S → Type 0)
    (contract : Contract gateway.create_policy gateway.update_policy gateway.delete_policy find
      (λ x. x.id)
      Same
      Fits
      Names
      Good) where
  -- The record of the gateway and the status of the resource agree: the status that was written last
  -- names a record that is stored, and the record is the one that was sent.
  pub record IsSynced (sent : IpPolicy) (l : K) (t : S) : Type 0 where
    pub cr : HelixIpPolicy
    pub before : K
    pub stored : IpPolicy
    pub written : kube.status_policy cr before ≡ (none, l)
    pub named : find cr.status.policy_id t ≡ some stored
    pub same : Same sent stored

  set-fine :
      (cr : HelixIpPolicy) (holds : Bool) (reason msg : Text) (k l : K)
      → set_policy_condition kube gateway cr holds reason msg k ≡ (fine, l)
      → (holds ≡ true) × (kube.status_policy (policy_ready kube cr holds reason msg) k ≡ (none, l))
  unfolding set_policy_condition
  set-fine cr holds reason msg k l h =
      condition-fine holds msg (kube.status_policy (policy_ready kube cr holds reason msg) k) l h

  failed_never_fine :
      {P : Type 0} (cr : HelixIpPolicy) (reason msg : Text) (k l : K)
      → (set_policy_condition kube gateway cr false reason msg k).0 ≡ fine
      → P
  failed_never_fine cr reason msg k l h =
      let q =
        set-fine cr false reason msg k (set_policy_condition kube gateway cr false reason msg k).1
          (ap (λ v. (v, (set_policy_condition kube gateway cr false reason msg k).1)) h) in
      absurd (let c = q.0 in cc)

  -- What is sent is found, under the identifier that comes back.
  send-found :
      (cr : HelixIpPolicy) (s : S) (x : IpPolicy) (t : S)
      → Good s
      → Fits (desired_policy cr)
      → (is_empty cr.status.policy_id ≡ false → Names cr.status.policy_id)
      → send_policy kube gateway cr s ≡ (done x, t)
      → (find x.id t ≡ some x) × Same (desired_policy cr) x
  send-found cr s x t good fits names e = elim (Bool-cases (is_empty cr.status.policy_id)) [
    | inl new ↦ contract.created (desired_policy cr) x s t fits good (rw new at e)
    | inr old ↦
        (let u =
            contract.updated cr.status.policy_id (desired_policy cr) x s t (names old) fits good
              (rw old at e) in
          (u.0, u.1))
  ]

  finish-Synced :
      (cr : HelixIpPolicy) (sent : IpPolicy) (p : Outcome IpPolicy × S) (k l : K) (t : S)
      → ((x : IpPolicy) (u : S) → p ≡ (done x, u) → (find x.id u ≡ some x) × Same sent x)
      → finish_policy kube gateway cr k p ≡ (fine, l, t)
      → IsSynced sent l t
  unfolding finish_policy
  finish-Synced cr sent (failed e, u) k l t ok h =
      failed_never_fine cr (text "SyncFailed") (gateway.message e) k l (ap (λ v. v.0) h)
  finish-Synced cr sent (done x, u) k l t ok h =
      let m : Text = text "policy " ++ x.id ++ text " synced" in
      let (_, w) =
        set-fine (with_policy_id cr x.id) true (text "Synced") m k l (ap (λ v. (v.0, v.1)) h) in
      let (at, same) = ok x u refl in
      record {
        cr = policy_ready kube (with_policy_id cr x.id) true (text "Synced") m;
        before = k;
        stored = x;
        written = w;
        named = rw (← (ap (λ v. v.2) h)) at;
        same = same;
      }

  upsert-Synced :
      (cr : HelixIpPolicy) (k l : K) (s t : S)
      → Good s
      → Fits (desired_policy cr)
      → (is_empty cr.status.policy_id ≡ false → Names cr.status.policy_id)
      → upsert_policy kube gateway cr k s ≡ (fine, l, t)
      → IsSynced (desired_policy cr) l t
  unfolding upsert_policy
  upsert-Synced cr k l s t good fits names h =
      finish-Synced cr (desired_policy cr) (send_policy kube gateway cr s) k l t
        (λ x u q. send-found cr s x u good fits names q) h

  read-Synced :
      (cr : HelixIpPolicy) (k l : K) (s t : S)
      → Good s
      → cr.meta.deleting ≡ false
      → Fits (desired_policy cr)
      → (is_empty cr.status.policy_id ≡ false → Names cr.status.policy_id)
      → reconcile_read_policy kube gateway cr k s ≡ (fine, l, t)
      → IsSynced (desired_policy cr) l t
  unfolding reconcile_read_policy
  read-Synced cr k l s t good live fits names h =
      elim (Bool-cases (has_finalizer policy_finalizer cr.meta)) [
        | inl has ↦
            upsert-Synced cr k l s t good fits names (sym (if_false _ _ live ∙ if_true _ _ has) ∙ h)
        | inr lacks ↦
            (let cr' : HelixIpPolicy = record cr {
              meta = add_finalizer policy_finalizer cr.meta;
            } in
              let (_, q) =
                then-fine s t (kube.update_policy cr' k) l (λ m. upsert_policy kube gateway cr' m s)
                  (sym (if_false _ _ live ∙ if_false _ _ lacks) ∙ h) in
              (unfold desired_policy in upsert-Synced cr' _ l s t good fits names q))
      ]

  -- A reconciliation of a resource that is not being deleted, if it ends without an error, has
  -- synchronised it: the status that was written last
  -- names an IP policy that the gateway stores, and this policy is the one that the resource asks for.
  -- The gateway keeps its contract, and what is sent can be sent.
  reconcile_policy-Synced :
      (namespace name : Text) (cr : HelixIpPolicy) (k l : K) (s t : S)
      → Good s
      → kube.get_policy namespace name k ≡ found cr
      → cr.meta.deleting ≡ false
      → Fits (desired_policy cr)
      → (is_empty cr.status.policy_id ≡ false → Names cr.status.policy_id)
      → reconcile_policy kube gateway namespace name k s ≡ (fine, l, t)
      → IsSynced (desired_policy cr) l t
  unfolding reconcile_policy
  reconcile_policy-Synced namespace name cr k l s t good e live fits names h =
      read-Synced cr k l s t good live fits names (rw (e, reconcile_policy) at h)

  -- A reconciliation of a resource that is being deleted, has the finalizer and has an identifier
  -- ends in one of two ways. If the gateway refuses the deletion, its error is the verdict and nothing
  -- is written to the cluster: the finalizer stays. Otherwise the record of that identifier is gone
  -- from the gateway, whether or not the write to the cluster that takes the finalizer off then
  -- succeeds, and the verdict is the end of that write. The gateway keeps its contract.
  pub reconcile_policy-Removed :
      (namespace name : Text) (cr : HelixIpPolicy) (k l : K) (s t : S) (v : Verdict)
      → kube.get_policy namespace name k ≡ found cr
      → cr.meta.deleting ≡ true
      → has_finalizer policy_finalizer cr.meta ≡ true
      → is_empty cr.status.policy_id ≡ false
      → Names cr.status.policy_id
      → reconcile_policy kube gateway namespace name k s ≡ (v, l, t)
      → ((e : ClientError) × (gateway.delete_policy cr.status.policy_id s ≡ (failed e, t))
          × (v ≡ failing (gateway.message e))
          × (l ≡ k))
        ⊎ ((find cr.status.policy_id t ≡ none)
            × WriteEnds
                (kube.update_policy
                  (record cr { meta = remove_finalizer policy_finalizer cr.meta })
                  k)
                v
                l)
  unfolding reconcile_policy reconcile_read_policy remove_policy release_policy
  reconcile_policy-Removed namespace name cr k l s t v e dying has old names h =
      let h' =
        rw (e, dying, has, old, reconcile_policy, reconcile_read_policy, remove_policy) at h in
      elim (Outcome-cases (gateway.delete_policy cr.status.policy_id s)) [
        | inr (why, q) ↦
            (let r = rw q at h' in
              inl (
                why,
                q ∙ ap (λ x. (failed why, x.2)) r,
                sym (ap (λ x. x.0) r),
                sym (ap (λ x. x.1) r),
              ))
        | inl (x, q) ↦
            (let (same, w) =
                write-ends (gateway.delete_policy cr.status.policy_id s).1 t
                  (kube.update_policy
                    (record cr { meta = remove_finalizer policy_finalizer cr.meta }) k)
                  v l (rw q at h') in
              inr (
                contract.deleted cr.status.policy_id s t names (q ∙ ap (λ u. (done x, u)) same),
                w,
              ))
      ]
