-- ===== src/Operator/Upstreams/Sync.antt =====
-- What a reconciliation of a GatewayUpstream that ends without an error has done.
use helix_gateway.Base.{
  if_true, if_false, Text, text, is_empty, Bool, Bool-cases, inl, inr, ◌⊎◌, true, false, Option,
  some, none, refl, sym, ◌∙◌, ◌≡◌, ◌++◌, ap,
}
use helix_gateway.Store.Model.{Upstream}
use helix_gateway.Admin.Client.{Outcome, done, failed}
use helix_gateway.Operator.{
  GatewayUpstream, Kube, Gateway, fine, found, has_finalizer, add_finalizer, remove_finalizer,
}
use helix_gateway.Operator.Contract.{Contract}
use helix_gateway.Operator.Ends.{condition-fine, write-fine, then-fine, failing-fine}
use helix_gateway.Operator.Upstreams.{
  upstream_finalizer, desired_upstream, with_upstream_id, upstream_ready, set_upstream_condition,
  finish_upstream, send_upstream, upsert_upstream, release_upstream, remove_upstream,
  reconcile_read_upstream, reconcile_upstream,
}

-- A text is an error or an identifier, and an outcome a value or an error.
Outcome-cases :
    {A S : Type 0} (p : Outcome A × S)
    → ((a : A) × (p ≡ (done a, p.1))) ⊎ ((e : _) × (p ≡ (failed e, p.1)))
Outcome-cases (done a, s) = inl (a, refl)
Outcome-cases (failed e, s) = inr (e, refl)

module _ {K S : Type 0} (kube : Kube K) (gateway : Gateway S) (find : Text → S → Option Upstream)
    (Same : Upstream → Upstream → Type 0) (Fits : Upstream → Type 0) (Names : Text → Type 0)
    (Good : S → Type 0)
    (contract : Contract gateway.create_upstream gateway.update_upstream gateway.delete_upstream
      find
      (λ x. x.id)
      Same
      Fits
      Names
      Good) where
  -- The record of the gateway and the status of the resource agree: the status that was written last
  -- names a record that is stored, and the record is the one that was sent.
  pub record IsSynced (sent : Upstream) (l : K) (t : S) : Type 0 where
    pub cr : GatewayUpstream
    pub before : K
    pub stored : Upstream
    pub written : kube.status_upstream cr before ≡ (none, l)
    pub named : find cr.status.upstream_id t ≡ some stored
    pub same : Same sent stored

  set-fine :
      (cr : GatewayUpstream) (holds : Bool) (reason msg : Text) (k l : K)
      → set_upstream_condition kube gateway cr holds reason msg k ≡ (fine, l)
      → (holds ≡ true)
        × (kube.status_upstream (upstream_ready kube cr holds reason msg) k ≡ (none, l))
  unfolding set_upstream_condition
  set-fine cr holds reason msg k l h =
      condition-fine holds msg (kube.status_upstream (upstream_ready kube cr holds reason msg) k) l
        h

  failed_never_fine :
      {P : Type 0} (cr : GatewayUpstream) (reason msg : Text) (k l : K)
      → (set_upstream_condition kube gateway cr false reason msg k).0 ≡ fine
      → P
  failed_never_fine cr reason msg k l h =
      let q =
        set-fine cr false reason msg k (set_upstream_condition kube gateway cr false reason msg k).1
          (ap (λ v. (v, (set_upstream_condition kube gateway cr false reason msg k).1)) h) in
      absurd (let c = q.0 in cc)

  -- What is sent is found, under the identifier that comes back.
  send-found :
      (cr : GatewayUpstream) (s : S) (x : Upstream) (t : S)
      → Good s
      → Fits (desired_upstream cr)
      → (is_empty cr.status.upstream_id ≡ false → Names cr.status.upstream_id)
      → send_upstream kube gateway cr s ≡ (done x, t)
      → (find x.id t ≡ some x) × Same (desired_upstream cr) x
  send-found cr s x t good fits names e = elim (Bool-cases (is_empty cr.status.upstream_id)) [
    | inl new ↦ contract.created (desired_upstream cr) x s t fits good (rw new at e)
    | inr old ↦
        (let u =
            contract.updated cr.status.upstream_id (desired_upstream cr) x s t (names old) fits good
              (rw old at e) in
          (u.0, u.1))
  ]

  finish-Synced :
      (cr : GatewayUpstream) (sent : Upstream) (p : Outcome Upstream × S) (k l : K) (t : S)
      → ((x : Upstream) (u : S) → p ≡ (done x, u) → (find x.id u ≡ some x) × Same sent x)
      → finish_upstream kube gateway cr k p ≡ (fine, l, t)
      → IsSynced sent l t
  unfolding finish_upstream
  finish-Synced cr sent (failed e, u) k l t ok h =
      failed_never_fine cr (text "SyncFailed") (gateway.message e) k l (ap (λ v. v.0) h)
  finish-Synced cr sent (done x, u) k l t ok h =
      let m : Text = text "upstream " ++ x.id ++ text " synced" in
      let (_, w) =
        set-fine (with_upstream_id cr x.id) true (text "Synced") m k l (ap (λ v. (v.0, v.1)) h) in
      let (at, same) = ok x u refl in
      record {
        cr = upstream_ready kube (with_upstream_id cr x.id) true (text "Synced") m;
        before = k;
        stored = x;
        written = w;
        named = rw (← (ap (λ v. v.2) h)) at;
        same = same;
      }

  upsert-Synced :
      (cr : GatewayUpstream) (k l : K) (s t : S)
      → Good s
      → Fits (desired_upstream cr)
      → (is_empty cr.status.upstream_id ≡ false → Names cr.status.upstream_id)
      → upsert_upstream kube gateway cr k s ≡ (fine, l, t)
      → IsSynced (desired_upstream cr) l t
  unfolding upsert_upstream
  upsert-Synced cr k l s t good fits names h =
      finish-Synced cr (desired_upstream cr) (send_upstream kube gateway cr s) k l t
        (λ x u q. send-found cr s x u good fits names q) h

  read-Synced :
      (cr : GatewayUpstream) (k l : K) (s t : S)
      → Good s
      → cr.meta.deleting ≡ false
      → Fits (desired_upstream cr)
      → (is_empty cr.status.upstream_id ≡ false → Names cr.status.upstream_id)
      → reconcile_read_upstream kube gateway cr k s ≡ (fine, l, t)
      → IsSynced (desired_upstream cr) l t
  unfolding reconcile_read_upstream
  read-Synced cr k l s t good live fits names h =
      elim (Bool-cases (has_finalizer upstream_finalizer cr.meta)) [
        | inl has ↦
            upsert-Synced cr k l s t good fits names (sym (if_false _ _ live ∙ if_true _ _ has) ∙ h)
        | inr lacks ↦
            (let cr' : GatewayUpstream = record cr {
              meta = add_finalizer upstream_finalizer cr.meta;
            } in
              let (_, q) =
                then-fine s t (kube.update_upstream cr' k) l
                  (λ m. upsert_upstream kube gateway cr' m s)
                  (sym (if_false _ _ live ∙ if_false _ _ lacks) ∙ h) in
              (unfold desired_upstream in upsert-Synced cr' _ l s t good fits names q))
      ]

  -- A reconciliation of a resource that is not being deleted, if it ends without an error, has
  -- synchronised it: the status that was written last
  -- names an upstream that the gateway stores, and this upstream is the one that the resource asks for.
  -- The gateway keeps its contract, and what is sent can be sent.
  reconcile_upstream-Synced :
      (namespace name : Text) (cr : GatewayUpstream) (k l : K) (s t : S)
      → Good s
      → kube.get_upstream namespace name k ≡ found cr
      → cr.meta.deleting ≡ false
      → Fits (desired_upstream cr)
      → (is_empty cr.status.upstream_id ≡ false → Names cr.status.upstream_id)
      → reconcile_upstream kube gateway namespace name k s ≡ (fine, l, t)
      → IsSynced (desired_upstream cr) l t
  unfolding reconcile_upstream
  reconcile_upstream-Synced namespace name cr k l s t good e live fits names h =
      read-Synced cr k l s t good live fits names (rw (e, reconcile_upstream) at h)

  -- A reconciliation of a resource that is being deleted, has the finalizer and has an identifier, if
  -- it ends without an error, has deleted the record of that identifier from the gateway, and its one
  -- write to the cluster, after that, takes the finalizer off. The gateway keeps its contract.
  reconcile_upstream-Removed :
      (namespace name : Text) (cr : GatewayUpstream) (k l : K) (s t : S)
      → kube.get_upstream namespace name k ≡ found cr
      → cr.meta.deleting ≡ true
      → has_finalizer upstream_finalizer cr.meta ≡ true
      → is_empty cr.status.upstream_id ≡ false
      → Names cr.status.upstream_id
      → reconcile_upstream kube gateway namespace name k s ≡ (fine, l, t)
      → (find cr.status.upstream_id t ≡ none)
        × (kube.update_upstream (record cr { meta = remove_finalizer upstream_finalizer cr.meta }) k
            ≡ (none, l))
  unfolding reconcile_upstream reconcile_read_upstream remove_upstream release_upstream
  reconcile_upstream-Removed namespace name cr k l s t e dying has old names h =
      let h' =
        rw (e, dying, has, old, reconcile_upstream, reconcile_read_upstream, remove_upstream) at
          h in
      elim (Outcome-cases (gateway.delete_upstream cr.status.upstream_id s)) [
        | inr (why, q) ↦ failing-fine (gateway.message why) (ap (λ v. v.0) (rw q at h'))
        | inl (x, q) ↦
            (let (same, w) =
                write-fine (gateway.delete_upstream cr.status.upstream_id s).1 t
                  (kube.update_upstream
                    (record cr { meta = remove_finalizer upstream_finalizer cr.meta }) k)
                  l (rw q at h') in
              (
                contract.deleted cr.status.upstream_id s t names (q ∙ ap (λ u. (done x, u)) same),
                w,
              ))
      ]
