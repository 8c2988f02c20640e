-- ===== src/Operator/Routes/Sync.antt =====
-- What a reconciliation of a GatewayRoute that ends without an error has done.
use helix_gateway.Base.{
  if_true, if_false, Text, text, is_empty, Bool, Bool-cases, inl, inr, ◌⊎◌, true, false, Option,
  some, none, refl, sym, ◌∙◌, ◌≡◌, ◌++◌, ap,
}
use helix_gateway.Store.Model.{Route}
use helix_gateway.Admin.Client.{Outcome, done, failed}
use helix_gateway.Operator.{
  GatewayRoute, Kube, Gateway, fine, found, has_finalizer, add_finalizer, remove_finalizer,
}
use helix_gateway.Operator.Contract.{Contract}
use helix_gateway.Operator.Ends.{condition-fine, write-fine, then-fine, failing-fine}
use helix_gateway.Operator.Routes.{
  route_finalizer, desired_route, with_route_id, route_ready, set_route_condition, finish_route,
  send_route, upsert_route, release_route, remove_route, reconcile_read_route, reconcile_route,
  resolve_upstream_id,
}
use helix_gateway.Operator.Routes.Asked.{
  Asks, desired-Asks, Asks-finalizer, Refers, resolve-Refers, Refers-finalizer,
}

-- A text is an error or an identifier, and an outcome a value or an error.
Outcome-cases :
    {A S : Type 0} (p : Outcome A × S)
    → ((a : A) × (p ≡ (done a, p.1))) ⊎ ((e : _) × (p ≡ (failed e, p.1)))
Outcome-cases (done a, s) = inl (a, refl)
Outcome-cases (failed e, s) = inr (e, refl)

Either-cases : {A B : Type 0} (o : A ⊎ B) → ((a : A) × (o ≡ inl a)) ⊎ ((b : B) × (o ≡ inr b))
Either-cases (inl a) = inl (a, refl)
Either-cases (inr b) = inr (b, refl)

module _ {K S : Type 0} (kube : Kube K) (gateway : Gateway S) (find : Text → S → Option Route)
    (Same : Route → Route → Type 0) (Fits : Route → Type 0) (Names : Text → Type 0)
    (Good : S → Type 0)
    (contract : Contract gateway.create_route gateway.update_route gateway.delete_route find
      (λ x. x.id)
      Same
      Fits
      Names
      Good) where
  -- The record of the gateway and the status of the resource agree: the status that was written last
  -- is of the resource, and names a record that is stored, and the record is the one that was sent.
  pub record IsSynced (owner : GatewayRoute) (sent : Route) (l : K) (t : S) : Type 0 where
    pub cr : GatewayRoute
    pub before : K
    pub stored : Route
    pub of_namespace : cr.meta.namespace ≡ owner.meta.namespace
    pub of_name : cr.meta.name ≡ owner.meta.name
    pub of_spec : cr.spec ≡ owner.spec
    pub written : kube.status_route cr before ≡ (none, l)
    pub named : find cr.status.route_id t ≡ some stored
    pub same : Same sent stored

  -- The finalizer of the owner does not matter.
  owned_before :
      (owner : GatewayRoute) (sent : Route) (l : K) (t : S)
      → IsSynced (record owner { meta = add_finalizer route_finalizer owner.meta }) sent l t
      → IsSynced owner sent l t
  owned_before owner sent l t i = record {
    cr = i.cr;
    before = i.before;
    stored = i.stored;
    of_namespace = i.of_namespace;
    of_name = i.of_name;
    of_spec = i.of_spec;
    written = i.written;
    named = i.named;
    same = i.same;
  }

  set-fine :
      (cr : GatewayRoute) (holds : Bool) (reason msg : Text) (k l : K)
      → set_route_condition kube gateway cr holds reason msg k ≡ (fine, l)
      → (holds ≡ true) × (kube.status_route (route_ready kube cr holds reason msg) k ≡ (none, l))
  unfolding set_route_condition
  set-fine cr holds reason msg k l h =
      condition-fine holds msg (kube.status_route (route_ready kube cr holds reason msg) k) l h

  failed_never_fine :
      {P : Type 0} (cr : GatewayRoute) (reason msg : Text) (k l : K)
      → (set_route_condition kube gateway cr false reason msg k).0 ≡ fine
      → P
  failed_never_fine cr reason msg k l h =
      let q =
        set-fine cr false reason msg k (set_route_condition kube gateway cr false reason msg k).1
          (ap (λ v. (v, (set_route_condition kube gateway cr false reason msg k).1)) h) in
      absurd (let c = q.0 in cc)

  -- What is sent is found, under the identifier that comes back.
  send-found :
      (cr : GatewayRoute) (uid : Text) (s : S) (x : Route) (t : S)
      → Good s
      → Fits (desired_route cr uid)
      → (is_empty cr.status.route_id ≡ false → Names cr.status.route_id)
      → send_route kube gateway cr uid s ≡ (done x, t)
      → (find x.id t ≡ some x) × Same (desired_route cr uid) x
  send-found cr uid s x t good fits names e = elim (Bool-cases (is_empty cr.status.route_id)) [
    | inl new ↦ contract.created (desired_route cr uid) x s t fits good (rw new at e)
    | inr old ↦
        (let u =
            contract.updated cr.status.route_id (desired_route cr uid) x s t (names old) fits good
              (rw old at e) in
          (u.0, u.1))
  ]

  finish-Synced :
      (cr : GatewayRoute) (sent : Route) (p : Outcome Route × S) (k l : K) (t : S)
      → ((x : Route) (u : S) → p ≡ (done x, u) → (find x.id u ≡ some x) × Same sent x)
      → finish_route kube gateway cr k p ≡ (fine, l, t)
      → IsSynced cr sent l t
  unfolding finish_route
  finish-Synced cr sent (failed e, u) k l t ok h =
      failed_never_fine cr (text "SyncFailed") (gateway.message e) k l (ap (λ v. v.0) h)
  finish-Synced cr sent (done x, u) k l t ok h =
      let m : Text = text "route " ++ x.id ++ text " synced" in
      let (_, w) =
        set-fine (with_route_id cr x.id) true (text "Synced") m k l (ap (λ v. (v.0, v.1)) h) in
      let (at, same) = ok x u refl in
      record {
        cr = route_ready kube (with_route_id cr x.id) true (text "Synced") m;
        before = k;
        stored = x;
        of_namespace = refl;
        of_name = refl;
        of_spec = refl;
        written = w;
        named = rw (← (ap (λ v. v.2) h)) at;
        same = same;
      }

  -- What a reconciliation leaves: the upstream that the route refers to was found with an identifier,
  -- and the route that was sent is the one that the resource asks for, with that upstream.
  pub record IsSyncedRoute (cr : GatewayRoute) (l : K) (t : S) : Type 0 where
    pub upstream_id : Text
    pub at : K
    pub referred : Refers kube cr upstream_id at
    pub sent : Route
    pub asked : Asks cr upstream_id sent
    pub synced : IsSynced cr sent l t

  upsert-Synced :
      (cr : GatewayRoute) (k l : K) (s t : S)
      → Good s
      → ((uid : Text) (m : K)
          → resolve_upstream_id kube cr m ≡ inl uid
          → Fits (desired_route cr uid))
      → (is_empty cr.status.route_id ≡ false → Names cr.status.route_id)
      → upsert_route kube gateway cr k s ≡ (fine, l, t)
      → IsSyncedRoute cr l t
  unfolding upsert_route
  upsert-Synced cr k l s t good fits names h = elim (Either-cases (resolve_upstream_id kube cr k)) [
    | inr (msg, e) ↦
        failed_never_fine cr (text "UpstreamNotReady") msg k l
          (ap (λ v. v.0) (rw (e, upsert_route) at h))
    | inl (uid, e) ↦ record {
      upstream_id = uid;
      at = k;
      referred = resolve-Refers kube cr uid k e;
      sent = desired_route cr uid;
      asked = desired-Asks cr uid;
      synced =
          finish-Synced cr (desired_route cr uid) (send_route kube gateway cr uid s) k l t
            (λ x u q. send-found cr uid s x u good (fits uid k e) names q)
            (rw (e, upsert_route) at h);
    }
  ]

  read-Synced :
      (cr : GatewayRoute) (k l : K) (s t : S)
      → Good s
      → cr.meta.deleting ≡ false
      → ((uid : Text) (m : K)
          → resolve_upstream_id kube cr m ≡ inl uid
          → Fits (desired_route cr uid))
      → (is_empty cr.status.route_id ≡ false → Names cr.status.route_id)
      → reconcile_read_route kube gateway cr k s ≡ (fine, l, t)
      → IsSyncedRoute cr l t
  unfolding reconcile_read_route
  read-Synced cr k l s t good live fits names h =
      elim (Bool-cases (has_finalizer route_finalizer cr.meta)) [
        | inl has ↦
            upsert-Synced cr k l s t good fits names (sym (if_false _ _ live ∙ if_true _ _ has) ∙ h)
        | inr lacks ↦
            (let cr' : GatewayRoute = record cr { meta = add_finalizer route_finalizer cr.meta } in
              let (_, q) =
                then-fine s t (kube.update_route cr' k) l (λ m. upsert_route kube gateway cr' m s)
                  (sym (if_false _ _ live ∙ if_false _ _ lacks) ∙ h) in
              (let u =
                  upsert-Synced cr' _ l s t good
                    (λ uid m e.
                      unfold desired_route in fits uid m (unfold resolve_upstream_id in e))
                    names q in
                record {
                  upstream_id = u.upstream_id;
                  at = u.at;
                  referred = Refers-finalizer kube route_finalizer cr u.upstream_id u.at u.referred;
                  sent = u.sent;
                  asked = Asks-finalizer route_finalizer cr u.upstream_id u.sent u.asked;
                  synced = owned_before cr u.sent l t u.synced;
                }))
      ]

  -- A reconciliation of a resource that is not being deleted, if it ends without an error, has
  -- synchronised it: the upstream that it refers to was found with an identifier, the route that was
  -- sent is, field by field, the one that the resource asks for, with that upstream, and the status
  -- that was written last is of the resource and names a route that the gateway stores, which is the
  -- one that was sent, as `Same` has it. The gateway keeps its contract, and what is sent can be sent.
  pub reconcile_route-Synced :
      (namespace name : Text) (cr : GatewayRoute) (k l : K) (s t : S)
      → Good s
      → kube.get_route namespace name k ≡ found cr
      → cr.meta.deleting ≡ false
      → ((uid : Text) (m : K)
          → resolve_upstream_id kube cr m ≡ inl uid
          → Fits (desired_route cr uid))
      → (is_empty cr.status.route_id ≡ false → Names cr.status.route_id)
      → reconcile_route kube gateway namespace name k s ≡ (fine, l, t)
      → IsSyncedRoute cr l t
  unfolding reconcile_route
  reconcile_route-Synced namespace name cr k l s t good e live fits names h =
      read-Synced cr k l s t good live fits names (rw (e, reconcile_route) at h)

  -- A reconciliation of a resource that is being deleted, has the finalizer and has an identifier, if
  -- it ends without an error, has deleted the record of that identifier from the gateway, and its one
  -- write to the cluster takes the finalizer off. The gateway keeps its contract.
  reconcile_route-Removed :
      (namespace name : Text) (cr : GatewayRoute) (k l : K) (s t : S)
      → kube.get_route namespace name k ≡ found cr
      → cr.meta.deleting ≡ true
      → has_finalizer route_finalizer cr.meta ≡ true
      → is_empty cr.status.route_id ≡ false
      → Names cr.status.route_id
      → reconcile_route kube gateway namespace name k s ≡ (fine, l, t)
      → (find cr.status.route_id t ≡ none)
        × (kube.update_route (record cr { meta = remove_finalizer route_finalizer cr.meta }) k
            ≡ (none, l))
  unfolding reconcile_route reconcile_read_route remove_route release_route
  reconcile_route-Removed namespace name cr k l s t e dying has old names h =
      let h' = rw (e, dying, has, old, reconcile_route, reconcile_read_route, remove_route) at h in
      elim (Outcome-cases (gateway.delete_route cr.status.route_id s)) [
        | inr (why, q) ↦ failing-fine (gateway.message why) (ap (λ v. v.0) (rw q at h'))
        | inl (x, q) ↦
            (let (same, w) =
                write-fine (gateway.delete_route cr.status.route_id s).1 t
                  (kube.update_route (record cr { meta = remove_finalizer route_finalizer cr.meta })
                    k)
                  l (rw q at h') in
              (contract.deleted cr.status.route_id s t names (q ∙ ap (λ u. (done x, u)) same), w))
      ]
