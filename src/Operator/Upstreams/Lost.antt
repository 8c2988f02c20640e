-- ===== src/Operator/Upstreams/Lost.antt =====
-- A GatewayUpstream whose identifier was lost between the creation and the write of its status.
use mathlib.Core.Path.{subst}
use helix_gateway.Base.{
  Option, Text, text, is_empty, true, false, some, none, refl, sym, ap, ◌∙◌, ◌≡◌, ◌≢◌, if_true,
  if_false,
}
use helix_gateway.Store.Upstreams.{create_upstream, upstream_name_taken}
use helix_gateway.Store.State.{err, conflict}
use helix_gateway.Admin.{Env, Handlers, Payload}
use helix_gateway.Admin.Server.{Login}
use helix_gateway.Admin.Client
use helix_gateway.Admin.Client.{Web, ClientError, Outcome, failed}
use helix_gateway.Admin.Remote.{IsServed, seen}
use helix_gateway.Admin.Parity.Upstreams.{create_upstream-seen}
use helix_gateway.Operator.{
  GatewayUpstream, Kube, Verdict, fine, found, admin_gateway, has_finalizer,
}
use helix_gateway.Operator.Ends.{failing-fine, condition_end}
use helix_gateway.Operator.Upstreams.{
  upstream_finalizer, desired_upstream, upstream_ready, set_upstream_condition, finish_upstream,
  upsert_upstream, reconcile_read_upstream, reconcile_upstream,
}
use helix_gateway.Operator.Upstreams.Backend.{Fits}

-- The reconciliation failed, and the gateway is in the state h.
abbrev pub Fails : {K S : Type 0} → S → Verdict × K × S → Type 0
Fails h p = (p.0 ≢ fine) × (p.2 ≡ h)

condition-Fails :
    {K S : Type 0} (s : S) (msg : Text) (p : Option Text × K)
    → Fails s (let (v, l) = condition_end false msg p in (v, l, s))
condition-Fails s msg (some why, l) = ((λ q. failing-fine why q), refl)
condition-Fails s msg (none, l) = ((λ q. failing-fine msg q), refl)

module _ {B K : Type 0} (w : Web B Handlers) (c : Client.Client) (login : Login) (env : Env)
    (render : Payload → B) (net : IsServed w c login env render) (message : ClientError → Text)
    (kube : Kube K) (h : Handlers) where
  finish-Fails :
      (cr : GatewayUpstream) (k : K) (e : ClientError)
      → Fails h (finish_upstream kube (admin_gateway w c message) cr k (failed e, h))
  unfolding finish_upstream set_upstream_condition
  finish-Fails cr k e =
      condition-Fails h (message e)
        (kube.status_upstream (upstream_ready kube cr false (text "SyncFailed") (message e)) k)

  refused :
      (cr : GatewayUpstream)
      → upstream_name_taken cr.meta.name h.store.upstreams ≡ true
      → create_upstream env.io h.store (desired_upstream cr) ≡ (err conflict, h.store)
  unfolding create_upstream desired_upstream
  refused cr taken = if_true _ _ taken

  upsert-Fails :
      (cr : GatewayUpstream) (k : K)
      → upstream_name_taken cr.meta.name h.store.upstreams ≡ true
      → Fits w env (desired_upstream cr)
      → is_empty cr.status.upstream_id ≡ true
      → Fails h (upsert_upstream kube (admin_gateway w c message) cr k h)
  unfolding upsert_upstream
  upsert-Fails cr k taken (b, e, d) new =
      let answer =
        if_true (Client.create_upstream w c (desired_upstream cr) h)
          (Client.update_upstream w c cr.status.upstream_id (desired_upstream cr) h) new
        ∙ create_upstream-seen w c login env render net h (desired_upstream cr) b e d
        ∙ ap (seen env h (text "POST") (text "/admin/v1/upstreams")) (refused cr taken) in
      subst (λ p. Fails h (finish_upstream kube (admin_gateway w c message) cr k p)) (sym answer)
        (finish-Fails cr k _)

  -- While an upstream of the resource's name is stored and the status has no identifier, as after a
  -- creation whose status could not be written, every reconciliation of the resource ends with an
  -- error and leaves the gateway as it is: the record is not adopted. The server admits the client,
  -- and what is sent fits.
  pub lost_upstream_never_synced :
      (namespace name : Text) (cr : GatewayUpstream) (k : K)
      → kube.get_upstream namespace name k ≡ found cr
      → cr.meta.deleting ≡ false
      → has_finalizer upstream_finalizer cr.meta ≡ true
      → upstream_name_taken cr.meta.name h.store.upstreams ≡ true
      → Fits w env (desired_upstream cr)
      → is_empty cr.status.upstream_id ≡ true
      → Fails h (reconcile_upstream kube (admin_gateway w c message) namespace name k h)
  unfolding reconcile_upstream reconcile_read_upstream
  lost_upstream_never_synced namespace name cr k e live has taken fits new =
      rw (e, reconcile_upstream)
        (subst (Fails h) (sym (if_false _ _ live ∙ if_true _ _ has))
          (upsert-Fails cr k taken fits new))
