-- ===== src/Examples/Reconciling.antt =====
-- The reconcilers on a cluster that takes every write and counts them.
use mathlib.Core.Path.{subst}
use helix_gateway.Base.{
  ℕ, suc, Text, text, text_eq, text_eq_refl, trim_prefix, has_prefix, drop_length, Bool, true,
  false, [], ◌∷◌, Option, none, some, lookup, ◌≡◌, ◌⊎◌, refl, ap, if◌then◌else◌,
}
use helix_gateway.Store.Model.{Route}
use helix_gateway.Store.Keying.{IsKeyed}
use helix_gateway.Admin.{Env, Handlers, limited}
use helix_gateway.Admin.Client.{
  do_request, exchange, read_response, Client, Web, ClientError, Outcome, done, failed,
}
use helix_gateway.Admin.Client
use helix_gateway.Admin.Mux.Segments.{IsSegment, is_plain}
use helix_gateway.Operator.{
  Kube, Gateway, Verdict, fine, failing, ObjectMeta, GatewayRoute, GatewayUpstream, HelixIpPolicy,
  found, admin_gateway, remove_finalizer,
}
use helix_gateway.Operator.Ends.{WriteEnds}
use helix_gateway.Operator.Contract.{Contract}
use helix_gateway.Operator.Routes.{
  reconcile_route, reconcile_read_route, upsert_route, finish_route, set_route_condition,
  desired_route, resolve_upstream_id,
}
use helix_gateway.Operator.Routes.Sync.{IsSyncedRoute, reconcile_route-Synced}
use helix_gateway.Operator.Routes.Backend as RouteBackend
use helix_gateway.Operator.Upstreams.{reconcile_upstream, desired_upstream}
use helix_gateway.Operator.Upstreams.Lost.{Fails, lost_upstream_never_synced}
use helix_gateway.Operator.Policies.{
  policy_finalizer, reconcile_policy, reconcile_read_policy, remove_policy, release_policy,
}
use helix_gateway.Operator.Policies.Sync.{reconcile_policy-Removed}
use helix_gateway.Operator.Policies.Backend as PolicyBackend
use helix_gateway.Store.Policies.{delete_ip_policy}
use helix_gateway.Store.State.{commit, persist, export, write_config}
use helix_gateway.Admin.Policies as PolicyHandlers
use helix_gateway.Admin.Server.{serve, serve_mux, handle, admitted}
use helix_gateway.Admin.Mux.{resolve, choose, match_path, segments}
use helix_gateway.Examples.Configs.{shop}
use helix_gateway.Examples.Admin.{env, desk, login}
use helix_gateway.Examples.Remote.{web, client, web-IsServed, policy_none}

abbrev meta : Text → Text → Bool → ObjectMeta
meta name finalizer deleting = record {
  namespace = text "default";
  name = name;
  generation = 1;
  deleting = deleting;
  finalizers = finalizer ∷ [];
}

-- The resource of the route `r`, and the one of an upstream that is in the gateway but whose status
-- has lost the identifier.
abbrev route_cr : GatewayRoute
route_cr = record {
  meta = meta (text "api") (text "helix.io/route") false;
  spec = record {
    active = true;
    match = record { hosts = []; path = text "/v2"; path_mode = []; methods = []; headers = [] };
    upstream_ref = text "pool";
    plugins = [];
    strip_path = false;
  };
  status = record { route_id = text "r"; conditions = [] };
}

abbrev upstream_cr : Text → GatewayUpstream
upstream_cr id = record {
  meta = meta (text "pool") (text "helix.io/upstream") false;
  spec = record { url = text "http://a"; health_path = [] };
  status = record { upstream_id = id; health = []; conditions = [] };
}

abbrev policy_cr : HelixIpPolicy
policy_cr = record {
  meta = meta (text "lan") (text "helix.io/policy") true;
  spec = record { mode = text "allow"; cidrs = []; active = true };
  status = record { policy_id = text "p"; conditions = [] };
}

abbrev kube : Text → Kube ℕ
kube id = record {
  get_route = λ ns n k. found route_cr;
  get_upstream = λ ns n k. found (upstream_cr id);
  get_policy = λ ns n k. found policy_cr;
  update_route = λ cr k. (none, suc k);
  update_upstream = λ cr k. (none, suc k);
  update_policy = λ cr k. (none, suc k);
  status_route = λ cr k. (none, suc k);
  status_upstream = λ cr k. (none, suc k);
  status_policy = λ cr k. (none, suc k);
  set_condition = λ c cs. c ∷ [];
  quote = λ s. s;
}

store_keeps_contract_example :
    Contract
      (Client.create_route (web env) client)
      (Client.update_route (web env) client)
      (Client.delete_route (web env) client)
      RouteBackend.find
      (λ x. x.id)
      RouteBackend.Same
      (RouteBackend.Fits (web env) env)
      IsSegment
      (λ h. IsKeyed h.store)
store_keeps_contract_example =
    RouteBackend.store_keeps_contract (web env) client login env (λ p. p) (web-IsServed env)

-- The server decodes what the resource asks for.
abbrev echo : Env
echo = record env {
  json = record env.json { upstream = λ b. some (desired_upstream (upstream_cr [])) };
}

-- The second upstream of that name is never stored.
lost_upstream_never_synced_example : Fails desk (
    reconcile_upstream
      (kube [])
      (admin_gateway (web echo) client (λ e. []))
      (text "default")
      (text "pool")
      0
      desk)
unfolding text_eq limited desired_upstream
lost_upstream_never_synced_example =
    lost_upstream_never_synced (web echo) client login echo (λ p. p) (web-IsServed echo) (λ e. [])
      (kube []) desk (text "default") (text "pool") (upstream_cr []) 0 refl refl refl refl
      (text "{}", refl, refl) refl

-- A gateway that keeps only the last route and the last identifier that it was sent.
abbrev tiny : Gateway (Option Route)
tiny = record {
  create_route = λ x s. (done x, some x);
  update_route = λ id x s. (done (record x { id = id }), some (record x { id = id }));
  delete_route = λ id s. (done tt, none);
  create_upstream = λ x s. (done x, s);
  update_upstream = λ id x s. (done x, s);
  delete_upstream = λ id s. (done tt, s);
  create_policy = λ x s. (done x, s);
  update_policy = λ id x s. (done x, s);
  delete_policy = λ id s. (done tt, none);
  message = λ e. [];
}

abbrev find_last : Text → Option Route → Option Route
find_last id none = none
find_last id (some x) = if text_eq x.id id then some x else none

find_last_self : (x : Route) → find_last x.id (some x) ≡ some x
find_last_self x = rw (text_eq_refl x.id) refl

tiny-Contract :
    Contract tiny.create_route tiny.update_route tiny.delete_route find_last
      (λ x. x.id)
      RouteBackend.Same
      (λ x. Unit {0})
      (λ id. Unit {0})
      (λ s. Unit {0})
tiny-Contract = record {
  created = λ x y s t fits good e.
      let at : some x ≡ t = ap (λ p. p.1) e in
      let same : x ≡ y = (let q : done x ≡ done y = ap (λ p. p.0) e in cc) in
      subst (λ v. (find_last v.id t ≡ some v) × RouteBackend.Same x v) same
        (subst (λ u. find_last x.id u ≡ some x) at (find_last_self x), refl);
  updated = λ id x y s t names fits good e.
      let at : some (record x { id = id }) ≡ t = ap (λ p. p.1) e in
      let same : record x { id = id } ≡ y =
        (let q : done (record x { id = id }) ≡ done y = ap (λ p. p.0) e in cc) in
      subst (λ v. (find_last v.id t ≡ some v) × RouteBackend.Same x v × (v.id ≡ id)) same
        (
          subst (λ u. find_last id u ≡ some (record x { id = id })) at
              (find_last_self (record x { id = id })),
          refl,
          refl,
        );
  deleted = λ id s t names e.
      let at : none ≡ t = ap (λ p. p.1) e in subst (λ u. find_last id u ≡ none) at refl;
}

reconcile_route-Synced_example :
    IsSyncedRoute
      (kube (text "u"))
      tiny
      find_last
      RouteBackend.Same
      (λ x. Unit {0})
      (λ id. Unit {0})
      (λ s. Unit {0})
      tiny-Contract
      route_cr
      1
      (some (desired_route route_cr (text "u")))
unfolding reconcile_route reconcile_read_route upsert_route finish_route set_route_condition
    resolve_upstream_id desired_route text_eq
reconcile_route-Synced_example =
    reconcile_route-Synced (kube (text "u")) tiny find_last RouteBackend.Same (λ x. Unit {0})
      (λ id. Unit {0}) (λ s. Unit {0}) tiny-Contract (text "default") (text "api") route_cr 0 1 none
      (some (desired_route route_cr (text "u"))) tt refl refl (λ uid m e. tt) (λ e. tt) refl

-- The gateway with the IP policy that the resource stands for.
abbrev guarded : Handlers
guarded = record desk {
  store = record shop {
    policies = (text "p", record policy_none { id = text "p"; name = text "lan" }) ∷ [];
  };
}

abbrev removed : Verdict × ℕ × Handlers
removed =
    reconcile_policy (kube []) (admin_gateway (web env) client (λ e. [])) (text "default")
      (text "lan") 0 guarded

removed_end : removed ≡ (fine, 1, removed.2)
unfolding reconcile_policy reconcile_read_policy remove_policy release_policy Client.delete_policy
    do_request exchange read_response handle admitted serve_mux resolve choose match_path segments
    text_eq serve PolicyHandlers.delete_policy delete_ip_policy lookup commit persist export
    write_config trim_prefix has_prefix drop_length
removed_end = refl

reconcile_policy-Removed_example :
    ((e : ClientError) × ((admin_gateway (web env) client (λ e. [])).delete_policy
          (text "p")
          guarded
        ≡ (failed e, removed.2))
      × (fine ≡ failing [])
      × (suc 0 ≡ 0))
    ⊎ ((PolicyBackend.find (text "p") removed.2 ≡ none)
        × WriteEnds
            ((kube []).update_policy
              (record policy_cr { meta = remove_finalizer policy_finalizer policy_cr.meta })
              0)
            fine
            1)
unfolding text_eq is_plain
reconcile_policy-Removed_example =
    reconcile_policy-Removed (kube []) (admin_gateway (web env) client (λ e. [])) PolicyBackend.find
      PolicyBackend.Same (PolicyBackend.Fits (web env) env) IsSegment (λ h. IsKeyed h.store)
      (PolicyBackend.store_keeps_contract (web env) client login env (λ p. p) (web-IsServed env))
      (text "default") (text "lan") policy_cr 0 1 guarded removed.2 fine refl refl refl refl
      (refl, refl) removed_end
