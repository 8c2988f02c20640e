-- ===== src/Admin/Parity.antt =====
-- The admin client and server together, as one client of the store.
pub mod Routes
pub mod Upstreams
pub mod Policies
pub mod Mismatch
use helix_gateway.Base.{Text, text, false, ◌++◌, some, none, ◌≡◌, ap, ◌∙◌, refl}
use helix_gateway.Store.Model.{Route, Upstream, IpPolicy}
use helix_gateway.Store.State.{Store, Result, ok, err}
use helix_gateway.Store.Calls.{
  Call, creates_route, updates_route, deletes_route, toggles_route, creates_upstream,
  updates_upstream, deletes_upstream, creates_policy, updates_policy, deletes_policy,
  toggles_policy, exec, status, is_toggle,
}
use helix_gateway.Admin.{
  Env, Handlers, Answer, AdminRequest, Payload, limited, decoded, err_bad_request, problem,
}
use helix_gateway.Admin.Mux.{Endpoint, chosen, resolve, choose, match_path, segments}
use helix_gateway.Admin.Mux.Segments.{IsSegment}
use helix_gateway.Admin.Mux.Routes.{resolve-toggle_route}
use helix_gateway.Admin.Mux.Policies.{resolve-toggle_policy}
use helix_gateway.Admin.Server.{Login, serve}
use helix_gateway.Admin.Client
use helix_gateway.Admin.Client.{
  Web, Outcome, done, failed, admin_api, decode_response, read_response, do_request,
}
use helix_gateway.Admin.Remote.{IsServed, seen, exchange-served}
use helix_gateway.Admin.Parity.Routes.{create_route-seen, update_route-seen, delete_route-seen}
use helix_gateway.Admin.Parity.Upstreams.{
  create_upstream-seen, update_upstream-seen, delete_upstream-seen,
}
use helix_gateway.Admin.Parity.Policies.{create_policy-seen, update_policy-seen, delete_policy-seen}

-- An outcome without its value.
abbrev pub forget : {A : Type 0} → Outcome A × Handlers → Outcome (Unit {0}) × Handlers
forget (done a, h) = (done tt, h)
forget (failed e, h) = (failed e, h)

-- The verb and the path of a call.
abbrev pub verb_of : Call → Text
verb_of (creates_route x) = text "POST"
verb_of (updates_route id x) = text "PUT"
verb_of (deletes_route id) = text "DELETE"
verb_of (toggles_route id active) = text "PATCH"
verb_of (creates_upstream x) = text "POST"
verb_of (updates_upstream id x) = text "PUT"
verb_of (deletes_upstream id) = text "DELETE"
verb_of (creates_policy x) = text "POST"
verb_of (updates_policy id x) = text "PUT"
verb_of (deletes_policy id) = text "DELETE"
verb_of (toggles_policy id active) = text "PATCH"

abbrev pub path_of : Call → Text
path_of (creates_route x) = text "/admin/v1/routes"
path_of (updates_route id x) = text "/admin/v1/routes/" ++ id
path_of (deletes_route id) = text "/admin/v1/routes/" ++ id
path_of (toggles_route id active) = text "/admin/v1/routes/" ++ id ++ text "/toggle"
path_of (creates_upstream x) = text "/admin/v1/upstreams"
path_of (updates_upstream id x) = text "/admin/v1/upstreams/" ++ id
path_of (deletes_upstream id) = text "/admin/v1/upstreams/" ++ id
path_of (creates_policy x) = text "/admin/v1/policies"
path_of (updates_policy id x) = text "/admin/v1/policies/" ++ id
path_of (deletes_policy id) = text "/admin/v1/policies/" ++ id
path_of (toggles_policy id active) = text "/admin/v1/policies/" ++ id ++ text "/toggle"

seen-forget :
    {A : Type 0} (env : Env) (h : Handlers) (method path : Text) (p : Result A × Store)
    → forget (seen env h method path p) ≡ seen env h method path (status p)
seen-forget env h method path (ok a, s) = refl
seen-forget env h method path (err f, s) = refl

seen-status :
    (env : Env) (h : Handlers) (method path : Text) (p : Result (Unit {0}) × Store)
    → seen env h method path p ≡ seen env h method path (status p)
seen-status env h method path (ok tt, s) = refl
seen-status env h method path (err f, s) = refl

module _ {B : Type 0} (w : Web B Handlers) (c : Client.Client) where
  -- The method of the client for a call of the store.
  abbrev pub remote : Call → Handlers → Outcome (Unit {0}) × Handlers
  remote (creates_route x) h = forget (Client.create_route w c x h)
  remote (updates_route id x) h = forget (Client.update_route w c id x h)
  remote (deletes_route id) h = Client.delete_route w c id h
  remote (toggles_route id active) h = forget (Client.toggle_route w c id h)
  remote (creates_upstream x) h = forget (Client.create_upstream w c x h)
  remote (updates_upstream id x) h = forget (Client.update_upstream w c id x h)
  remote (deletes_upstream id) h = Client.delete_upstream w c id h
  remote (creates_policy x) h = forget (Client.create_policy w c x h)
  remote (updates_policy id x) h = forget (Client.update_policy w c id x h)
  remote (deletes_policy id) h = Client.delete_policy w c id h
  remote (toggles_policy id active) h = forget (Client.toggle_policy w c id h)

  -- The server decodes what the client encodes, and the identifier is one segment of a path.
  abbrev pub Understood : Env → Call → Type 0
  Understood env (creates_route x) =
      (b : Text) × (w.write_route x ≡ some b) × (env.json.route (limited b) ≡ some x)
  Understood env (updates_route id x) =
      IsSegment id
      × ((b : Text) × (w.write_route x ≡ some b) × (env.json.route (limited b) ≡ some x))
  Understood env (deletes_route id) = IsSegment id
  Understood env (toggles_route id active) = IsSegment id
  Understood env (creates_upstream x) =
      (b : Text) × (w.write_upstream x ≡ some b) × (env.json.upstream (limited b) ≡ some x)
  Understood env (updates_upstream id x) =
      IsSegment id
      × ((b : Text) × (w.write_upstream x ≡ some b) × (env.json.upstream (limited b) ≡ some x))
  Understood env (deletes_upstream id) = IsSegment id
  Understood env (creates_policy x) =
      (b : Text) × (w.write_policy x ≡ some b) × (env.json.policy (limited b) ≡ some x)
  Understood env (updates_policy id x) =
      IsSegment id
      × ((b : Text) × (w.write_policy x ≡ some b) × (env.json.policy (limited b) ≡ some x))
  Understood env (deletes_policy id) = IsSegment id
  Understood env (toggles_policy id active) = IsSegment id

-- Parity with the store: for each creation, update and deletion of a route, an upstream or an IP
-- policy, the method of the client that is served over the network ends with the error, or the
-- success, that the store's own method gives on the server's store, and leaves that store. The
-- server is to admit the client, the two are to agree on the encoding, and an identifier is to be
-- one segment of a path, of characters that a URL does not escape. A toggle is no such call.
pub remote-exec :
    {B : Type 0} (w : Web B Handlers) (c : Client.Client) (login : Login) (env : Env)
    (render : Payload → B) (net : IsServed w c login env render) (h : Handlers) (x : Call)
    → is_toggle x ≡ false
    → Understood w c env x
    → remote w c x h ≡ seen env h (verb_of x) (path_of x) (exec env.io h.store x)
unfolding exec is_toggle
remote-exec w c login env render net h (creates_route x) plain (b, e, d) =
    ap forget (create_route-seen w c login env render net h x b e d) ∙ seen-forget env h _ _ _
remote-exec w c login env render net h (updates_route id x) plain (i, (b, e, d)) =
    ap forget (update_route-seen w c login env render net h id x b i e d) ∙ seen-forget env h _ _ _
remote-exec w c login env render net h (deletes_route id) plain i =
    delete_route-seen w c login env render net h id i ∙ seen-status env h _ _ _
remote-exec w c login env render net h (toggles_route id active) never i = cc
remote-exec w c login env render net h (creates_upstream x) plain (b, e, d) =
    ap forget (create_upstream-seen w c login env render net h x b e d) ∙ seen-forget env h _ _ _
remote-exec w c login env render net h (updates_upstream id x) plain (i, (b, e, d)) =
    ap forget (update_upstream-seen w c login env render net h id x b i e d)
    ∙ seen-forget env h _ _ _
remote-exec w c login env render net h (deletes_upstream id) plain i =
    delete_upstream-seen w c login env render net h id i ∙ seen-status env h _ _ _
remote-exec w c login env render net h (creates_policy x) plain (b, e, d) =
    ap forget (create_policy-seen w c login env render net h x b e d) ∙ seen-forget env h _ _ _
remote-exec w c login env render net h (updates_policy id x) plain (i, (b, e, d)) =
    ap forget (update_policy-seen w c login env render net h id x b i e d) ∙ seen-forget env h _ _ _
remote-exec w c login env render net h (deletes_policy id) plain i =
    delete_policy-seen w c login env render net h id i ∙ seen-status env h _ _ _
remote-exec w c login env render net h (toggles_policy id active) never i = cc
