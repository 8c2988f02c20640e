-- ===== src/Admin/Trail.antt =====
-- What the handlers leave as it is, and what they write to the audit log.
use helix_gateway.Base.{
  is_empty, Option-cases, Bool-cases, Text, text, true, leb, Option, inl, inr, not, ◌⊎◌, none, some,
  refl, ◌≡◌, if◌then◌else◌,
}
use helix_gateway.Store.State.{
  Store, Failure, Result, ok, err, not_found, conflict, in_use, hash_required, upstream_not_found,
  marshal_failed, write_failed, rename_failed, read_failed, parse_failed,
}
use helix_gateway.Store.Keys.Ends.{create_api_key-ends, delete_api_key-ends, toggle_api_key-ends}
use helix_gateway.Store.Keys.{get_api_key}
use helix_gateway.Audit.{Entry, record_entry}
use helix_gateway.Admin.{
  Env, Handlers, Answer, AdminRequest, KeyRequest, store_err, with_store, write_json, nothing,
  created_key, key,
}
use helix_gateway.Admin.Mux.{Endpoint}
use helix_gateway.Admin.Server.{serve}
use helix_gateway.Admin.Effects.{store_err-status, failure_status}
use helix_gateway.Admin.Keys

-- The endpoints that change a key, each with the entry that it is to leave in the log.
abbrev pub audit_entry : Env → AdminRequest → Endpoint → Option Entry
audit_entry env r Endpoint.create_key = some (Keys.key_entry (text "create_api_key") env.io.uuid r)
audit_entry env r (Endpoint.delete_key id) = some (Keys.key_entry (text "delete_api_key") id r)
audit_entry env r (Endpoint.toggle_key id) = some (Keys.key_entry (text "toggle_api_key") id r)
audit_entry env r _ = none

-- The maps of routes, upstreams and IP policies are the same.
pub record SameMaps (s t : Store) : Type 0 where
  pub routes : t.routes ≡ s.routes
  pub upstreams : t.upstreams ≡ s.upstreams
  pub policies : t.policies ≡ s.policies

same_maps :
    (s t : Store)
    → t.routes ≡ s.routes
    → t.upstreams ≡ s.upstreams
    → t.policies ≡ s.policies
    → SameMaps s t
same_maps s t a b c = record { routes = a; upstreams = b; policies = c }

Result-cases : {A : Type 0} (o : Result A) → ((a : A) × (o ≡ ok a)) ⊎ ((f : Failure) × (o ≡ err f))
Result-cases (ok a) = inl (a, refl)
Result-cases (err f) = inr (f, refl)

failure_refused : (f : Failure) → leb 400 (failure_status f) ≡ true
failure_refused not_found = refl
failure_refused conflict = refl
failure_refused in_use = refl
failure_refused hash_required = refl
failure_refused (upstream_not_found id) = refl
failure_refused marshal_failed = refl
failure_refused write_failed = refl
failure_refused rename_failed = refl
failure_refused read_failed = refl
failure_refused parse_failed = refl

-- A failure of the store is answered with an error status.
pub store_err_refused : (env : Env) (f : Failure) → leb 400 (store_err env f).status ≡ true
store_err_refused env f = rw (store_err-status env f) (failure_refused f)

-- The maps are kept; the entry is added unless the answer is an error.
abbrev pub Traces : Env → Handlers → Entry → Answer × Handlers → Type 0
Traces env h e p =
    SameMaps h.store p.1.store
    × (p.1.audit_log
        ≡ (if leb 400 p.0.status then h.audit_log else record_entry env.io.now e h.audit_log))

module _ (env : Env) (h : Handlers) (r : AdminRequest) where
  refused-Traces :
      (e : Entry) (s : Store) (f : Failure)
      → SameMaps h.store s
      → Traces env h e (store_err env f, with_store h s)
  refused-Traces e s f m = (m, rw (store_err_refused env f) refl)

  delete_key-Traces :
      (id : Text)
      → Traces env h (Keys.key_entry (text "delete_api_key") id r) (Keys.delete_key env h id r)
  unfolding Keys.delete_key
  delete_key-Traces id =
      delete_api_key-ends
        (λ p. Traces env h (Keys.key_entry (text "delete_api_key") id r) (elim p.0 [
          | err f ↦ (store_err env f, with_store h p.1)
          | ok t ↦
              Keys.audited env (Keys.key_entry (text "delete_api_key") id r)
                (write_json 204 nothing, with_store h p.1)
        ]))
        env.io h.store id (λ f. refused-Traces _ _ f (same_maps _ _ refl refl refl))
        (λ d p q. (same_maps _ _ refl refl refl, refl))
        (λ d f p q. refused-Traces _ _ f (same_maps _ _ refl refl refl))

  toggle_key-Traces :
      (id : Text)
      → Traces env h (Keys.key_entry (text "toggle_api_key") id r) (Keys.toggle_key env h id r)
  unfolding Keys.toggle_key
  toggle_key-Traces id = elim (Result-cases (get_api_key h.store id)) [
    | inr (f, e) ↦ rw (e, Keys.toggle_key) (refused-Traces _ _ f (same_maps _ _ refl refl refl))
    | inl (k, e) ↦
        rw (e, Keys.toggle_key)
          (toggle_api_key-ends
            (λ p. Traces env h (Keys.key_entry (text "toggle_api_key") id r) (elim p.0 [
              | err f ↦ (store_err env f, with_store h p.1)
              | ok t ↦
                  Keys.audited env (Keys.key_entry (text "toggle_api_key") id r)
                    (write_json 200 (key t), with_store h p.1)
            ]))
            env.io h.store id (not k.active)
            (λ f. refused-Traces _ _ f (same_maps _ _ refl refl refl))
            (λ d p q. (same_maps _ _ refl refl refl, refl))
            (λ d f p q. refused-Traces _ _ f (same_maps _ _ refl refl refl)))
  ]

  create_requested_key-Traces :
      (req : KeyRequest)
      → Traces env h
          (Keys.key_entry (text "create_api_key") env.io.uuid r)
          (Keys.create_requested_key env h r req)
  unfolding Keys.create_requested_key
  create_requested_key-Traces req = elim (Bool-cases (is_empty req.name)) [
    | inl bare ↦ rw bare (same_maps _ _ refl refl refl, refl)
    | inr named ↦ elim (Option-cases (Keys.generate_api_key env)) [
      | inl e ↦ rw (named, e) (same_maps _ _ refl refl refl, refl)
      | inr (g, e) ↦
          rw (named, e)
            (create_api_key-ends
              (λ p. Traces env h (Keys.key_entry (text "create_api_key") env.io.uuid r) (elim p.0 [
                | err f ↦ (store_err env f, with_store h p.1)
                | ok k ↦
                    Keys.audited env (Keys.key_entry (text "create_api_key") k.id r)
                      (write_json 201 (created_key k g.0), with_store h p.1)
              ]))
              env.io h.store (Keys.requested_key req g.1)
              (λ f. refused-Traces _ _ f (same_maps _ _ refl refl refl))
              (λ d free hashed w. (same_maps _ _ refl refl refl, refl))
              (λ d f m. refused-Traces _ _ f (same_maps _ _ refl refl refl)))
    ]
  ]

  create_key-Traces :
      Traces env h (Keys.key_entry (text "create_api_key") env.io.uuid r) (Keys.create_key env h r)
  unfolding Keys.create_key
  create_key-Traces = elim (Option-cases (env.json.key r.body)) [
    | inl e ↦ rw (e, Keys.create_key) (same_maps _ _ refl refl refl, refl)
    | inr (req, e) ↦ rw (e, Keys.create_key) (create_requested_key-Traces req)
  ]

  -- A request about API keys that is answered without an error adds one entry to the audit log,
  -- which names the action, the key and the user of the request; one that is answered with an error
  -- adds none. In both cases the maps of routes, upstreams and IP policies are the same.
  pub serve-Traces :
      (ep : Endpoint) (e : Entry)
      → audit_entry env r ep ≡ some e
      → Traces env h e (serve env h r ep)
  unfolding serve
  serve-Traces Endpoint.health e q = cc
  serve-Traces Endpoint.info e q = cc
  serve-Traces Endpoint.plugins e q = cc
  serve-Traces Endpoint.config_export e q = cc
  serve-Traces Endpoint.metrics e q = cc
  serve-Traces Endpoint.list_routes e q = cc
  serve-Traces Endpoint.list_upstreams e q = cc
  serve-Traces Endpoint.list_policies e q = cc
  serve-Traces Endpoint.list_keys e q = cc
  serve-Traces Endpoint.audit_log e q = cc
  serve-Traces Endpoint.create_route e q = cc
  serve-Traces Endpoint.create_upstream e q = cc
  serve-Traces Endpoint.create_policy e q = cc
  serve-Traces (Endpoint.get_route id) e q = cc
  serve-Traces (Endpoint.get_upstream id) e q = cc
  serve-Traces (Endpoint.health_upstream id) e q = cc
  serve-Traces (Endpoint.get_policy id) e q = cc
  serve-Traces (Endpoint.get_key id) e q = cc
  serve-Traces (Endpoint.update_route id) e q = cc
  serve-Traces (Endpoint.update_upstream id) e q = cc
  serve-Traces (Endpoint.update_policy id) e q = cc
  serve-Traces (Endpoint.delete_route id) e q = cc
  serve-Traces (Endpoint.delete_upstream id) e q = cc
  serve-Traces (Endpoint.delete_policy id) e q = cc
  serve-Traces (Endpoint.toggle_route id) e q = cc
  serve-Traces (Endpoint.toggle_policy id) e q = cc
  serve-Traces Endpoint.create_key e q =
      let same : Keys.key_entry (text "create_api_key") env.io.uuid r ≡ e = cc in
      rw (← same) create_key-Traces
  serve-Traces (Endpoint.delete_key id) e q =
      let same : Keys.key_entry (text "delete_api_key") id r ≡ e = cc in
      rw (← same) (delete_key-Traces id)
  serve-Traces (Endpoint.toggle_key id) e q =
      let same : Keys.key_entry (text "toggle_api_key") id r ≡ e = cc in
      rw (← same) (toggle_key-Traces id)
