-- ===== src/Admin/Remote.antt =====
-- The admin client and the admin server together.
use helix_gateway.Base.{
  ℕ, Text, text, trim_prefix, trim_prefix-append, Bool, true, ◌++◌, [], Option, none, some, refl,
  ◌≡◌, ◌∙◌, ap,
}
use helix_gateway.Store.Model.{Route, Upstream, IpPolicy}
use helix_gateway.Store.State.{
  Store, Failure, Result, ok, err, not_found, conflict, in_use, hash_required, upstream_not_found,
  marshal_failed, write_failed, rename_failed, read_failed, parse_failed, is_not_found,
}
use helix_gateway.Admin.{
  Env, Handlers, Answer, AdminRequest, Payload, problem, route, upstream, policy, error_text,
  store_err, with_store, reply,
}
use helix_gateway.Admin.Mux.{Endpoint, chosen, resolve}
use helix_gateway.Admin.Mux.Segments.{is_plain_path}
use helix_gateway.Admin.Server.{Login, serve, serve_mux, admitted, handle}
use helix_gateway.Admin.Client.{
  Client, WireRequest, Web, Outcome, done, failed, no_response, admin_api, login_of, read_response,
  exchange,
}

-- The request that arrives at the server.
abbrev pub arrives : Client → WireRequest → AdminRequest
arrives c q = record {
  method = q.method;
  path = trim_prefix q.url c.base;
  limit = [];
  credentials = q.credentials;
  remote_addr = [];
  body = q.body;
}

abbrev pub answered : {B : Type 0} → (Payload → B) → Answer × Handlers → Option (ℕ × B) × Handlers
answered render (a, h) = (some (a.status, render a.payload), h)

-- The client's requests reach the server, which admits them, and the client's decoders read what
-- the server encodes. A path is known to arrive as it was sent only if a URL escapes nothing in it.
pub record IsServed {B : Type 0} (w : Web B Handlers) (c : Client) (login : Login) (env : Env)
    (render : Payload → B) : Type 0 where
  pub sent :
      (q : WireRequest) (path : Text) (h : Handlers)
      → q.url ≡ c.base ++ path
      → is_plain_path path ≡ true
      → w.send q h ≡ answered render (handle login env h (arrives c q))
  pub valid : (path : Text) → is_plain_path path ≡ true → w.valid_url (c.base ++ path) ≡ true
  pub granted : (r : AdminRequest) → r.credentials ≡ login_of c → admitted login r ≡ true
  pub error : (kind msg : Text) → w.read_error (render (problem kind msg)) ≡ (kind, msg)
  pub route : (x : Route) → w.read_route (render (route x)) ≡ some x
  pub upstream : (x : Upstream) → w.read_upstream (render (upstream x)) ≡ some x
  pub policy : (x : IpPolicy) → w.read_policy (render (policy x)) ≡ some x

-- The code and the message of an error of the store.
abbrev pub error_code : Failure → Text
error_code not_found = text "NOT_FOUND"
error_code (upstream_not_found id) = text "NOT_FOUND"
error_code conflict = text "CONFLICT"
error_code in_use = text "IN_USE"
error_code _ = text "INTERNAL_ERROR"

abbrev pub error_message : Env → Failure → Text
error_message env not_found = text "not found"
error_message env (upstream_not_found id) = text "upstream " ++ env.quote id ++ text ": not found"
error_message env conflict = text "name already exists"
error_message env in_use = text "resource in use"
error_message env _ = text "internal error"

-- What a caller of the client sees where the store gives a result.
abbrev pub seen :
    {A : Type 0} → Env → Handlers → Text → Text → Result A × Store → Outcome A × Handlers
seen env h method path (ok a, s) = (done a, with_store h s)
seen env h method path (err f, s) =
    (failed (admin_api method path (error_code f) (error_message env f)), with_store h s)

-- A caller sees a value only where the store gave it.
pub seen-done :
    {A : Type 0} (env : Env) (h : Handlers) (method path : Text) (p : Result A × Store) (a : A)
    (t : Handlers)
    → seen env h method path p ≡ (done a, t)
    → (p.0 ≡ ok a) × (with_store h p.1 ≡ t)
seen-done env h method path (ok b, s) a t e =
    ((let q : done b ≡ done a = ap (λ x. x.0) e in cc), ap (λ x. x.1) e)
seen-done env h method path (err f, s) a t e =
    (let q : failed (admin_api method path (error_code f) (error_message env f)) ≡ done a =
        ap (λ x. x.0) e in
      absurd cc)

handle-chosen :
    (login : Login) (env : Env) (h : Handlers) (r : AdminRequest) (ep : Endpoint)
    → admitted login r ≡ true
    → resolve r.method r.path ≡ chosen ep
    → handle login env h r ≡ serve env h r ep
unfolding handle serve_mux
handle-chosen login env h r ep a e = rw (a, e, handle, serve_mux) refl

module _ {B : Type 0} (w : Web B Handlers) (c : Client) (login : Login) (env : Env)
    (render : Payload → B) (net : IsServed w c login env render) (h : Handlers)
    (method path : Text) where
  -- A request of the client, on the server's side of the network.
  abbrev pub request : Text → Bool → WireRequest
  request body is_json = record {
    method = method;
    url = c.base ++ path;
    body = body;
    is_json = is_json;
    credentials = login_of c;
  }

  read-store_err :
      {A : Type 0} (out : A) (decode : B → Option A) (f : Failure)
      → read_response w method path out decode
          ((store_err env f).status, render (store_err env f).payload)
        ≡ failed (admin_api method path (error_code f) (error_message env f))
  unfolding read_response store_err is_not_found error_text
  read-store_err out decode not_found = rw (net.error _ _) refl
  read-store_err out decode conflict = rw (net.error _ _) refl
  read-store_err out decode in_use = rw (net.error _ _) refl
  read-store_err out decode hash_required = rw (net.error _ _) refl
  read-store_err out decode (upstream_not_found id) = rw (net.error _ _) refl
  read-store_err out decode marshal_failed = rw (net.error _ _) refl
  read-store_err out decode write_failed = rw (net.error _ _) refl
  read-store_err out decode rename_failed = rw (net.error _ _) refl
  read-store_err out decode read_failed = rw (net.error _ _) refl
  read-store_err out decode parse_failed = rw (net.error _ _) refl

  -- What the client reads of an answer.
  abbrev pub read_answer :
      {A : Type 0} → A → (B → Option A) → Answer × Handlers → Outcome A × Handlers
  read_answer out decode (a, t) =
      (read_response w method path out decode (a.status, render a.payload), t)

  read-reply :
      {A : Type 0} (out : A) (decode : B → Option A) (answer : A → Answer) (p : Result A × Store)
      → ((a : A)
          → read_response w method path out decode ((answer a).status, render (answer a).payload)
            ≡ done a)
      → read_answer out decode (reply env h answer p) ≡ seen env h method path p
  read-reply out decode answer (ok a, s) reads = ap (λ o. (o, with_store h s)) (reads a)
  read-reply out decode answer (err f, s) reads =
      ap (λ o. (o, with_store h s)) (read-store_err out decode f)

  -- An exchange is the answer of the endpoint that the path names, as the client reads it.
  pub exchange-served :
      {A : Type 0} (out : A) (decode : B → Option A) (body : Text) (is_json : Bool) (ep : Endpoint)
      → resolve method path ≡ chosen ep
      → is_plain_path path ≡ true
      → exchange w c method path body is_json out decode h
        ≡ read_answer out decode (serve env h (arrives c (request body is_json)) ep)
  unfolding exchange
  exchange-served out decode body is_json ep e plain =
      let q : WireRequest = request body is_json in
      let at : resolve method (arrives c q).path ≡ chosen ep =
        rw (trim_prefix-append c.base path) e in
      let answer : handle login env h (arrives c q) ≡ serve env h (arrives c q) ep =
        handle-chosen login env h (arrives c q) ep (net.granted (arrives c q) refl) at in
      rw (net.valid path plain, exchange)
        (ap
          (λ x. elim x.0 [
            | none ↦ (failed no_response, x.1)
            | some y ↦ (read_response w method path out decode y, x.1)
          ])
          (net.sent q path h refl plain ∙ ap (answered render) answer))

  -- An exchange about an endpoint whose handler ends with `reply`.
  pub exchange-seen :
      {A : Type 0} (out : A) (decode : B → Option A) (body : Text) (is_json : Bool) (ep : Endpoint)
      (answer : A → Answer) (p : Result A × Store)
      → resolve method path ≡ chosen ep
      → is_plain_path path ≡ true
      → ((r : AdminRequest) → r.body ≡ body → serve env h r ep ≡ reply env h answer p)
      → ((a : A)
          → read_response w method path out decode ((answer a).status, render (answer a).payload)
            ≡ done a)
      → exchange w c method path body is_json out decode h ≡ seen env h method path p
  exchange-seen out decode body is_json ep answer p e plain served reads =
      exchange-served out decode body is_json ep e plain
      ∙ ap (read_answer out decode) (served (arrives c (request body is_json)) refl)
      ∙ read-reply out decode answer p reads
