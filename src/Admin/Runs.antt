-- ===== src/Admin/Runs.antt =====
-- Runs of the admin server: any sequence of requests.
use helix_gateway.Base.{Bool-cases, Option-cases, inl, inr, some, refl, ◌≡◌, lookup, has}
use helix_gateway.Store.State.{Store, IsFresh}
use helix_gateway.Store.Calls.{Call, exec}
use helix_gateway.Store.Routes.{dangling}
use helix_gateway.Store.Integrity.{IsLinked, exec-IsLinked}
use helix_gateway.Store.Names.{HasUniqueNames, exec-HasUniqueNames}
use helix_gateway.Store.Keying.{IsKeyed, exec-IsKeyed}
use helix_gateway.Admin.{Env, Handlers, AdminRequest}
use helix_gateway.Admin.Mux.{Endpoint, Choice, chosen, wrong_method, unknown, resolve}
use helix_gateway.Admin.Server.{Login, serve, serve_mux, admitted, handle}
use helix_gateway.Admin.Effects.{change_of, serve-Performs}
use helix_gateway.Admin.Trail.{audit_entry, serve-Traces, SameMaps}
use helix_gateway.Admin.Reading.{serve-unchanged}

-- The store is in order: routes are linked, names are unique and every record has its key as id.
pub record IsSound (s : Store) : Type 0 where
  pub linked : IsLinked s
  pub names : HasUniqueNames s
  pub keyed : IsKeyed s

-- The states that requests reach, in any order and with any outcome of each write. A request that
-- draws an identifier draws one that is new.
pub data Run (login : Login) (start : Handlers) : Handlers → Type 0 where
  idle : Run login start start
  request :
      {h : Handlers} (env : Env) (r : AdminRequest)
      → IsFresh env.io h.store
      → Run login start h
      → Run login start (handle login env h r).1

exec-IsSound :
    (env : Env) (s : Store) (c : Call) → IsFresh env.io s → IsSound s → IsSound (exec env.io s c).1
exec-IsSound env s c f h = record {
  linked = exec-IsLinked env.io s c f h.linked;
  names = exec-HasUniqueNames env.io s c h.names;
  keyed = exec-IsKeyed env.io s c h.keyed;
}

-- The order depends on the three maps alone.
SameMaps-IsSound : (s t : Store) → SameMaps s t → IsSound s → IsSound t
unfolding dangling has
SameMaps-IsSound s t m h = record {
  linked = record {
    at_key = λ k r e.
        let e' : lookup k s.routes ≡ some r = rw (← m.routes) e in
        rw m.upstreams (h.linked.at_key k r e');
  };
  names = record {
    routes = rw m.routes h.names.routes;
    upstreams = rw m.upstreams h.names.upstreams;
    policies = rw m.policies h.names.policies;
  };
  keyed = record {
    routes = rw m.routes h.keyed.routes;
    upstreams = rw m.upstreams h.keyed.upstreams;
    policies = rw m.policies h.keyed.policies;
  };
}

module _ (login : Login) (env : Env) (h : Handlers) (r : AdminRequest) (f : IsFresh env.io h.store)
    (i : IsSound h.store) where
  serve-IsSound : (ep : Endpoint) → IsSound (serve env h r ep).1.store
  serve-IsSound ep = elim (Option-cases (change_of env r ep)) [
    | inr (c, e) ↦ rw ((serve-Performs env h r c ep e).0) (exec-IsSound env h.store c f i)
    | inl e ↦ elim (Option-cases (audit_entry env r ep)) [
      | inr (x, q) ↦ SameMaps-IsSound h.store _ (serve-Traces env h r ep x q).0 i
      | inl q ↦ rw (serve-unchanged env h r ep e q) i
    ]
  ]

  choice-IsSound : (c : Choice) → resolve r.method r.path ≡ c → IsSound (serve_mux env h r).1.store
  unfolding serve_mux
  choice-IsSound (chosen ep) e = rw (e, serve_mux) (serve-IsSound ep)
  choice-IsSound wrong_method e = rw (e, serve_mux) i
  choice-IsSound unknown e = rw (e, serve_mux) i

  handle-IsSound : IsSound (handle login env h r).1.store
  unfolding handle
  handle-IsSound = elim (Bool-cases (admitted login r)) [
    | inl a ↦ rw (a, handle) (choice-IsSound (resolve r.method r.path) refl)
    | inr a ↦ rw (a, handle) i
  ]

-- Through every run of requests to the admin API the store stays in order: the upstream that a
-- route names is stored, no two routes, upstreams or IP policies share a name, and each record
-- stands under its own identifier. Drawn identifiers are assumed new.
pub Run-IsSound :
    (login : Login) (start h : Handlers) → Run login start h → IsSound start.store → IsSound h.store
Run-IsSound login start h idle i = i
Run-IsSound login start _ (request {h} env r f run) i =
    handle-IsSound login env h r f (Run-IsSound login start h run i)
