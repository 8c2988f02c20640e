-- ===== src/Operator/Routes/Asked.antt =====
-- What a GatewayRoute asks for.
use helix_gateway.Base.{
  Text, text, text_eq, text_eq_iff, is_empty, Bool-cases, inl, inr, ◌⊎◌, true, false, [], refl, sym,
  ◌≡◌,
}
use helix_gateway.Store.Model.{Route, PathMode, prefix, exact, regex, other}
use helix_gateway.Operator.{
  GatewayRoute, GatewayUpstream, Kube, Found, found, missing, unavailable, add_finalizer,
}
use helix_gateway.Operator.Routes.{path_mode_of, desired_route, resolve_upstream_id}

-- The text of a mode.
abbrev pub mode_name : PathMode → Text
mode_name prefix = text "prefix"
mode_name exact = text "exact"
mode_name regex = text "regex"
mode_name (other s) = s

-- The route is the one that the resource asks for: an empty mode is prefix, and any other one is the
-- mode of that name.
pub record Asks (cr : GatewayRoute) (upstream_id : Text) (r : Route) : Type 0 where
  pub name : r.name ≡ cr.meta.name
  pub active : r.active ≡ cr.spec.active
  pub hosts : r.match.hosts ≡ cr.spec.match.hosts
  pub path : r.match.path ≡ cr.spec.match.path
  pub default_mode : is_empty cr.spec.match.path_mode ≡ true → r.match.path_mode ≡ prefix
  pub named_mode :
      is_empty cr.spec.match.path_mode ≡ false
      → mode_name r.match.path_mode ≡ cr.spec.match.path_mode
  pub methods : r.match.methods ≡ cr.spec.match.methods
  pub headers : r.match.headers ≡ cr.spec.match.headers
  pub upstream : r.upstream_id ≡ upstream_id
  pub plugins : r.plugins ≡ cr.spec.plugins
  pub strip_path : r.strip_path ≡ cr.spec.strip_path
  pub no_split : r.weighted_upstreams ≡ []

mode-name : (s : Text) → mode_name (path_mode_of s) ≡ s
mode-name s = elim (Bool-cases (text_eq s (text "prefix"))) [
  | inl p ↦ rw p (sym ((text_eq_iff s (text "prefix")).0 p))
  | inr p' ↦ elim (Bool-cases (text_eq s (text "exact"))) [
    | inl e ↦ rw (p', e) (sym ((text_eq_iff s (text "exact")).0 e))
    | inr e' ↦ elim (Bool-cases (text_eq s (text "regex"))) [
      | inl r ↦ rw (p', e', r) (sym ((text_eq_iff s (text "regex")).0 r))
      | inr r' ↦ rw (p', e', r') refl
    ]
  ]
]

pub desired-Asks : (cr : GatewayRoute) (uid : Text) → Asks cr uid (desired_route cr uid)
unfolding desired_route
desired-Asks cr uid = record {
  name = refl;
  active = refl;
  hosts = refl;
  path = refl;
  default_mode = λ e. rw e refl;
  named_mode = λ e. rw e (mode-name cr.spec.match.path_mode);
  methods = refl;
  headers = refl;
  upstream = refl;
  plugins = refl;
  strip_path = refl;
  no_split = refl;
}

-- The upstream of the resource's namespace that the route refers to has the identifier, which is not
-- empty.
pub record Refers {K : Type 0} (kube : Kube K) (cr : GatewayRoute) (upstream_id : Text) (k : K)
    : Type 0 where
  pub upstream : GatewayUpstream
  pub read : kube.get_upstream cr.meta.namespace cr.spec.upstream_ref k ≡ found upstream
  pub given : upstream.status.upstream_id ≡ upstream_id
  pub full : is_empty upstream_id ≡ false

Found-cases :
    {A : Type 0} (o : Found A)
    → ((a : A) × (o ≡ found a))
      ⊎ (((e : Text) × (o ≡ missing e)) ⊎ ((e : Text) × (o ≡ unavailable e)))
Found-cases (found a) = inl (a, refl)
Found-cases (missing e) = inr (inl (e, refl))
Found-cases (unavailable e) = inr (inr (e, refl))

pub resolve-Refers :
    {K : Type 0} (kube : Kube K) (cr : GatewayRoute) (uid : Text) (k : K)
    → resolve_upstream_id kube cr k ≡ inl uid
    → Refers kube cr uid k
unfolding resolve_upstream_id
resolve-Refers kube cr uid k h =
    elim (Found-cases (kube.get_upstream cr.meta.namespace cr.spec.upstream_ref k)) [
      | inl (u, e) ↦
          (let h' = rw (e, resolve_upstream_id) at h in
            elim (Bool-cases (is_empty u.status.upstream_id)) [
              | inl none_ ↦ (let q = rw none_ at h' in absurd cc)
              | inr some_ ↦
                  (let q = rw some_ at h' in
                    let same : u.status.upstream_id ≡ uid = cc in
                    record { upstream = u; read = e; given = same; full = rw (← same) some_ })
            ])
      | inr (inl (m, e)) ↦ (let q = rw (e, resolve_upstream_id) at h in absurd cc)
      | inr (inr (m, e)) ↦ (let q = rw (e, resolve_upstream_id) at h in absurd cc)
    ]

-- A finalizer more does not matter.
pub Asks-finalizer :
    (f : Text) (cr : GatewayRoute) (uid : Text) (r : Route)
    → Asks (record cr { meta = add_finalizer f cr.meta }) uid r
    → Asks cr uid r
Asks-finalizer f cr uid r a = record {
  name = a.name;
  active = a.active;
  hosts = a.hosts;
  path = a.path;
  default_mode = a.default_mode;
  named_mode = a.named_mode;
  methods = a.methods;
  headers = a.headers;
  upstream = a.upstream;
  plugins = a.plugins;
  strip_path = a.strip_path;
  no_split = a.no_split;
}

pub Refers-finalizer :
    {K : Type 0} (kube : Kube K) (f : Text) (cr : GatewayRoute) (uid : Text) (k : K)
    → Refers kube (record cr { meta = add_finalizer f cr.meta }) uid k
    → Refers kube cr uid k
Refers-finalizer kube f cr uid k a = record {
  upstream = a.upstream;
  read = a.read;
  given = a.given;
  full = a.full;
}
