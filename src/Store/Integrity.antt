-- ===== src/Store/Integrity.antt =====
-- Referential integrity: the upstream that a route names is in the store.
use helix_gateway.Base.{
  Text, text_eq, text_eq_iff, Bool, true, false, some, ◌≡◌, refl, arith, any-lookup, Table, lookup,
  insert, delete, has, lookup-insert, lookup-delete, Each, Each-Within, Each-insert,
  delete-insert-Within, delete-Within, insert-insert-SameTable, delete-insert-SameTable,
  insert-delete-SameTable, SameTable, SameTable-Within,
}
use helix_gateway.Store.Model.{Route, Upstream}
use helix_gateway.Store.State.{Store, Io, IsFresh, Result, notify}
use helix_gateway.Store.Routes.{dangling}
use helix_gateway.Store.Routes.Ends.{
  create_route-ends, update_route-ends, delete_route-ends, toggle_route-ends,
}
use helix_gateway.Store.Upstreams.Ends.{
  create_upstream-ends, update_upstream-ends, delete_upstream-ends,
}
use helix_gateway.Store.Policies.Ends.{
  create_ip_policy-ends, update_ip_policy-ends, delete_ip_policy-ends, toggle_ip_policy-ends,
}
use helix_gateway.Store.Calls.{
  Call, creates_route, updates_route, deletes_route, toggles_route, creates_upstream,
  updates_upstream, deletes_upstream, creates_policy, updates_policy, deletes_policy,
  toggles_policy, exec, status,
}

-- No route refers to an upstream that is not in the store.
abbrev pub IsLinked : Store → Type 0
IsLinked s = Each (λ r. dangling s r.upstream_id ≡ false) s.routes

abbrev After : {A : Type 0} → Result A × Store → Type 0
After p = IsLinked (status p).1

-- A reference is no worse off where every upstream is still there.
dangling_mono :
    (s t : Store) (uid : Text)
    → (has uid s.upstreams ≡ true → has uid t.upstreams ≡ true)
    → dangling s uid ≡ false
    → dangling t uid ≡ false
unfolding dangling
dangling_mono s t uid more h = ground arith

has-insert :
    {V : Type 0} (k j : Text) (v : V) (m : Table V) → has j m ≡ true → has j (insert k v m) ≡ true
unfolding has
has-insert k j v m h = ground (arith, lookup-insert k j v m)

has-SameTable :
    {V : Type 0} (k : Text) (m n : Table V) → SameTable m n → has k n ≡ true → has k m ≡ true
unfolding has
has-SameTable k m n e h = ground (arith, e.at_key k)

has-delete :
    {V : Type 0} (k j : Text) (m : Table V)
    → text_eq j k ≡ false
    → has j m ≡ true
    → has j (delete k m) ≡ true
unfolding has
has-delete k j m ne h = ground (arith, lookup-delete k j m, text_eq_iff k j, text_eq_iff j k)

-- The routes stay, and every reference keeps its upstream.
keep_routes :
    (s t : Store)
    → ((id : Text) (r : Route)
        → lookup id s.routes ≡ some r
        → has r.upstream_id s.upstreams ≡ true
        → has r.upstream_id t.upstreams ≡ true)
    → t.routes ≡ s.routes
    → IsLinked s
    → IsLinked t
keep_routes s t more same h = record {
  at_key = λ id r e.
      let e' : lookup id s.routes ≡ some r = rw (← same) e in
      dangling_mono s t r.upstream_id (more id r e') (h.at_key id r e');
}

module _ (io : Io) (s : Store) (fresh : IsFresh io s) (h : IsLinked s) where
  create_route-IsLinked : (r : Route) → IsLinked (exec io s (creates_route r)).1
  unfolding exec notify dangling
  create_route-IsLinked r =
      create_route-ends After io s r (λ f. h)
        (λ d free known w. Each-insert io.uuid _ s.routes known h)
        (λ d f m. Each-Within (delete-insert-Within io.uuid _ s.routes) h)

  update_route-IsLinked : (id : Text) (r : Route) → IsLinked (exec io s (updates_route id r)).1
  unfolding exec notify dangling
  update_route-IsLinked id r =
      update_route-ends After io s id r (λ f. h)
        (λ d old e free known w. Each-insert id _ s.routes known h)
        (λ d f old e m.
          Each-Within (SameTable-Within (insert-insert-SameTable id old _ s.routes e)) h)

  delete_route-IsLinked : (id : Text) → IsLinked (exec io s (deletes_route id)).1
  unfolding exec notify dangling
  delete_route-IsLinked id =
      delete_route-ends After io s id (λ f. h)
        (λ d old e w. Each-Within (delete-Within id s.routes) h)
        (λ d f old e m.
          Each-Within (SameTable-Within (insert-delete-SameTable id old s.routes e)) h)

  toggle_route-IsLinked :
      (id : Text) (active : Bool) → IsLinked (exec io s (toggles_route id active)).1
  unfolding exec notify dangling
  toggle_route-IsLinked id active =
      toggle_route-ends After io s id active (λ f. h)
        (λ d r e w. Each-insert id _ s.routes (h.at_key id r e) h)
        (λ d f r e m. Each-insert id _ s.routes (h.at_key id r e) h)

  create_upstream-IsLinked : (u : Upstream) → IsLinked (exec io s (creates_upstream u)).1
  unfolding exec notify
  create_upstream-IsLinked u =
      create_upstream-ends After io s u (λ f. h)
        (λ d free w.
          keep_routes s _ (λ id r e. has-insert io.uuid r.upstream_id _ s.upstreams) refl h)
        (λ d f m.
          keep_routes s _
            (λ id r e.
              has-SameTable r.upstream_id _ s.upstreams
                (delete-insert-SameTable io.uuid _ s.upstreams fresh.new_upstream))
            refl h)

  update_upstream-IsLinked :
      (id : Text) (u : Upstream) → IsLinked (exec io s (updates_upstream id u)).1
  unfolding exec notify
  update_upstream-IsLinked id u =
      update_upstream-ends After io s id u (λ f. h)
        (λ d old e free w.
          keep_routes s _ (λ j r _. has-insert id r.upstream_id _ s.upstreams) refl h)
        (λ d f old e m.
          keep_routes s _
            (λ j r _.
              has-SameTable r.upstream_id _ s.upstreams
                (insert-insert-SameTable id old _ s.upstreams e))
            refl h)

  delete_upstream-IsLinked : (id : Text) → IsLinked (exec io s (deletes_upstream id)).1
  unfolding exec notify
  delete_upstream-IsLinked id =
      delete_upstream-ends After io s id (λ f. h)
        (λ d old e unused w.
          keep_routes s _
            (λ j r found.
              has-delete id r.upstream_id s.upstreams
                (any-lookup (λ x. text_eq x.1.upstream_id id) s.routes j r unused found))
            refl h)
        (λ d f old e m.
          keep_routes s _
            (λ j r _.
              has-SameTable r.upstream_id _ s.upstreams
                (insert-delete-SameTable id old s.upstreams e))
            refl h)

-- Every call on routes, upstreams or IP policies, failing or not, keeps the routes linked: the
-- non-empty `upstream_id` of each stored route is the key of a stored upstream. The identifier
-- that the call draws is assumed new.
pub exec-IsLinked :
    (io : Io) (s : Store) (c : Call) → IsFresh io s → IsLinked s → IsLinked (exec io s c).1
exec-IsLinked io s (creates_route r) f h = create_route-IsLinked io s f h r
exec-IsLinked io s (updates_route id r) f h = update_route-IsLinked io s f h id r
exec-IsLinked io s (deletes_route id) f h = delete_route-IsLinked io s f h id
exec-IsLinked io s (toggles_route id active) f h = toggle_route-IsLinked io s f h id active
exec-IsLinked io s (creates_upstream u) f h = create_upstream-IsLinked io s f h u
exec-IsLinked io s (updates_upstream id u) f h = update_upstream-IsLinked io s f h id u
exec-IsLinked io s (deletes_upstream id) f h = delete_upstream-IsLinked io s f h id
exec-IsLinked io s (creates_policy p) f h =
    unfold exec notify dangling in
    create_ip_policy-ends After io s p (λ f. h) (λ d free w. h) (λ d f m. h)
exec-IsLinked io s (updates_policy id p) f h =
    unfold exec notify dangling in
    update_ip_policy-ends After io s id p (λ f. h) (λ d old e free w. h) (λ d f old e m. h)
exec-IsLinked io s (deletes_policy id) f h =
    unfold exec notify dangling in
    delete_ip_policy-ends After io s id (λ f. h) (λ d old e w. h) (λ d f old e m. h)
exec-IsLinked io s (toggles_policy id active) f h =
    unfold exec notify dangling in
    toggle_ip_policy-ends After io s id active (λ f. h) (λ d p e w. h) (λ d f p e m. h)
