-- ===== src/Store/Keying/Routes.antt =====
-- The calls on routes: records stay under their identifiers.
use helix_gateway.Base.{
  Text, Bool, some, ◌≡◌, refl, lookup, insert, Keyed, Keyed-lookup, insert-Keyed, delete-Keyed,
}
use helix_gateway.Store.Model.{Route}
use helix_gateway.Store.State.{Store, Io, notify}
use helix_gateway.Store.Routes.{stamped_route, patched_route, toggled_route}
use helix_gateway.Store.Routes.Ends.{
  create_route-ends, update_route-ends, delete_route-ends, toggle_route-ends,
}
use helix_gateway.Store.Calls.{creates_route, updates_route, deletes_route, toggles_route, exec}
use helix_gateway.Store.Keying.Common.{IsKeyed, After}

module _ (io : Io) (s : Store) (h : IsKeyed s) where
  with_routes :
      (t : Store)
      → Keyed (λ x. x.id) t.routes
      → t.upstreams ≡ s.upstreams
      → t.policies ≡ s.policies
      → IsKeyed t
  with_routes t k a b = record {
    routes = k;
    upstreams = rw a h.upstreams;
    policies = rw b h.policies;
  }

  pub routes_creates : (x : Route) → IsKeyed (exec io s (creates_route x)).1
  unfolding exec notify
  routes_creates x =
      create_route-ends After io s x (λ f. h)
        (λ d free known w.
          with_routes _ (insert-Keyed (λ x. x.id) s.routes io.uuid _ refl h.routes) refl refl)
        (λ d f m.
          with_routes _
            (delete-Keyed (λ x. x.id) _ io.uuid
              (insert-Keyed (λ x. x.id) s.routes io.uuid (stamped_route io x) refl h.routes))
            refl refl)

  pub routes_updates : (id : Text) (x : Route) → IsKeyed (exec io s (updates_route id x)).1
  unfolding exec notify
  routes_updates id x =
      update_route-ends After io s id x (λ f. h)
        (λ d old e free known w.
          with_routes _
            (insert-Keyed (λ x. x.id) s.routes id (patched_route io old x)
              (Keyed-lookup (λ x. x.id) s.routes id old h.routes e) h.routes)
            refl refl)
        (λ d f old e m.
          with_routes _
            (insert-Keyed (λ x. x.id) _ id old (Keyed-lookup (λ x. x.id) s.routes id old h.routes e)
              (insert-Keyed (λ x. x.id) s.routes id (patched_route io old x)
                (Keyed-lookup (λ x. x.id) s.routes id old h.routes e) h.routes))
            refl refl)

  pub routes_deletes : (id : Text) → IsKeyed (exec io s (deletes_route id)).1
  unfolding exec notify
  routes_deletes id =
      delete_route-ends After io s id (λ f. h)
        (λ d old e w. with_routes _ (delete-Keyed (λ x. x.id) s.routes id h.routes) refl refl)
        (λ d f old e m.
          with_routes _
            (insert-Keyed (λ x. x.id) _ id old (Keyed-lookup (λ x. x.id) s.routes id old h.routes e)
              (delete-Keyed (λ x. x.id) s.routes id h.routes))
            refl refl)

  pub routes_toggles : (id : Text) (active : Bool) → IsKeyed (exec io s (toggles_route id active)).1
  unfolding exec notify
  routes_toggles id active =
      toggle_route-ends After io s id active (λ f. h)
        (λ d r e w. with_routes _ (kept r e) refl refl)
        (λ d f r e m. with_routes _ (kept r e) refl refl)
    where
      kept :
          (r : Route)
          → lookup id s.routes ≡ some r
          → Keyed (λ x. x.id) (insert id (toggled_route io r active) s.routes)
      kept r e =
          insert-Keyed (λ x. x.id) s.routes id _ (Keyed-lookup (λ x. x.id) s.routes id r h.routes e)
            h.routes
