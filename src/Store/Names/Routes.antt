-- ===== src/Store/Names/Routes.antt =====
-- The calls on routes: names stay unique.
use helix_gateway.Base.{
  Text, Bool, some, ◌≡◌, refl, lookup, insert, UniqueNames, UniqueNames-Within, UniqueNames-insert,
  delete-insert-Within, delete-Within, insert-insert-SameTable, insert-delete-SameTable,
  SameTable-Within,
}
use helix_gateway.Store.State.{Store, Io, notify}
use helix_gateway.Store.Model.{Route}
use helix_gateway.Store.Routes.{toggled_route}
use helix_gateway.Store.Routes.Ends.{
  create_route-ends, update_route-ends, delete_route-ends, toggle_route-ends,
}
use helix_gateway.Store.Calls.{creates_route, updates_route, deletes_route, toggles_route, exec}
use helix_gateway.Store.Names.Common.{HasUniqueNames, After, free_name, free_name_elsewhere}

module _ (io : Io) (s : Store) (h : HasUniqueNames s) where
  with_routes :
      (t : Store)
      → UniqueNames (λ r. r.name) t.routes
      → t.upstreams ≡ s.upstreams
      → t.policies ≡ s.policies
      → HasUniqueNames t
  with_routes t r u p = record {
    routes = r;
    upstreams = rw u h.upstreams;
    policies = rw p h.policies;
  }

  pub routes_creates : (r : Route) → HasUniqueNames (exec io s (creates_route r)).1
  unfolding exec notify
  routes_creates r =
      create_route-ends After io s r (λ f. h)
        (λ d free known w.
          with_routes _
            (UniqueNames-insert io.uuid _ s.routes
              (free_name (λ x. x.name) s.routes io.uuid r.name free) h.routes)
            refl refl)
        (λ d f m.
          with_routes _ (UniqueNames-Within (delete-insert-Within io.uuid _ s.routes) h.routes) refl
            refl)

  pub routes_updates : (id : Text) (r : Route) → HasUniqueNames (exec io s (updates_route id r)).1
  unfolding exec notify
  routes_updates id r =
      update_route-ends After io s id r (λ f. h)
        (λ d old e free known w.
          with_routes _
            (UniqueNames-insert id _ s.routes
              (free_name_elsewhere (λ x. x.name) s.routes id r.name free) h.routes)
            refl refl)
        (λ d f old e m.
          with_routes _
            (UniqueNames-Within (SameTable-Within (insert-insert-SameTable id old _ s.routes e))
              h.routes)
            refl refl)

  pub routes_deletes : (id : Text) → HasUniqueNames (exec io s (deletes_route id)).1
  unfolding exec notify
  routes_deletes id =
      delete_route-ends After io s id (λ f. h)
        (λ d old e w.
          with_routes _ (UniqueNames-Within (delete-Within id s.routes) h.routes) refl refl)
        (λ d f old e m.
          with_routes _
            (UniqueNames-Within (SameTable-Within (insert-delete-SameTable id old s.routes e))
              h.routes)
            refl refl)

  pub routes_toggles :
      (id : Text) (active : Bool) → HasUniqueNames (exec io s (toggles_route id active)).1
  unfolding exec notify
  routes_toggles id active =
      toggle_route-ends After io s id active (λ f. h)
        (λ d r e w. with_routes _ (renamed r e) refl refl)
        (λ d f r e m. with_routes _ (renamed r e) refl refl)
    where
      renamed :
          (r : Route)
          → lookup id s.routes ≡ some r
          → UniqueNames (λ x. x.name) (insert id (toggled_route io r active) s.routes)
      renamed r e =
          UniqueNames-insert id _ s.routes (λ j b l n. h.routes.at_keys j id b r l e n) h.routes
