-- ===== src/Store/Names/Upstreams.antt =====
-- The calls on upstreams: names stay unique.
use helix_gateway.Base.{
  Text, ◌≡◌, refl, UniqueNames, UniqueNames-Within, UniqueNames-insert, delete-insert-Within,
  delete-Within, insert-insert-SameTable, insert-delete-SameTable, SameTable-Within,
}
use helix_gateway.Store.State.{Store, Io, notify}
use helix_gateway.Store.Model.{Upstream}
use helix_gateway.Store.Upstreams.Ends.{
  create_upstream-ends, update_upstream-ends, delete_upstream-ends,
}
use helix_gateway.Store.Calls.{creates_upstream, updates_upstream, deletes_upstream, exec}
use helix_gateway.Store.Names.Common.{HasUniqueNames, After, free_name, free_name_elsewhere}

module _ (io : Io) (s : Store) (h : HasUniqueNames s) where
  with_upstreams :
      (t : Store)
      → UniqueNames (λ u. u.name) t.upstreams
      → t.routes ≡ s.routes
      → t.policies ≡ s.policies
      → HasUniqueNames t
  with_upstreams t u r p = record {
    routes = rw r h.routes;
    upstreams = u;
    policies = rw p h.policies;
  }

  pub upstreams_creates : (u : Upstream) → HasUniqueNames (exec io s (creates_upstream u)).1
  unfolding exec notify
  upstreams_creates u =
      create_upstream-ends After io s u (λ f. h)
        (λ d free w.
          with_upstreams _
            (UniqueNames-insert io.uuid _ s.upstreams
              (free_name (λ x. x.name) s.upstreams io.uuid u.name free) h.upstreams)
            refl refl)
        (λ d f m.
          with_upstreams _
            (UniqueNames-Within (delete-insert-Within io.uuid _ s.upstreams) h.upstreams) refl refl)

  pub upstreams_updates :
      (id : Text) (u : Upstream) → HasUniqueNames (exec io s (updates_upstream id u)).1
  unfolding exec notify
  upstreams_updates id u =
      update_upstream-ends After io s id u (λ f. h)
        (λ d old e free w.
          with_upstreams _
            (UniqueNames-insert id _ s.upstreams
              (free_name_elsewhere (λ x. x.name) s.upstreams id u.name free) h.upstreams)
            refl refl)
        (λ d f old e m.
          with_upstreams _
            (UniqueNames-Within (SameTable-Within (insert-insert-SameTable id old _ s.upstreams e))
              h.upstreams)
            refl refl)

  pub upstreams_deletes : (id : Text) → HasUniqueNames (exec io s (deletes_upstream id)).1
  unfolding exec notify
  upstreams_deletes id =
      delete_upstream-ends After io s id (λ f. h)
        (λ d old e unused w.
          with_upstreams _ (UniqueNames-Within (delete-Within id s.upstreams) h.upstreams) refl
            refl)
        (λ d f old e m.
          with_upstreams _
            (UniqueNames-Within (SameTable-Within (insert-delete-SameTable id old s.upstreams e))
              h.upstreams)
            refl refl)
