-- ===== src/Store/Keying/Upstreams.antt =====
-- The calls on upstreams: records stay under their identifiers.
use helix_gateway.Base.{Text, ◌≡◌, refl, Keyed, Keyed-lookup, insert-Keyed, delete-Keyed}
use helix_gateway.Store.Model.{Upstream}
use helix_gateway.Store.State.{Store, Io, notify}
use helix_gateway.Store.Upstreams.{stamped_upstream, patched_upstream}
use helix_gateway.Store.Upstreams.Ends.{
  create_upstream-ends, update_upstream-ends, delete_upstream-ends,
}
use helix_gateway.Store.Calls.{creates_upstream, updates_upstream, deletes_upstream, exec}
use helix_gateway.Store.Keying.Common.{IsKeyed, After}

module _ (io : Io) (s : Store) (h : IsKeyed s) where
  with_upstreams :
      (t : Store)
      → Keyed (λ x. x.id) t.upstreams
      → t.routes ≡ s.routes
      → t.policies ≡ s.policies
      → IsKeyed t
  with_upstreams t k a b = record {
    upstreams = k;
    routes = rw a h.routes;
    policies = rw b h.policies;
  }

  pub upstreams_creates : (x : Upstream) → IsKeyed (exec io s (creates_upstream x)).1
  unfolding exec notify
  upstreams_creates x =
      create_upstream-ends After io s x (λ f. h)
        (λ d free w.
          with_upstreams _ (insert-Keyed (λ x. x.id) s.upstreams io.uuid _ refl h.upstreams) refl
            refl)
        (λ d f m.
          with_upstreams _
            (delete-Keyed (λ x. x.id) _ io.uuid
              (insert-Keyed (λ x. x.id) s.upstreams io.uuid (stamped_upstream io x) refl
                h.upstreams))
            refl refl)

  pub upstreams_updates : (id : Text) (x : Upstream) → IsKeyed (exec io s (updates_upstream id x)).1
  unfolding exec notify
  upstreams_updates id x =
      update_upstream-ends After io s id x (λ f. h)
        (λ d old e free w.
          with_upstreams _
            (insert-Keyed (λ x. x.id) s.upstreams id (patched_upstream io old x)
              (Keyed-lookup (λ x. x.id) s.upstreams id old h.upstreams e) h.upstreams)
            refl refl)
        (λ d f old e m.
          with_upstreams _
            (insert-Keyed (λ x. x.id) _ id old
              (Keyed-lookup (λ x. x.id) s.upstreams id old h.upstreams e)
              (insert-Keyed (λ x. x.id) s.upstreams id (patched_upstream io old x)
                (Keyed-lookup (λ x. x.id) s.upstreams id old h.upstreams e) h.upstreams))
            refl refl)

  pub upstreams_deletes : (id : Text) → IsKeyed (exec io s (deletes_upstream id)).1
  unfolding exec notify
  upstreams_deletes id =
      delete_upstream-ends After io s id (λ f. h)
        (λ d old e unused w.
          with_upstreams _ (delete-Keyed (λ x. x.id) s.upstreams id h.upstreams) refl refl)
        (λ d f old e m.
          with_upstreams _
            (insert-Keyed (λ x. x.id) _ id old
              (Keyed-lookup (λ x. x.id) s.upstreams id old h.upstreams e)
              (delete-Keyed (λ x. x.id) s.upstreams id h.upstreams))
            refl refl)
