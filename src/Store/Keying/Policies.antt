-- ===== src/Store/Keying/Policies.antt =====
-- The calls on IP policies: records stay under their identifiers.
use helix_gateway.Base.{
  Text, Bool, some, ◌≡◌, refl, lookup, insert, Keyed, Keyed-lookup, insert-Keyed, delete-Keyed,
}
use helix_gateway.Store.Model.{IpPolicy}
use helix_gateway.Store.State.{Store, Io, notify}
use helix_gateway.Store.Policies.{stamped_ip_policy, patched_ip_policy, toggled_ip_policy}
use helix_gateway.Store.Policies.Ends.{
  create_ip_policy-ends, update_ip_policy-ends, delete_ip_policy-ends, toggle_ip_policy-ends,
}
use helix_gateway.Store.Calls.{creates_policy, updates_policy, deletes_policy, toggles_policy, exec}
use helix_gateway.Store.Keying.Common.{IsKeyed, After}

module _ (io : Io) (s : Store) (h : IsKeyed s) where
  with_policies :
      (t : Store)
      → Keyed (λ x. x.id) t.policies
      → t.routes ≡ s.routes
      → t.upstreams ≡ s.upstreams
      → IsKeyed t
  with_policies t k a b = record {
    policies = k;
    routes = rw a h.routes;
    upstreams = rw b h.upstreams;
  }

  pub policies_creates : (x : IpPolicy) → IsKeyed (exec io s (creates_policy x)).1
  unfolding exec notify
  policies_creates x =
      create_ip_policy-ends After io s x (λ f. h)
        (λ d free w.
          with_policies _ (insert-Keyed (λ x. x.id) s.policies io.uuid _ refl h.policies) refl refl)
        (λ d f m.
          with_policies _
            (delete-Keyed (λ x. x.id) _ io.uuid
              (insert-Keyed (λ x. x.id) s.policies io.uuid (stamped_ip_policy io x) refl
                h.policies))
            refl refl)

  pub policies_updates : (id : Text) (x : IpPolicy) → IsKeyed (exec io s (updates_policy id x)).1
  unfolding exec notify
  policies_updates id x =
      update_ip_policy-ends After io s id x (λ f. h)
        (λ d old e free w.
          with_policies _
            (insert-Keyed (λ x. x.id) s.policies id (patched_ip_policy io old x)
              (Keyed-lookup (λ x. x.id) s.policies id old h.policies e) h.policies)
            refl refl)
        (λ d f old e m.
          with_policies _
            (insert-Keyed (λ x. x.id) _ id old
              (Keyed-lookup (λ x. x.id) s.policies id old h.policies e)
              (insert-Keyed (λ x. x.id) s.policies id (patched_ip_policy io old x)
                (Keyed-lookup (λ x. x.id) s.policies id old h.policies e) h.policies))
            refl refl)

  pub policies_deletes : (id : Text) → IsKeyed (exec io s (deletes_policy id)).1
  unfolding exec notify
  policies_deletes id =
      delete_ip_policy-ends After io s id (λ f. h)
        (λ d old e w. with_policies _ (delete-Keyed (λ x. x.id) s.policies id h.policies) refl refl)
        (λ d f old e m.
          with_policies _
            (insert-Keyed (λ x. x.id) _ id old
              (Keyed-lookup (λ x. x.id) s.policies id old h.policies e)
              (delete-Keyed (λ x. x.id) s.policies id h.policies))
            refl refl)

  pub policies_toggles :
      (id : Text) (active : Bool) → IsKeyed (exec io s (toggles_policy id active)).1
  unfolding exec notify
  policies_toggles id active =
      toggle_ip_policy-ends After io s id active (λ f. h)
        (λ d r e w. with_policies _ (kept r e) refl refl)
        (λ d f r e m. with_policies _ (kept r e) refl refl)
    where
      kept :
          (r : IpPolicy)
          → lookup id s.policies ≡ some r
          → Keyed (λ x. x.id) (insert id (toggled_ip_policy io r active) s.policies)
      kept r e =
          insert-Keyed (λ x. x.id) s.policies id _
            (Keyed-lookup (λ x. x.id) s.policies id r h.policies e) h.policies
