-- ===== src/Store/Names/Policies.antt =====
-- The calls on IP policies: names stay unique.
use helix_gateway.Base.{
  Text, Bool, some, ◌≡◌, refl, lookup, insert, UniqueNames, UniqueNames-Within, UniqueNames-insert,
  delete-insert-Within, delete-Within, insert-insert-SameTable, insert-delete-SameTable,
  SameTable-Within,
}
use helix_gateway.Store.State.{Store, Io, notify}
use helix_gateway.Store.Model.{IpPolicy}
use helix_gateway.Store.Policies.{toggled_ip_policy}
use helix_gateway.Store.Policies.Ends.{
  create_ip_policy-ends, update_ip_policy-ends, delete_ip_policy-ends, toggle_ip_policy-ends,
}
use helix_gateway.Store.Calls.{creates_policy, updates_policy, deletes_policy, toggles_policy, exec}
use helix_gateway.Store.Names.Common.{HasUniqueNames, After, free_name, free_name_elsewhere}

module _ (io : Io) (s : Store) (h : HasUniqueNames s) where
  with_policies :
      (t : Store)
      → UniqueNames (λ p. p.name) t.policies
      → t.routes ≡ s.routes
      → t.upstreams ≡ s.upstreams
      → HasUniqueNames t
  with_policies t p r u = record {
    routes = rw r h.routes;
    upstreams = rw u h.upstreams;
    policies = p;
  }

  pub policies_creates : (p : IpPolicy) → HasUniqueNames (exec io s (creates_policy p)).1
  unfolding exec notify
  policies_creates p =
      create_ip_policy-ends After io s p (λ f. h)
        (λ d free w.
          with_policies _
            (UniqueNames-insert io.uuid _ s.policies
              (free_name (λ x. x.name) s.policies io.uuid p.name free) h.policies)
            refl refl)
        (λ d f m.
          with_policies _
            (UniqueNames-Within (delete-insert-Within io.uuid _ s.policies) h.policies) refl refl)

  pub policies_updates :
      (id : Text) (p : IpPolicy) → HasUniqueNames (exec io s (updates_policy id p)).1
  unfolding exec notify
  policies_updates id p =
      update_ip_policy-ends After io s id p (λ f. h)
        (λ d old e free w.
          with_policies _
            (UniqueNames-insert id _ s.policies
              (free_name_elsewhere (λ x. x.name) s.policies id p.name free) h.policies)
            refl refl)
        (λ d f old e m.
          with_policies _
            (UniqueNames-Within (SameTable-Within (insert-insert-SameTable id old _ s.policies e))
              h.policies)
            refl refl)

  pub policies_deletes : (id : Text) → HasUniqueNames (exec io s (deletes_policy id)).1
  unfolding exec notify
  policies_deletes id =
      delete_ip_policy-ends After io s id (λ f. h)
        (λ d old e w.
          with_policies _ (UniqueNames-Within (delete-Within id s.policies) h.policies) refl refl)
        (λ d f old e m.
          with_policies _
            (UniqueNames-Within (SameTable-Within (insert-delete-SameTable id old s.policies e))
              h.policies)
            refl refl)

  pub policies_toggles :
      (id : Text) (active : Bool) → HasUniqueNames (exec io s (toggles_policy id active)).1
  unfolding exec notify
  policies_toggles id active =
      toggle_ip_policy-ends After io s id active (λ f. h)
        (λ d r e w. with_policies _ (renamed r e) refl refl)
        (λ d f r e m. with_policies _ (renamed r e) refl refl)
    where
      renamed :
          (r : IpPolicy)
          → lookup id s.policies ≡ some r
          → UniqueNames (λ x. x.name) (insert id (toggled_ip_policy io r active) s.policies)
      renamed r e =
          UniqueNames-insert id _ s.policies (λ j b l n. h.policies.at_keys j id b r l e n)
            h.policies
