-- ===== src/Store/Policies/Ends.antt =====
-- How the calls on IP policies can end, for every statement about the result and the next store.
use helix_gateway.Base.{
  Text, Bool, false, some, inl, inr, ◌≡◌, lookup, insert, delete, Option-cases, Bool-cases,
}
use helix_gateway.Store.Model.{IpPolicy}
use helix_gateway.Store.State.{
  Store, Io, Disk, Failure, Result, ok, err, notify, not_found, conflict,
}
use helix_gateway.Store.Commit.{commit-ends, Written}
use helix_gateway.Store.Policies.{
  create_ip_policy, update_ip_policy, delete_ip_policy, toggle_ip_policy, toggled_ip_policy,
  ip_policy_name_taken, ip_policy_name_taken_by_other, stamped_ip_policy, patched_ip_policy,
}

module _ {κ} (P : Result IpPolicy × Store → Type κ) (io : Io) (s : Store) where
  -- The ways in which `create_ip_policy` can end.
  pub create_ip_policy-ends :
      (p : IpPolicy)
      → ((f : Failure) → P (err f, s))
      → ((d : Disk)
          → ip_policy_name_taken p.name s.policies ≡ false
          → Written io
              (record s { policies = insert io.uuid (stamped_ip_policy io p) s.policies })
              d
          → P (
            ok (stamped_ip_policy io p),
            notify (record s {
              policies = insert io.uuid (stamped_ip_policy io p) s.policies;
              disk = d;
            }),
          ))
      → ((d : Disk) (f : Failure)
          → d.main ≡ s.disk.main
          → P (
            err f,
            record s {
              policies = delete io.uuid (insert io.uuid (stamped_ip_policy io p) s.policies);
              disk = d;
            },
          ))
      → P (create_ip_policy io s p)
  unfolding create_ip_policy
  create_ip_policy-ends p refused done failed =
      elim (Bool-cases (ip_policy_name_taken p.name s.policies)) [
        | inl taken ↦ rw taken (refused conflict)
        | inr free ↦ rw free (commit-ends P io _ _ _ (λ d w. done d free w) failed)
      ]

  -- The ways in which `update_ip_policy` can end.
  pub update_ip_policy-ends :
      (id : Text) (patch : IpPolicy)
      → ((f : Failure) → P (err f, s))
      → ((d : Disk) (existing : IpPolicy)
          → lookup id s.policies ≡ some existing
          → ip_policy_name_taken_by_other id patch.name s.policies ≡ false
          → Written io
              (record s { policies = insert id (patched_ip_policy io existing patch) s.policies })
              d
          → P (
            ok (patched_ip_policy io existing patch),
            notify (record s {
              policies = insert id (patched_ip_policy io existing patch) s.policies;
              disk = d;
            }),
          ))
      → ((d : Disk) (f : Failure) (existing : IpPolicy)
          → lookup id s.policies ≡ some existing
          → d.main ≡ s.disk.main
          → P (
            err f,
            record s {
              policies =
                  insert id existing (insert id (patched_ip_policy io existing patch) s.policies);
              disk = d;
            },
          ))
      → P (update_ip_policy io s id patch)
  unfolding update_ip_policy
  update_ip_policy-ends id patch refused done failed = elim (Option-cases (lookup id s.policies)) [
    | inl e ↦ rw (e, update_ip_policy) (refused not_found)
    | inr (existing, e) ↦
        rw (e, update_ip_policy)
          (elim (Bool-cases (ip_policy_name_taken_by_other id patch.name s.policies)) [
            | inl taken ↦ rw taken (refused conflict)
            | inr free ↦ rw free (
                commit-ends P io _ _ _ (λ d w. done d existing e free w)
                  (λ d f w. failed d f existing e w))
          ])
  ]

  -- The ways in which `toggle_ip_policy` can end: the change stays in both.
  pub toggle_ip_policy-ends :
      (id : Text) (active : Bool)
      → ((f : Failure) → P (err f, s))
      → ((d : Disk) (r : IpPolicy)
          → lookup id s.policies ≡ some r
          → Written io
              (record s { policies = insert id (toggled_ip_policy io r active) s.policies })
              d
          → P (
            ok (toggled_ip_policy io r active),
            notify (record s {
              policies = insert id (toggled_ip_policy io r active) s.policies;
              disk = d;
            }),
          ))
      → ((d : Disk) (f : Failure) (r : IpPolicy)
          → lookup id s.policies ≡ some r
          → d.main ≡ s.disk.main
          → P (
            err f,
            record s { policies = insert id (toggled_ip_policy io r active) s.policies; disk = d },
          ))
      → P (toggle_ip_policy io s id active)
  unfolding toggle_ip_policy
  toggle_ip_policy-ends id active refused done failed = elim (Option-cases (lookup id s.policies)) [
    | inl e ↦ rw (e, toggle_ip_policy) (refused not_found)
    | inr (r, e) ↦
        rw (e, toggle_ip_policy)
          (commit-ends P io _ _ _ (λ d w. done d r e w) (λ d f w. failed d f r e w))
  ]

module _ {κ} (P : Result (Unit {0}) × Store → Type κ) (io : Io) (s : Store) where
  -- The ways in which `delete_ip_policy` can end.
  pub delete_ip_policy-ends :
      (id : Text)
      → ((f : Failure) → P (err f, s))
      → ((d : Disk) (backup : IpPolicy)
          → lookup id s.policies ≡ some backup
          → Written io (record s { policies = delete id s.policies }) d
          → P (ok tt, notify (record s { policies = delete id s.policies; disk = d })))
      → ((d : Disk) (f : Failure) (backup : IpPolicy)
          → lookup id s.policies ≡ some backup
          → d.main ≡ s.disk.main
          → P (err f, record s { policies = insert id backup (delete id s.policies); disk = d }))
      → P (delete_ip_policy io s id)
  unfolding delete_ip_policy
  delete_ip_policy-ends id refused done failed = elim (Option-cases (lookup id s.policies)) [
    | inl e ↦ rw (e, delete_ip_policy) (refused not_found)
    | inr (b, e) ↦
        rw (e, delete_ip_policy)
          (commit-ends P io _ _ _ (λ d w. done d b e w) (λ d f w. failed d f b e w))
  ]
