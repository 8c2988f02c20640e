-- ===== src/Store/Upstreams/Ends.antt =====
-- How the calls on upstreams can end, for every statement about the result and the next store.
use helix_gateway.Base.{
  Text, text_eq, false, some, inl, inr, ◌≡◌, any, lookup, insert, delete, Option-cases, Bool-cases,
}
use helix_gateway.Store.Model.{Upstream}
use helix_gateway.Store.State.{
  Store, Io, Disk, Failure, Result, ok, err, notify, not_found, conflict, in_use,
}
use helix_gateway.Store.Commit.{commit-ends, Written}
use helix_gateway.Store.Upstreams.{
  create_upstream, update_upstream, delete_upstream, upstream_name_taken,
  upstream_name_taken_by_other, stamped_upstream, patched_upstream,
}

module _ {κ} (P : Result Upstream × Store → Type κ) (io : Io) (s : Store) where
  -- The ways in which `create_upstream` can end.
  pub create_upstream-ends :
      (u : Upstream)
      → ((f : Failure) → P (err f, s))
      → ((d : Disk)
          → upstream_name_taken u.name s.upstreams ≡ false
          → Written io
              (record s { upstreams = insert io.uuid (stamped_upstream io u) s.upstreams })
              d
          → P (
            ok (stamped_upstream io u),
            notify (record s {
              upstreams = insert io.uuid (stamped_upstream io u) s.upstreams;
              disk = d;
            }),
          ))
      → ((d : Disk) (f : Failure)
          → d.main ≡ s.disk.main
          → P (
            err f,
            record s {
              upstreams = delete io.uuid (insert io.uuid (stamped_upstream io u) s.upstreams);
              disk = d;
            },
          ))
      → P (create_upstream io s u)
  unfolding create_upstream
  create_upstream-ends u refused done failed =
      elim (Bool-cases (upstream_name_taken u.name s.upstreams)) [
        | inl taken ↦ rw taken (refused conflict)
        | inr free ↦ rw free (commit-ends P io _ _ _ (λ d w. done d free w) failed)
      ]

  -- The ways in which `update_upstream` can end.
  pub update_upstream-ends :
      (id : Text) (patch : Upstream)
      → ((f : Failure) → P (err f, s))
      → ((d : Disk) (existing : Upstream)
          → lookup id s.upstreams ≡ some existing
          → upstream_name_taken_by_other id patch.name s.upstreams ≡ false
          → Written io
              (record s { upstreams = insert id (patched_upstream io existing patch) s.upstreams })
              d
          → P (
            ok (patched_upstream io existing patch),
            notify (record s {
              upstreams = insert id (patched_upstream io existing patch) s.upstreams;
              disk = d;
            }),
          ))
      → ((d : Disk) (f : Failure) (existing : Upstream)
          → lookup id s.upstreams ≡ some existing
          → d.main ≡ s.disk.main
          → P (
            err f,
            record s {
              upstreams =
                  insert id existing (insert id (patched_upstream io existing patch) s.upstreams);
              disk = d;
            },
          ))
      → P (update_upstream io s id patch)
  unfolding update_upstream
  update_upstream-ends id patch refused done failed = elim (Option-cases (lookup id s.upstreams)) [
    | inl e ↦ rw (e, update_upstream) (refused not_found)
    | inr (existing, e) ↦
        rw (e, update_upstream)
          (elim (Bool-cases (upstream_name_taken_by_other id patch.name s.upstreams)) [
            | inl taken ↦ rw taken (refused conflict)
            | inr free ↦ rw free (
                commit-ends P io _ _ _ (λ d w. done d existing e free w)
                  (λ d f w. failed d f existing e w))
          ])
  ]

module _ {κ} (P : Result (Unit {0}) × Store → Type κ) (io : Io) (s : Store) where
  -- The ways in which `delete_upstream` can end.
  pub delete_upstream-ends :
      (id : Text)
      → ((f : Failure) → P (err f, s))
      → ((d : Disk) (backup : Upstream)
          → lookup id s.upstreams ≡ some backup
          → any (λ e. text_eq e.1.upstream_id id) s.routes ≡ false
          → Written io (record s { upstreams = delete id s.upstreams }) d
          → P (ok tt, notify (record s { upstreams = delete id s.upstreams; disk = d })))
      → ((d : Disk) (f : Failure) (backup : Upstream)
          → lookup id s.upstreams ≡ some backup
          → d.main ≡ s.disk.main
          → P (err f, record s { upstreams = insert id backup (delete id s.upstreams); disk = d }))
      → P (delete_upstream io s id)
  unfolding delete_upstream
  delete_upstream-ends id refused done failed = elim (Option-cases (lookup id s.upstreams)) [
    | inl e ↦ rw (e, delete_upstream) (refused not_found)
    | inr (b, e) ↦
        rw (e, delete_upstream)
          (elim (Bool-cases (any (λ x. text_eq x.1.upstream_id id) s.routes)) [
            | inl used ↦ rw used (refused in_use)
            | inr free ↦
                rw free
                  (commit-ends P io _ _ _ (λ d w. done d b e free w) (λ d f w. failed d f b e w))
          ])
  ]
