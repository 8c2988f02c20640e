-- ===== src/Store/Routes/Ends.antt =====
-- How the calls on routes can end, for every statement about the result and the next store.
use helix_gateway.Base.{
  Text, Bool, false, some, inl, inr, ◌≡◌, lookup, insert, delete, Option-cases, Bool-cases,
}
use helix_gateway.Store.Model.{Route}
use helix_gateway.Store.State.{
  Store, Io, Disk, Failure, Result, ok, err, notify, not_found, conflict, upstream_not_found,
}
use helix_gateway.Store.Commit.{commit-ends, Written}
use helix_gateway.Store.Routes.{
  create_route, update_route, delete_route, toggle_route, toggled_route, route_name_taken,
  route_name_taken_by_other, stamped_route, patched_route, dangling,
}

module _ {κ} (P : Result Route × Store → Type κ) (io : Io) (s : Store) where
  -- The ways in which `create_route` can end.
  pub create_route-ends :
      (r : Route)
      → ((f : Failure) → P (err f, s))
      → ((d : Disk)
          → route_name_taken r.name s.routes ≡ false
          → dangling s r.upstream_id ≡ false
          → Written io (record s { routes = insert io.uuid (stamped_route io r) s.routes }) d
          → P (
            ok (stamped_route io r),
            notify (record s { routes = insert io.uuid (stamped_route io r) s.routes; disk = d }),
          ))
      → ((d : Disk) (f : Failure)
          → d.main ≡ s.disk.main
          → P (
            err f,
            record s {
              routes = delete io.uuid (insert io.uuid (stamped_route io r) s.routes);
              disk = d;
            },
          ))
      → P (create_route io s r)
  unfolding create_route
  create_route-ends r refused done failed = elim (Bool-cases (route_name_taken r.name s.routes)) [
    | inl taken ↦ rw taken (refused conflict)
    | inr free ↦ rw free (elim (Bool-cases (dangling s r.upstream_id)) [
      | inl lost ↦ rw lost (refused (upstream_not_found r.upstream_id))
      | inr known ↦ rw known (commit-ends P io _ _ _ (λ d w. done d free known w) failed)
    ])
  ]

  -- The ways in which `update_route` can end.
  pub update_route-ends :
      (id : Text) (patch : Route)
      → ((f : Failure) → P (err f, s))
      → ((d : Disk) (existing : Route)
          → lookup id s.routes ≡ some existing
          → route_name_taken_by_other id patch.name s.routes ≡ false
          → dangling s patch.upstream_id ≡ false
          → Written io
              (record s { routes = insert id (patched_route io existing patch) s.routes })
              d
          → P (
            ok (patched_route io existing patch),
            notify (record s {
              routes = insert id (patched_route io existing patch) s.routes;
              disk = d;
            }),
          ))
      → ((d : Disk) (f : Failure) (existing : Route)
          → lookup id s.routes ≡ some existing
          → d.main ≡ s.disk.main
          → P (
            err f,
            record s {
              routes = insert id existing (insert id (patched_route io existing patch) s.routes);
              disk = d;
            },
          ))
      → P (update_route io s id patch)
  unfolding update_route
  update_route-ends id patch refused done failed = elim (Option-cases (lookup id s.routes)) [
    | inl e ↦ rw (e, update_route) (refused not_found)
    | inr (existing, e) ↦
        rw (e, update_route)
          (elim (Bool-cases (dangling s patch.upstream_id)) [
            | inl lost ↦ rw lost (refused (upstream_not_found patch.upstream_id))
            | inr known ↦
                rw known (elim (Bool-cases (route_name_taken_by_other id patch.name s.routes)) [
                  | inl taken ↦ rw taken (refused conflict)
                  | inr free ↦ rw free (
                      commit-ends P io _ _ _ (λ d w. done d existing e free known w)
                        (λ d f w. failed d f existing e w))
                ])
          ])
  ]

  -- The ways in which `toggle_route` can end: the change stays in both.
  pub toggle_route-ends :
      (id : Text) (active : Bool)
      → ((f : Failure) → P (err f, s))
      → ((d : Disk) (r : Route)
          → lookup id s.routes ≡ some r
          → Written io (record s { routes = insert id (toggled_route io r active) s.routes }) d
          → P (
            ok (toggled_route io r active),
            notify (record s { routes = insert id (toggled_route io r active) s.routes; disk = d }),
          ))
      → ((d : Disk) (f : Failure) (r : Route)
          → lookup id s.routes ≡ some r
          → d.main ≡ s.disk.main
          → P (
            err f,
            record s { routes = insert id (toggled_route io r active) s.routes; disk = d },
          ))
      → P (toggle_route io s id active)
  unfolding toggle_route
  toggle_route-ends id active refused done failed = elim (Option-cases (lookup id s.routes)) [
    | inl e ↦ rw (e, toggle_route) (refused not_found)
    | inr (r, e) ↦
        rw (e, toggle_route)
          (commit-ends P io _ _ _ (λ d w. done d r e w) (λ d f w. failed d f r e w))
  ]

module _ {κ} (P : Result (Unit {0}) × Store → Type κ) (io : Io) (s : Store) where
  -- The ways in which `delete_route` can end.
  pub delete_route-ends :
      (id : Text)
      → ((f : Failure) → P (err f, s))
      → ((d : Disk) (backup : Route)
          → lookup id s.routes ≡ some backup
          → Written io (record s { routes = delete id s.routes }) d
          → P (ok tt, notify (record s { routes = delete id s.routes; disk = d })))
      → ((d : Disk) (f : Failure) (backup : Route)
          → lookup id s.routes ≡ some backup
          → d.main ≡ s.disk.main
          → P (err f, record s { routes = insert id backup (delete id s.routes); disk = d }))
      → P (delete_route io s id)
  unfolding delete_route
  delete_route-ends id refused done failed = elim (Option-cases (lookup id s.routes)) [
    | inl e ↦ rw (e, delete_route) (refused not_found)
    | inr (b, e) ↦
        rw (e, delete_route)
          (commit-ends P io _ _ _ (λ d w. done d b e w) (λ d f w. failed d f b e w))
  ]
