-- ===== src/Store/Outcomes.antt =====
-- What a call that fails, and a call that succeeds, leave behind.
use mathlib.Core.Path.{subst}
use helix_gateway.Base.{
  if◌then◌else◌, Text, is_empty, false, ◌++◌, none, ◌≡◌, refl, Table, lookup, SameTable,
  SameTable-refl, delete-insert-SameTable, insert-insert-SameTable, insert-delete-SameTable,
}
use helix_gateway.Store.State.{Store, Io, IsFresh, Disk, Failure, Result, ok, err, notify, export}
use helix_gateway.Store.Model.{Route, Upstream, IpPolicy}
use helix_gateway.Store.Routes.Ends.{
  create_route-ends, update_route-ends, delete_route-ends, toggle_route-ends,
}
use helix_gateway.Store.Upstreams.Ends.{
  create_upstream-ends, update_upstream-ends, delete_upstream-ends,
}
use helix_gateway.Store.Policies.Ends.{
  create_ip_policy-ends, update_ip_policy-ends, delete_ip_policy-ends, toggle_ip_policy-ends,
}
use helix_gateway.Store.Calls.{
  Call, creates_route, updates_route, deletes_route, toggles_route, creates_upstream,
  updates_upstream, deletes_upstream, creates_policy, updates_policy, deletes_policy,
  toggles_policy, exec, status, is_toggle,
}

-- The same memory: equal maps, keys, listeners and started goroutines. Only the disk may differ.
pub record SameMemory (s t : Store) : Type 0 where
  pub routes : SameTable s.routes t.routes
  pub upstreams : SameTable s.upstreams t.upstreams
  pub policies : SameTable s.policies t.policies
  pub api_keys : s.api_keys ≡ t.api_keys
  pub hash_index : s.hash_index ≡ t.hash_index
  pub cell : s.cell ≡ t.cell
  pub listeners : s.listeners ≡ t.listeners
  pub spawned : s.spawned ≡ t.spawned

-- If it failed, the memory is that of `s` and the configuration file is as it was.
abbrev RolledBack : {A : Type 0} → Store → Result A × Store → Type 0
RolledBack s (ok a, t) = Unit {0}
RolledBack s (err f, t) = SameMemory t s × (t.disk.main ≡ s.disk.main)

-- A success starts each listener once, and the file holds the new store; a failure starts none.
abbrev pub Announced : {A : Type 0} → Io → Store → Result A × Store → Type 0
Announced io s (ok a, t) =
    (t.spawned ≡ s.spawned ++ s.listeners)
    × (t.disk.main ≡ (if is_empty s.file_path then s.disk.main else io.marshal (export t)))
Announced io s (err f, t) = t.spawned ≡ s.spawned

module _ (s : Store) (d : Disk) where
  same_routes :
      (m : Table Route) → SameTable m s.routes → SameMemory (record s { routes = m; disk = d }) s
  same_routes m h = record {
    routes = h;
    upstreams = SameTable-refl s.upstreams;
    policies = SameTable-refl s.policies;
    api_keys = refl;
    hash_index = refl;
    cell = refl;
    listeners = refl;
    spawned = refl;
  }

  same_upstreams :
      (m : Table Upstream)
      → SameTable m s.upstreams
      → SameMemory (record s { upstreams = m; disk = d }) s
  same_upstreams m h = record {
    routes = SameTable-refl s.routes;
    upstreams = h;
    policies = SameTable-refl s.policies;
    api_keys = refl;
    hash_index = refl;
    cell = refl;
    listeners = refl;
    spawned = refl;
  }

  same_policies :
      (m : Table IpPolicy)
      → SameTable m s.policies
      → SameMemory (record s { policies = m; disk = d }) s
  same_policies m h = record {
    routes = SameTable-refl s.routes;
    upstreams = SameTable-refl s.upstreams;
    policies = h;
    api_keys = refl;
    hash_index = refl;
    cell = refl;
    listeners = refl;
    spawned = refl;
  }

unchanged : (s : Store) → SameMemory s s
unchanged s = same_routes s s.disk s.routes (SameTable-refl s.routes)

module _ (io : Io) (s : Store) where
  create_route-RolledBack :
      (x : Route) → lookup io.uuid s.routes ≡ none → RolledBack s (exec io s (creates_route x))
  unfolding exec
  create_route-RolledBack x fresh =
      create_route-ends (λ p. RolledBack s (status p)) io s x (λ f. (unchanged s, refl))
        (λ d free known w. tt)
        (λ d f m. (same_routes s d _ (delete-insert-SameTable io.uuid _ s.routes fresh), m))

  update_route-RolledBack : (id : Text) (x : Route) → RolledBack s (exec io s (updates_route id x))
  unfolding exec
  update_route-RolledBack id x =
      update_route-ends (λ p. RolledBack s (status p)) io s id x (λ f. (unchanged s, refl))
        (λ d old e free known w. tt)
        (λ d f old e m. (same_routes s d _ (insert-insert-SameTable id old _ s.routes e), m))

  delete_route-RolledBack : (id : Text) → RolledBack s (exec io s (deletes_route id))
  unfolding exec
  delete_route-RolledBack id =
      delete_route-ends (λ p. RolledBack s (status p)) io s id (λ f. (unchanged s, refl))
        (λ d old e w. tt)
        (λ d f old e m. (same_routes s d _ (insert-delete-SameTable id old s.routes e), m))

  create_upstream-RolledBack :
      (x : Upstream)
      → lookup io.uuid s.upstreams ≡ none
      → RolledBack s (exec io s (creates_upstream x))
  unfolding exec
  create_upstream-RolledBack x fresh =
      create_upstream-ends (λ p. RolledBack s (status p)) io s x (λ f. (unchanged s, refl))
        (λ d free w. tt)
        (λ d f m. (same_upstreams s d _ (delete-insert-SameTable io.uuid _ s.upstreams fresh), m))

  update_upstream-RolledBack :
      (id : Text) (x : Upstream) → RolledBack s (exec io s (updates_upstream id x))
  unfolding exec
  update_upstream-RolledBack id x =
      update_upstream-ends (λ p. RolledBack s (status p)) io s id x (λ f. (unchanged s, refl))
        (λ d old e free w. tt)
        (λ d f old e m. (same_upstreams s d _ (insert-insert-SameTable id old _ s.upstreams e), m))

  delete_upstream-RolledBack : (id : Text) → RolledBack s (exec io s (deletes_upstream id))
  unfolding exec
  delete_upstream-RolledBack id =
      delete_upstream-ends (λ p. RolledBack s (status p)) io s id (λ f. (unchanged s, refl))
        (λ d old e unused w. tt)
        (λ d f old e m. (same_upstreams s d _ (insert-delete-SameTable id old s.upstreams e), m))

  create_ip_policy-RolledBack :
      (x : IpPolicy)
      → lookup io.uuid s.policies ≡ none
      → RolledBack s (exec io s (creates_policy x))
  unfolding exec
  create_ip_policy-RolledBack x fresh =
      create_ip_policy-ends (λ p. RolledBack s (status p)) io s x (λ f. (unchanged s, refl))
        (λ d free w. tt)
        (λ d f m. (same_policies s d _ (delete-insert-SameTable io.uuid _ s.policies fresh), m))

  update_ip_policy-RolledBack :
      (id : Text) (x : IpPolicy) → RolledBack s (exec io s (updates_policy id x))
  unfolding exec
  update_ip_policy-RolledBack id x =
      update_ip_policy-ends (λ p. RolledBack s (status p)) io s id x (λ f. (unchanged s, refl))
        (λ d old e free w. tt)
        (λ d f old e m. (same_policies s d _ (insert-insert-SameTable id old _ s.policies e), m))

  delete_ip_policy-RolledBack : (id : Text) → RolledBack s (exec io s (deletes_policy id))
  unfolding exec
  delete_ip_policy-RolledBack id =
      delete_ip_policy-ends (λ p. RolledBack s (status p)) io s id (λ f. (unchanged s, refl))
        (λ d old e w. tt)
        (λ d f old e m. (same_policies s d _ (insert-delete-SameTable id old s.policies e), m))

exec-RolledBack :
    (io : Io) (s : Store) (c : Call)
    → IsFresh io s
    → is_toggle c ≡ false
    → RolledBack s (exec io s c)
unfolding is_toggle
exec-RolledBack io s (creates_route r) f n = create_route-RolledBack io s r f.new_route
exec-RolledBack io s (updates_route id r) f n = update_route-RolledBack io s id r
exec-RolledBack io s (deletes_route id) f n = delete_route-RolledBack io s id
exec-RolledBack io s (toggles_route id active) f n = cc
exec-RolledBack io s (creates_upstream u) f n = create_upstream-RolledBack io s u f.new_upstream
exec-RolledBack io s (updates_upstream id u) f n = update_upstream-RolledBack io s id u
exec-RolledBack io s (deletes_upstream id) f n = delete_upstream-RolledBack io s id
exec-RolledBack io s (creates_policy p) f n = create_ip_policy-RolledBack io s p f.new_policy
exec-RolledBack io s (updates_policy id p) f n = update_ip_policy-RolledBack io s id p
exec-RolledBack io s (deletes_policy id) f n = delete_ip_policy-RolledBack io s id
exec-RolledBack io s (toggles_policy id active) f n = cc

-- A call other than a toggle that fails leaves the memory as it was, up to the order of entries,
-- and the configuration file too. The identifier that the call draws is assumed new.
pub exec_failed :
    (io : Io) (s t : Store) (c : Call) (e : Failure)
    → IsFresh io s
    → is_toggle c ≡ false
    → exec io s c ≡ (err e, t)
    → SameMemory t s × (t.disk.main ≡ s.disk.main)
exec_failed io s t c e f n h = subst (RolledBack s) h (exec-RolledBack io s c f n)

-- Every call that succeeds starts each listener exactly once and, where a file is configured,
-- leaves in it the encoding of the store that it returns; every call that fails starts none.
pub exec-Announced : (io : Io) (s : Store) (c : Call) → Announced io s (exec io s c)
unfolding exec notify export
exec-Announced io s (creates_route r) =
    create_route-ends (λ p. Announced io s (status p)) io s r (λ f. refl)
      (λ d free known w. (refl, w)) (λ d f m. refl)
exec-Announced io s (updates_route id r) =
    update_route-ends (λ p. Announced io s (status p)) io s id r (λ f. refl)
      (λ d old e free known w. (refl, w)) (λ d f old e m. refl)
exec-Announced io s (deletes_route id) =
    delete_route-ends (λ p. Announced io s (status p)) io s id (λ f. refl) (λ d old e w. (refl, w))
      (λ d f old e m. refl)
exec-Announced io s (toggles_route id active) =
    toggle_route-ends (λ p. Announced io s (status p)) io s id active (λ f. refl)
      (λ d r e w. (refl, w)) (λ d f r e m. refl)
exec-Announced io s (creates_upstream u) =
    create_upstream-ends (λ p. Announced io s (status p)) io s u (λ f. refl) (λ d free w. (refl, w))
      (λ d f m. refl)
exec-Announced io s (updates_upstream id u) =
    update_upstream-ends (λ p. Announced io s (status p)) io s id u (λ f. refl)
      (λ d old e free w. (refl, w)) (λ d f old e m. refl)
exec-Announced io s (deletes_upstream id) =
    delete_upstream-ends (λ p. Announced io s (status p)) io s id (λ f. refl)
      (λ d old e unused w. (refl, w)) (λ d f old e m. refl)
exec-Announced io s (creates_policy p) =
    create_ip_policy-ends (λ p. Announced io s (status p)) io s p (λ f. refl)
      (λ d free w. (refl, w)) (λ d f m. refl)
exec-Announced io s (updates_policy id p) =
    update_ip_policy-ends (λ p. Announced io s (status p)) io s id p (λ f. refl)
      (λ d old e free w. (refl, w)) (λ d f old e m. refl)
exec-Announced io s (deletes_policy id) =
    delete_ip_policy-ends (λ p. Announced io s (status p)) io s id (λ f. refl)
      (λ d old e w. (refl, w)) (λ d f old e m. refl)
exec-Announced io s (toggles_policy id active) =
    toggle_ip_policy-ends (λ p. Announced io s (status p)) io s id active (λ f. refl)
      (λ d p e w. (refl, w)) (λ d f p e m. refl)
