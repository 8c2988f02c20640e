-- ===== src/Store/Restart.antt =====
-- A restart: `new` reads the configuration file that the last successful call wrote.
use mathlib.Core.Path.{subst}
use helix_gateway.Base.{
  if◌then◌else◌, if◌then◌else◌, Text, text_eq_iff, is_empty, false, true, List, [], ◌∷◌, none, some,
  ◌≡◌, refl, ◌∙◌, arith, Option, Table, lookup, insert, values, lookup-insert, SameTable, Keyed,
}
use helix_gateway.Store.Model.{Snapshot, Route, Upstream, IpPolicy, ApiKey}
use helix_gateway.Store.State.{
  Store, Io, Disk, Result, ok, err, export, load_routes, load_upstreams, load_policies, load_keys,
  load_key, load_snapshot, empty, parse_failed, read_failed, new,
}
use helix_gateway.Store.Calls.{Call, exec}
use helix_gateway.Store.Outcomes.{exec-Announced, Announced}
use helix_gateway.Store.Keying.{IsKeyed, exec-IsKeyed}

lookup-load_routes :
    (m acc : Table Route) (k : Text)
    → Keyed (λ x. x.id) m
    → lookup k (load_routes (values m) acc)
      ≡ (elim (lookup k m) [ some v ↦ some v | none ↦ lookup k acc ])
unfolding load_routes values lookup
lookup-load_routes [] acc k h = refl
lookup-load_routes ((j, v) ∷ m) acc k h = ground (
  arith,
  text_eq_iff j k,
  text_eq_iff v.id k,
  lookup-insert v.id k v acc,
  lookup-load_routes m (insert v.id v acc) k h.2,
)

lookup-load_upstreams :
    (m acc : Table Upstream) (k : Text)
    → Keyed (λ x. x.id) m
    → lookup k (load_upstreams (values m) acc)
      ≡ (elim (lookup k m) [ some v ↦ some v | none ↦ lookup k acc ])
unfolding load_upstreams values lookup
lookup-load_upstreams [] acc k h = refl
lookup-load_upstreams ((j, v) ∷ m) acc k h = ground (
  arith,
  text_eq_iff j k,
  text_eq_iff v.id k,
  lookup-insert v.id k v acc,
  lookup-load_upstreams m (insert v.id v acc) k h.2,
)

lookup-load_policies :
    (m acc : Table IpPolicy) (k : Text)
    → Keyed (λ x. x.id) m
    → lookup k (load_policies (values m) acc)
      ≡ (elim (lookup k m) [ some v ↦ some v | none ↦ lookup k acc ])
unfolding load_policies values lookup
lookup-load_policies [] acc k h = refl
lookup-load_policies ((j, v) ∷ m) acc k h = ground (
  arith,
  text_eq_iff j k,
  text_eq_iff v.id k,
  lookup-insert v.id k v acc,
  lookup-load_policies m (insert v.id v acc) k h.2,
)

-- Loading keys leaves the three tables of configuration alone.
load_keys-tables :
    (ks : List ApiKey) (s : Store)
    → ((load_keys ks s).routes ≡ s.routes)
      × ((load_keys ks s).upstreams ≡ s.upstreams)
      × ((load_keys ks s).policies ≡ s.policies)
unfolding load_keys load_key
load_keys-tables [] s = (refl, refl, refl)
load_keys-tables (k ∷ ks) s = load_keys-tables ks (load_key k s)

-- What a restarted store has in common with the one that was written.
pub record SameConfig (s t : Store) : Type 0 where
  pub routes : SameTable s.routes t.routes
  pub upstreams : SameTable s.upstreams t.upstreams
  pub policies : SameTable s.policies t.policies

found_again {ℓ} :
    {V : Type ℓ} (o p : Option V) → p ≡ (elim o [ some v ↦ some v | none ↦ none ]) → p ≡ o
found_again none p e = e
found_again (some v) p e = e

load-export :
    (s : Store) (path : Text) (d : Disk)
    → IsKeyed s
    → SameConfig (load_snapshot (export s) (empty path d)) s
unfolding load_snapshot export lookup
load-export s path d h =
    let kept = load_keys-tables (export s).api_keys (record (empty path d) {
      routes = load_routes (values s.routes) [];
      upstreams = load_upstreams (values s.upstreams) [];
      policies = load_policies (values s.policies) [];
    }) in
    record {
      routes = record {
        at_key = λ k.
            rw kept.0
              (found_again (lookup k s.routes) _ (lookup-load_routes s.routes [] k h.routes));
      };
      upstreams = record {
        at_key = λ k. rw kept.1 (
            found_again (lookup k s.upstreams) _
              (lookup-load_upstreams s.upstreams [] k h.upstreams));
      };
      policies = record {
        at_key = λ k.
            rw kept.2 (
              found_again (lookup k s.policies) _
                (lookup-load_policies s.policies [] k h.policies));
      };
    }

-- The file is there and can be read.
elim_main :
    (k : Text → Result Store) (io : Io) (d : Disk) (bytes : Text) (empty_store : Result Store)
    → d.main ≡ some bytes
    → io.read_ok ≡ true
    → (elim d.main [ none ↦ empty_store | some b ↦ (if io.read_ok then k b else err read_failed) ])
      ≡ k bytes
elim_main k io d bytes empty_store main readable = ground arith

new_found :
    (io : Io) (path : Text) (d : Disk) (bytes : Text) (snap : Snapshot)
    → is_empty path ≡ false
    → d.main ≡ some bytes
    → io.read_ok ≡ true
    → io.unmarshal bytes ≡ some snap
    → new io path d ≡ ok (load_snapshot snap (empty path d))
unfolding new
new_found io path d bytes snap file main readable dec =
    rw (file, new)
      (elim_main
          (λ b. elim (io.unmarshal b) [
            | none ↦ err parse_failed
            | some x ↦ ok (load_snapshot x (empty path d))
          ])
          io d bytes (ok (empty path d)) main readable
        ∙ rw dec)

-- A restart after a successful call finds every route, upstream and IP policy that the call left
-- in memory, and no other. A file is configured, the records stand under their identifiers, the
-- file can be read, and decoding gives back what was encoded.
pub new-exec :
    (io io' : Io) (s t : Store) (c : Call) (bytes : Text)
    → exec io s c ≡ (ok tt, t)
    → IsKeyed s
    → is_empty s.file_path ≡ false
    → io.marshal (export t) ≡ some bytes
    → io'.unmarshal bytes ≡ some (export t)
    → io'.read_ok ≡ true
    → (u : Store) × (new io' s.file_path t.disk ≡ ok u) × SameConfig u t
new-exec io io' s t c bytes done h file enc dec readable =
    let written = subst (Announced io s) done (exec-Announced io s c) in
    let stored : t.disk.main ≡ io.marshal (export t) =
      subst (λ b. t.disk.main ≡ (if b then s.disk.main else io.marshal (export t))) file
        written.1 in
    let after = subst (λ p. IsKeyed p.1) done (exec-IsKeyed io s c h) in
    (
      load_snapshot (export t) (empty s.file_path t.disk),
      new_found io' s.file_path t.disk bytes (export t) file (stored ∙ enc) readable dec,
      load-export t s.file_path t.disk after,
    )
