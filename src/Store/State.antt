-- ===== src/Store/State.antt =====
-- internal/store/store.go: the Store struct, its file and its listeners.
-- Each method takes the state and returns the next one: the store's mutex makes a method one step.
-- API keys are shared between two maps, so they stand in cells that the maps point to. Routes,
-- upstreams and policies have one owner each, and are held by value.
use helix_gateway.Base.{
  ℕ, suc, Text, is_empty, Bool, true, false, List, [], ◌∷◌, ◌++◌, map, Option, none, some, Table,
  lookup, ◌≡◌, insert, values, if◌then◌else◌, ◌==◌,
}
use helix_gateway.Store.Model.{Route, Upstream, IpPolicy, ApiKey, Snapshot}

pub data Failure : Type 0 where
  not_found conflict in_use hash_required : Failure
  upstream_not_found : Text → Failure
  marshal_failed write_failed rename_failed read_failed parse_failed : Failure

-- errors.Is(err, ErrNotFound): the wrapped error of an unknown upstream counts.
unfoldable pub is_not_found : Failure → Bool
is_not_found not_found = true
is_not_found (upstream_not_found id) = true
is_not_found _ = false

pub data Result {ℓ} (A : Type ℓ) : Type ℓ where
  ok : A → Result A
  err : Failure → Result A

-- The configuration file and the temporary file beside it.
pub record Disk : Type 0 where
  pub main : Option Text
  pub tmp : Option Text

-- What one call takes from outside: a new identifier, the clock, and how encoding/json and the
-- file system answer.
pub record Io : Type 0 where
  pub uuid : Text
  pub now : ℕ
  pub marshal : Snapshot → Option Text
  pub unmarshal : Text → Option Snapshot
  pub write_ok : Bool
  pub partial : Option Text
  pub rename_ok : Bool
  pub read_ok : Bool

pub record Store : Type 0 where
  pub routes : Table Route
  pub upstreams : Table Upstream
  pub policies : Table IpPolicy
  pub api_keys : Table ℕ
  pub hash_index : Table ℕ
  pub cell : ℕ → ApiKey
  pub next_cell : ℕ
  pub file_path : Text
  pub disk : Disk
  pub listeners : List ℕ
  pub spawned : List ℕ

-- *p = k
unfoldable pub update : (ℕ → ApiKey) → ℕ → ApiKey → ℕ → ApiKey
update f p k q = if p == q then k else f q

-- OnChange
unfoldable pub on_change : Store → ℕ → Store
on_change s fn = record s { listeners = s.listeners ++ fn ∷ [] }

-- notify: one goroutine for each listener
unfoldable pub notify : Store → Store
notify s = record s { spawned = s.spawned ++ s.listeners }

-- Export
unfoldable pub export : Store → Snapshot
unfolding values
export s = record {
  version = 1;
  routes = values s.routes;
  upstreams = values s.upstreams;
  ip_policies = values s.policies;
  api_keys = map s.cell (values s.api_keys);
}

-- os.WriteFile of the temporary file, then os.Rename over the configuration file
unfoldable pub write_config : Io → Text → Disk → Option Failure × Disk
write_config io bytes d =
    if io.write_ok
    then (if io.rename_ok
        then (none, record d { main = some bytes; tmp = none })
        else (some rename_failed, record d { tmp = some bytes }))
    else (some write_failed, record d { tmp = io.partial })

-- persist
unfoldable pub persist : Io → Store → Option Failure × Store
unfolding export write_config
persist io s = if is_empty s.file_path then (none, s) else elim (io.marshal (export s)) [
  | none ↦ (some marshal_failed, s)
  | some bytes ↦ (let (e, d) = write_config io bytes s.disk in (e, record s { disk = d }))
]

unfoldable pub load_routes : List Route → Table Route → Table Route
load_routes [] m = m
load_routes (r ∷ rs) m = load_routes rs (insert r.id r m)

unfoldable pub load_upstreams : List Upstream → Table Upstream → Table Upstream
load_upstreams [] m = m
load_upstreams (u ∷ us) m = load_upstreams us (insert u.id u m)

unfoldable pub load_policies : List IpPolicy → Table IpPolicy → Table IpPolicy
load_policies [] m = m
load_policies (p ∷ ps) m = load_policies ps (insert p.id p m)

-- One key of the file: a new cell, and both maps point to it.
unfoldable pub load_key : ApiKey → Store → Store
unfolding update
load_key k s = record s {
  api_keys = insert k.id s.next_cell s.api_keys;
  hash_index =
      if is_empty k.key_hash then s.hash_index else insert k.key_hash s.next_cell s.hash_index;
  cell = update s.cell s.next_cell k;
  next_cell = suc s.next_cell;
}

unfoldable pub load_keys : List ApiKey → Store → Store
load_keys [] s = s
load_keys (k ∷ ks) s = load_keys ks (load_key k s)

unfoldable pub load_snapshot : Snapshot → Store → Store
unfolding load_routes load_upstreams load_policies load_keys load_key
load_snapshot snap s = load_keys snap.api_keys (record s {
  routes = load_routes snap.routes s.routes;
  upstreams = load_upstreams snap.upstreams s.upstreams;
  policies = load_policies snap.ip_policies s.policies;
})

abbrev pub no_key : ApiKey
no_key = record {
  id = [];
  name = [];
  key_hash = [];
  active = false;
  scopes = [];
  created_at = 0;
  updated_at = 0;
}

abbrev pub empty : Text → Disk → Store
empty file_path disk = record {
  routes = [];
  upstreams = [];
  policies = [];
  api_keys = [];
  hash_index = [];
  cell = λ _. no_key;
  next_cell = 0;
  file_path = file_path;
  disk = disk;
  listeners = [];
  spawned = [];
}

-- New, with load: a missing file gives the empty store.
unfoldable pub new : Io → Text → Disk → Result Store
unfolding load_snapshot
new io file_path disk = if is_empty file_path then ok (empty file_path disk) else elim disk.main [
  | none ↦ ok (empty file_path disk)
  | some bytes ↦
      (if io.read_ok
        then elim (io.unmarshal bytes) [
          | none ↦ err parse_failed
          | some snap ↦ ok (load_snapshot snap (empty file_path disk))
        ]
        else err read_failed)
]

-- The end that the changing methods share: persist, take the change back on an error, notify.
unfoldable pub commit {ℓ} : {A : Type ℓ} → Io → Store → A → (Store → Store) → Result A × Store
unfolding persist notify
commit io s a undo =
    let (e, s') = persist io s in elim e [ none ↦ (ok a, notify s') | some f ↦ (err f, undo s') ]

-- The identifier that this call draws is new to every map, as random UUIDs are.
pub record IsFresh (io : Io) (s : Store) : Type 0 where
  pub new_route : lookup io.uuid s.routes ≡ none
  pub new_upstream : lookup io.uuid s.upstreams ≡ none
  pub new_policy : lookup io.uuid s.policies ≡ none
  pub new_key : lookup io.uuid s.api_keys ≡ none
