-- ===== src/Store/Keys.antt =====
-- internal/store/store.go: API keys. A key's cell is shared by the map of identifiers and the map
-- of hashes, and the pointer that `create_api_key` returns is that cell.
pub mod Ends
pub mod Validity
use helix_gateway.Base.{
  ℕ, suc, Text, text_eq, is_empty, Bool, List, [], map, Option, none, some, any, lookup, insert,
  delete, values, if◌then◌else◌,
}
use helix_gateway.Store.Model.{ApiKey}
use helix_gateway.Store.State.{
  Store, Io, Result, ok, err, not_found, conflict, hash_required, persist, update,
}

-- cp.KeyHash = ""
abbrev pub hide_hash : ApiKey → ApiKey
hide_hash k = record k { key_hash = [] }

-- ListAPIKeys
unfoldable pub list_api_keys : Store → List ApiKey
list_api_keys s = map (λ p. hide_hash (s.cell p)) (values s.api_keys)

-- GetAPIKey
unfoldable pub get_api_key : Store → Text → Result ApiKey
get_api_key s id = elim (lookup id s.api_keys) [
  | none ↦ err not_found
  | some p ↦ ok (hide_hash (s.cell p))
]

-- The loop that looks for another key of the same name.
abbrev pub key_name_taken : Text → Store → Bool
key_name_taken name s = any (λ e. text_eq (s.cell e.1).name name) s.api_keys

-- The record that a creation stores.
abbrev pub stamped_key : Io → ApiKey → ApiKey
stamped_key io k = record k { id = io.uuid; created_at = io.now; updated_at = io.now }

-- The store as a creation writes it: a new cell, with both maps pointing to it.
abbrev pub with_key : Io → Store → ApiKey → Store
with_key io s k = record s {
  api_keys = insert io.uuid s.next_cell s.api_keys;
  hash_index = insert k.key_hash s.next_cell s.hash_index;
  cell = update s.cell s.next_cell (stamped_key io k);
  next_cell = suc s.next_cell;
}

-- The store as a deletion writes it.
abbrev pub without_key : Store → Text → ℕ → Store
without_key s id p = record s {
  hash_index = delete (s.cell p).key_hash s.hash_index;
  api_keys = delete id s.api_keys;
}

-- The record that a toggle writes.
abbrev pub toggled_key : Io → ApiKey → Bool → ApiKey
toggled_key io k active = record k { active = active; updated_at = io.now }

-- CreateAPIKey: after the write, the hash is erased through the pointer that both maps hold.
unfoldable pub create_api_key : Io → Store → ApiKey → Result ApiKey × Store
create_api_key io s k =
    if key_name_taken k.name s
    then (err conflict, s)
    else if is_empty k.key_hash
    then (err hash_required, s)
    else (let (e, t) = persist io (with_key io s k) in
        elim e [
          | none ↦ (
            ok (hide_hash (stamped_key io k)),
            record t { cell = update t.cell s.next_cell (hide_hash (stamped_key io k)) },
          )
          | some f ↦ (
            err f,
            record t {
              api_keys = delete io.uuid t.api_keys;
              hash_index = delete k.key_hash t.hash_index;
            },
          )
        ])

-- DeleteAPIKey
unfoldable pub delete_api_key : Io → Store → Text → Result (Unit {0}) × Store
delete_api_key io s id = elim (lookup id s.api_keys) [
  | none ↦ (err not_found, s)
  | some p ↦
      (let (e, t) = persist io (without_key s id p) in
        elim e [
          | none ↦ (ok tt, t)
          | some f ↦ (
            err f,
            record t {
              api_keys = insert id p t.api_keys;
              hash_index = insert (s.cell p).key_hash p t.hash_index;
            },
          )
        ])
]

-- ToggleAPIKey: the key is changed in place, and a failed write leaves the change.
unfoldable pub toggle_api_key : Io → Store → Text → Bool → Result ApiKey × Store
toggle_api_key io s id active = elim (lookup id s.api_keys) [
  | none ↦ (err not_found, s)
  | some p ↦
      (let k = toggled_key io (s.cell p) active in
        let (e, t) = persist io (record s { cell = update s.cell p k }) in
        elim e [ none ↦ (ok (hide_hash k), t) | some f ↦ (err f, t) ])
]

-- ValidateAPIKey, over hashKey: the hex digest of crypto/sha256
unfoldable pub validate_api_key : (Text → Text) → Store → Text → Option ApiKey
validate_api_key hash_key s plaintext = elim (lookup (hash_key plaintext) s.hash_index) [
  | none ↦ none
  | some p ↦ (if (s.cell p).active then some (hide_hash (s.cell p)) else none)
]
