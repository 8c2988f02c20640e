-- ===== src/Store/Keys/Ends.antt =====
-- How the calls on API keys can end.
use helix_gateway.Base.{
  ℕ, Text, is_empty, Bool, false, none, some, inl, inr, ◌≡◌, lookup, insert, delete, Option-cases,
  Bool-cases,
}
use helix_gateway.Store.Model.{ApiKey}
use helix_gateway.Store.State.{
  Store, Io, Disk, Failure, Result, ok, err, update, not_found, conflict, hash_required,
}
use helix_gateway.Store.Commit.{persist-ends, Written}
use helix_gateway.Store.Keys.{
  hide_hash, key_name_taken, stamped_key, with_key, without_key, toggled_key, create_api_key,
  delete_api_key, toggle_api_key,
}

module _ {κ} (P : Result ApiKey × Store → Type κ) (io : Io) (s : Store) where
  pub create_api_key-ends :
      (k : ApiKey)
      → ((f : Failure) → P (err f, s))
      → ((d : Disk)
          → key_name_taken k.name s ≡ false
          → is_empty k.key_hash ≡ false
          → Written io (with_key io s k) d
          → P (
            ok (hide_hash (stamped_key io k)),
            record (with_key io s k) {
              cell = update (with_key io s k).cell s.next_cell (hide_hash (stamped_key io k));
              disk = d;
            },
          ))
      → ((d : Disk) (f : Failure)
          → d.main ≡ s.disk.main
          → P (
            err f,
            record (with_key io s k) {
              api_keys = delete io.uuid (with_key io s k).api_keys;
              hash_index = delete k.key_hash (with_key io s k).hash_index;
              disk = d;
            },
          ))
      → P (create_api_key io s k)
  unfolding create_api_key
  create_api_key-ends k refused done failed = elim (Bool-cases (key_name_taken k.name s)) [
    | inl taken ↦ rw taken (refused conflict)
    | inr free ↦ rw free (elim (Bool-cases (is_empty k.key_hash)) [
      | inl bare ↦ rw bare (refused hash_required)
      | inr hashed ↦ rw hashed (
          persist-ends
            (λ p. P (elim p.0 [
              | none ↦ (
                ok (hide_hash (stamped_key io k)),
                record p.1 { cell = update p.1.cell s.next_cell (hide_hash (stamped_key io k)) },
              )
              | some f ↦ (
                err f,
                record p.1 {
                  api_keys = delete io.uuid p.1.api_keys;
                  hash_index = delete k.key_hash p.1.hash_index;
                },
              )
            ]))
            io (with_key io s k) (λ d w. done d free hashed w) failed)
    ])
  ]

  pub toggle_api_key-ends :
      (id : Text) (active : Bool)
      → ((f : Failure) → P (err f, s))
      → ((d : Disk) (p : ℕ)
          → lookup id s.api_keys ≡ some p
          → P (
            ok (hide_hash (toggled_key io (s.cell p) active)),
            record s { cell = update s.cell p (toggled_key io (s.cell p) active); disk = d },
          ))
      → ((d : Disk) (f : Failure) (p : ℕ)
          → lookup id s.api_keys ≡ some p
          → P (
            err f,
            record s { cell = update s.cell p (toggled_key io (s.cell p) active); disk = d },
          ))
      → P (toggle_api_key io s id active)
  unfolding toggle_api_key
  toggle_api_key-ends id active refused done failed = elim (Option-cases (lookup id s.api_keys)) [
    | inl e ↦ rw (e, toggle_api_key) (refused not_found)
    | inr (p, e) ↦
        rw (e, toggle_api_key)
          (persist-ends
            (λ q. P (elim q.0 [
              | none ↦ (ok (hide_hash (toggled_key io (s.cell p) active)), q.1)
              | some f ↦ (err f, q.1)
            ]))
            io (record s { cell = update s.cell p (toggled_key io (s.cell p) active) })
            (λ d w. done d p e) (λ d f m. failed d f p e))
  ]

module _ {κ} (P : Result (Unit {0}) × Store → Type κ) (io : Io) (s : Store) where
  pub delete_api_key-ends :
      (id : Text)
      → ((f : Failure) → P (err f, s))
      → ((d : Disk) (p : ℕ)
          → lookup id s.api_keys ≡ some p
          → P (ok tt, record (without_key s id p) { disk = d }))
      → ((d : Disk) (f : Failure) (p : ℕ)
          → lookup id s.api_keys ≡ some p
          → P (
            err f,
            record (without_key s id p) {
              api_keys = insert id p (without_key s id p).api_keys;
              hash_index = insert (s.cell p).key_hash p (without_key s id p).hash_index;
              disk = d;
            },
          ))
      → P (delete_api_key io s id)
  unfolding delete_api_key
  delete_api_key-ends id refused done failed = elim (Option-cases (lookup id s.api_keys)) [
    | inl e ↦ rw (e, delete_api_key) (refused not_found)
    | inr (p, e) ↦
        rw (e, delete_api_key)
          (persist-ends
            (λ q. P (elim q.0 [
              | none ↦ (ok tt, q.1)
              | some f ↦ (
                err f,
                record q.1 {
                  api_keys = insert id p q.1.api_keys;
                  hash_index = insert (s.cell p).key_hash p q.1.hash_index;
                },
              )
            ]))
            io (without_key s id p) (λ d w. done d p e) (λ d f m. failed d f p e))
  ]
