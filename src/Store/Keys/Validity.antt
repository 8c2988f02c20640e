-- ===== src/Store/Keys/Validity.antt =====
-- Which keys `validate_api_key` accepts after the calls that should decide it.
use mathlib.Core.Path.{subst, ap}
use helix_gateway.Base.{
  ℕ, Text, Table, ◌∷◌, text_eq_iff, is_empty, Bool, true, false, none, some, ◌≡◌, refl, sym, ◌∙◌,
  [], lookup, insert, delete, lookup-insert_self, lookup-delete, arith, if◌then◌else◌,
}
use helix_gateway.Store.Model.{ApiKey}
use helix_gateway.Store.State.{Store, Io, Result, ok, err, update}
use helix_gateway.Store.Keys.{
  hide_hash, stamped_key, toggled_key, create_api_key, delete_api_key, toggle_api_key,
  validate_api_key,
}
use helix_gateway.Store.Keys.Ends.{create_api_key-ends, delete_api_key-ends, toggle_api_key-ends}

update_self : (f : ℕ → ApiKey) (p : ℕ) (k : ApiKey) → update f p k p ≡ k
unfolding update
update_self f p k = ground arith

-- What a successful creation leaves: one cell, found by identifier and by hash, that holds the
-- returned key, its hash erased.
abbrev Created : Io → Store → ApiKey → Result ApiKey × Store → Type 0
Created io s k (ok c, t) =
    (c ≡ hide_hash (stamped_key io k))
    × (is_empty k.key_hash ≡ false)
    × (lookup c.id t.api_keys ≡ some s.next_cell)
    × (t.hash_index ≡ insert k.key_hash s.next_cell s.hash_index)
    × (t.cell s.next_cell ≡ c)
Created io s k (err f, t) = Unit {0}

create_api_key-Created : (io : Io) (s : Store) (k : ApiKey) → Created io s k (create_api_key io s k)
create_api_key-Created io s k =
    create_api_key-ends (Created io s k) io s k (λ f. tt)
      (λ d free hashed w. (
        refl,
        hashed,
        lookup-insert_self io.uuid s.next_cell s.api_keys,
        refl,
        update_self _ s.next_cell _,
      ))
      (λ d f m. tt)

-- What a successful deletion leaves: the cells, and an index without the hash in the key's cell.
abbrev Deleted : Store → Text → Result (Unit {0}) × Store → Type 0
Deleted s id (ok a, u) =
    (p : ℕ) × (lookup id s.api_keys ≡ some p)
    × (u.hash_index ≡ delete (s.cell p).key_hash s.hash_index)
    × (u.cell ≡ s.cell)
Deleted s id (err f, u) = Unit {0}

delete_api_key-Deleted : (io : Io) (s : Store) (id : Text) → Deleted s id (delete_api_key io s id)
delete_api_key-Deleted io s id =
    delete_api_key-ends (Deleted s id) io s id (λ f. tt) (λ d p e. (p, e, refl, refl))
      (λ d f p e. tt)

validate_found :
    (hash_key : Text → Text) (s : Store) (plaintext : Text) (p : ℕ)
    → lookup (hash_key plaintext) s.hash_index ≡ some p
    → validate_api_key hash_key s plaintext
      ≡ (if (s.cell p).active then some (hide_hash (s.cell p)) else none)
unfolding validate_api_key
validate_found hash_key s plaintext p e = rw (e, validate_api_key)

-- The returned key is the one in the cell.
validate_cell :
    (hash_key : Text → Text) (io : Io) (s u : Store) (k created : ApiKey) (plaintext : Text)
    → created ≡ hide_hash (stamped_key io k)
    → u.cell s.next_cell ≡ created
    → lookup (hash_key plaintext) u.hash_index ≡ some s.next_cell
    → validate_api_key hash_key u plaintext ≡ (if k.active then some created else none)
validate_cell hash_key io s u k created plaintext hidden held found =
    validate_found hash_key u plaintext s.next_cell found ∙ rw (held, hidden)

-- After a successful creation, a text whose hash is the key's is accepted exactly if the key was
-- created as active, and the answer is the key that was returned.
pub validate-create :
    (hash_key : Text → Text) (io : Io) (s t : Store) (k created : ApiKey) (plaintext : Text)
    → create_api_key io s k ≡ (ok created, t)
    → hash_key plaintext ≡ k.key_hash
    → validate_api_key hash_key t plaintext ≡ (if k.active then some created else none)
validate-create hash_key io s t k created plaintext made same =
    let c = subst (Created io s k) made (create_api_key-Created io s k) in
    validate_cell hash_key io s t k created plaintext c.0 c.4
      (rw (same, c.3) (lookup-insert_self k.key_hash s.next_cell s.hash_index))

-- A deletion of the empty hash finds nothing to delete.
lookup-delete_empty :
    {V : Type 0} (h : Text) (m : Table V) → is_empty h ≡ false → lookup h (delete [] m) ≡ lookup h m
lookup-delete_empty [] m e = cc
lookup-delete_empty (c ∷ h) m e = ground (arith, lookup-delete [] (c ∷ h) m, text_eq_iff [] (c ∷ h))

erased_lem :
    (t : Store) (created : ApiKey) (io : Io) (k : ApiKey) (p n : ℕ)
    → some p ≡ some n
    → t.cell n ≡ created
    → created ≡ hide_hash (stamped_key io k)
    → (t.cell p).key_hash ≡ []
erased_lem t created io k p n same held hidden = let e : p ≡ n = cc in rw (e, held, hidden)

-- A successful deletion does not revoke the key: if a key is created as active and the next call
-- deletes it, both answering with success, a text whose hash is the key's is still accepted.
pub deleted_key_still_valid :
    (hash_key : Text → Text) (io io' : Io) (s t u : Store) (k created : ApiKey) (plaintext : Text)
    → create_api_key io s k ≡ (ok created, t)
    → delete_api_key io' t created.id ≡ (ok tt, u)
    → hash_key plaintext ≡ k.key_hash
    → k.active ≡ true
    → validate_api_key hash_key u plaintext ≡ some created
deleted_key_still_valid hash_key io io' s t u k created plaintext made gone same active =
    let c = subst (Created io s k) made (create_api_key-Created io s k) in
    let g = subst (Deleted t created.id) gone (delete_api_key-Deleted io' t created.id) in
    let cell : some g.0 ≡ some s.next_cell = sym g.1 ∙ c.2 in
    let erased : (t.cell g.0).key_hash ≡ [] =
      erased_lem t created io k g.0 s.next_cell cell c.4 c.0 in
    let found : lookup (hash_key plaintext) u.hash_index ≡ some s.next_cell =
      rw (same, g.2, erased)
        (lookup-delete_empty k.key_hash t.hash_index c.1
          ∙ rw c.3 (lookup-insert_self k.key_hash s.next_cell s.hash_index)) in
    validate_cell hash_key io s u k created plaintext c.0 (rw g.3 c.4) found ∙ rw active

-- What a toggle leaves, whether the write succeeds or not.
abbrev Toggled : Store → Text → Bool → Result ApiKey × Store → Type 0
Toggled s id active (ok k, t) =
    (p : ℕ) × (lookup id s.api_keys ≡ some p)
    × (t.hash_index ≡ s.hash_index)
    × ((t.cell p).active ≡ active)
    × (hide_hash (t.cell p) ≡ k)
Toggled s id active (err f, t) = Unit {0}

toggle_api_key-Toggled :
    (io : Io) (s : Store) (id : Text) (active : Bool)
    → Toggled s id active (toggle_api_key io s id active)
toggle_api_key-Toggled io s id active =
    toggle_api_key-ends (Toggled s id active) io s id active (λ f. tt)
      (λ d p e. (
        p,
        e,
        refl,
        ap (λ k. k.active) (update_self s.cell p (toggled_key io (s.cell p) active)),
        ap hide_hash (update_self s.cell p (toggled_key io (s.cell p) active)),
      ))
      (λ d f p e. tt)

-- After a successful toggle of the key that a text's hash finds, the text is accepted exactly if
-- the key was switched on, and the answer is the key that the toggle returned.
validate-toggle :
    (hash_key : Text → Text) (io : Io) (s t : Store) (id plaintext : Text) (active : Bool)
    (k : ApiKey) (p : ℕ)
    → lookup id s.api_keys ≡ some p
    → lookup (hash_key plaintext) s.hash_index ≡ some p
    → toggle_api_key io s id active ≡ (ok k, t)
    → validate_api_key hash_key t plaintext ≡ (if active then some k else none)
validate-toggle hash_key io s t id plaintext active k p own hashed done =
    let g = subst (Toggled s id active) done (toggle_api_key-Toggled io s id active) in
    let e : p ≡ g.0 = cc (own, g.1) in
    validate_found hash_key t plaintext g.0
      (subst (λ q. lookup (hash_key plaintext) t.hash_index ≡ some q) e (rw g.2 hashed))
    ∙ (λ i. if g.3 i then some (g.4 i) else none)
