-- ===== src/Store/Names/Common.antt =====
-- The store with unique names, and the tests by which a call keeps names unique.
use helix_gateway.Base.{
  Text, text_eq, text_eq_iff, false, not, ◌&&◌, some, ◌≡◌, arith, any, any-lookup, Table, lookup,
  UniqueNames,
}
use helix_gateway.Store.State.{Store, Result}
use helix_gateway.Store.Calls.{status}

pub record HasUniqueNames (s : Store) : Type 0 where
  pub routes : UniqueNames (λ r. r.name) s.routes
  pub upstreams : UniqueNames (λ u. u.name) s.upstreams
  pub policies : UniqueNames (λ p. p.name) s.policies

abbrev pub After : {A : Type 0} → Result A × Store → Type 0
After p = HasUniqueNames (status p).1

module _ {V : Type 0} (name : V → Text) where
  -- The test of a creation: no entry has the name.
  pub free_name :
      (m : Table V) (k n : Text)
      → any (λ e. text_eq (name e.1) n) m ≡ false
      → (j : Text) (b : V) → lookup j m ≡ some b
      → name b ≡ n
      → j ≡ k
  free_name m k n h j b e same =
      ground (arith, any-lookup (λ e. text_eq (name e.1) n) m j b h e, text_eq_iff (name b) n)

  -- The test of an update: no entry under another key has the name.
  pub free_name_elsewhere :
      (m : Table V) (k n : Text)
      → any (λ e. text_eq (name e.1) n && not (text_eq e.0 k)) m ≡ false
      → (j : Text) (b : V) → lookup j m ≡ some b
      → name b ≡ n
      → j ≡ k
  free_name_elsewhere m k n h j b e same = ground (
    arith,
    any-lookup (λ e. text_eq (name e.1) n && not (text_eq e.0 k)) m j b h e,
    text_eq_iff (name b) n,
    text_eq_iff j k,
  )
