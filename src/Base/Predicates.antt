-- ===== src/Base/Predicates.antt =====
-- Predicates on maps, stated by what a key finds, and how insertion and deletion keep them.
use mathlib.Core.Path.{◌≡◌, refl, sym, ◌∙◌, ap, subst}
use mathlib.Core.Logic.{◌⊎◌, inl, inr}
use mathlib.Core.Bool.{false}
use mathlib.Core.Option.{none, some}
use native.Mathlib.Omega.{arith}
use helix_gateway.Base.Strings.{Text, text_eq, text_eq_iff}
use helix_gateway.Base.Tables.{Table, lookup, insert, delete, lookup-insert, lookup-delete}

-- The entry that an insertion lets a key find.
lookup-insert-cases {ℓ} :
    {V : Type ℓ} (k j : Text) (v w : V) (m : Table V)
    → lookup j (insert k v m) ≡ some w
    → ((k ≡ j) × (v ≡ w)) ⊎ ((text_eq k j ≡ false) × (lookup j m ≡ some w))
lookup-insert-cases k j v w m e = ground (arith, lookup-insert k j v m, text_eq_iff k j)

lookup-delete-cases {ℓ} :
    {V : Type ℓ} (k j : Text) (w : V) (m : Table V)
    → lookup j (delete k m) ≡ some w
    → (text_eq k j ≡ false) × (lookup j m ≡ some w)
lookup-delete-cases k j w m e = ground (arith, lookup-delete k j m)

-- Every entry of `m` is one of `n`.
pub record Within {ℓ} {V : Type ℓ} (m n : Table V) : Type ℓ where
  pub at_key : (k : Text) (v : V) → lookup k m ≡ some v → lookup k n ≡ some v

-- The same map, whatever the order of its entries.
pub record SameTable {ℓ} {V : Type ℓ} (m n : Table V) : Type ℓ where
  pub at_key : (k : Text) → lookup k m ≡ lookup k n

-- Every value satisfies P.
pub record Each {ℓ κ} {V : Type ℓ} (P : V → Type κ) (m : Table V) : Type (ℓ ⊔ κ) where
  pub at_key : (k : Text) (v : V) → lookup k m ≡ some v → P v

-- Two values of one name stand under one key.
pub record UniqueNames {ℓ} {V : Type ℓ} (name : V → Text) (m : Table V) : Type ℓ where
  pub at_keys :
      (i j : Text) (a b : V) → lookup i m ≡ some a → lookup j m ≡ some b → name a ≡ name b → i ≡ j

module _ {ℓ} {V : Type ℓ} where
  pub SameTable-refl : (m : Table V) → SameTable m m
  SameTable-refl m = record { at_key = λ k. refl }

  pub SameTable-Within : {m n : Table V} → SameTable m n → Within m n
  SameTable-Within h = record { at_key = λ k v e. sym (h.at_key k) ∙ e }

  pub delete-insert-Within : (k : Text) (v : V) (m : Table V) → Within (delete k (insert k v m)) m
  delete-insert-Within k v m = record {
    at_key = λ j w e. ground (arith, lookup-delete k j (insert k v m), lookup-insert k j v m);
  }

  -- Deleting a new key undoes its insertion.
  pub delete-insert-SameTable :
      (k : Text) (v : V) (m : Table V) → lookup k m ≡ none → SameTable (delete k (insert k v m)) m
  delete-insert-SameTable k v m h = record {
    at_key = λ j.
        ground (arith, lookup-delete k j (insert k v m), lookup-insert k j v m, text_eq_iff k j);
  }

  -- Writing the old value back undoes an overwriting.
  pub insert-insert-SameTable :
      (k : Text) (v w : V) (m : Table V)
      → lookup k m ≡ some v
      → SameTable (insert k v (insert k w m)) m
  insert-insert-SameTable k v w m h = record {
    at_key = λ j.
        ground (arith, lookup-insert k j v (insert k w m), lookup-insert k j w m, text_eq_iff k j);
  }

  -- Writing the old value back undoes a deletion.
  pub insert-delete-SameTable :
      (k : Text) (v : V) (m : Table V) → lookup k m ≡ some v → SameTable (insert k v (delete k m)) m
  insert-delete-SameTable k v m h = record {
    at_key =
        λ j. ground (arith, lookup-insert k j v (delete k m), lookup-delete k j m, text_eq_iff k j);
  }

  pub delete-Within : (k : Text) (m : Table V) → Within (delete k m) m
  delete-Within k m = record { at_key = λ j w e. (lookup-delete-cases k j w m e).1 }

module _ {ℓ κ} {V : Type ℓ} {P : V → Type κ} where
  pub Each-Within : {m n : Table V} → Within m n → Each P n → Each P m
  Each-Within w h = record { at_key = λ k v e. h.at_key k v (w.at_key k v e) }

  pub Each-insert : (k : Text) (v : V) (m : Table V) → P v → Each P m → Each P (insert k v m)
  Each-insert k v m p h = record {
    at_key = λ j w e. elim (lookup-insert-cases k j v w m e) [
      | inl (same, found) ↦ subst P found p
      | inr (other, old) ↦ h.at_key j w old
    ];
  }

module _ {ℓ} {V : Type ℓ} {name : V → Text} where
  pub UniqueNames-Within : {m n : Table V} → Within m n → UniqueNames name n → UniqueNames name m
  UniqueNames-Within w h = record {
    at_keys = λ i j a b ei ej. h.at_keys i j a b (w.at_key i a ei) (w.at_key j b ej);
  }

  -- A value may be written under a key if no other key has its name.
  pub UniqueNames-insert :
      (k : Text) (v : V) (m : Table V)
      → ((j : Text) (b : V) → lookup j m ≡ some b → name b ≡ name v → j ≡ k)
      → UniqueNames name m
      → UniqueNames name (insert k v m)
  UniqueNames-insert k v m free h = record {
    at_keys = λ i j a b ei ej e. elim (lookup-insert-cases k i v a m ei) [
      | inl (ki, va) ↦ (elim (lookup-insert-cases k j v b m ej) [
        | inl (kj, vb) ↦ sym ki ∙ kj
        | inr (oj, lj) ↦ sym ki ∙ sym (free j b lj (sym e ∙ sym (ap name va)))
      ])
      | inr (oi, li) ↦ (elim (lookup-insert-cases k j v b m ej) [
        | inl (kj, vb) ↦ free i a li (e ∙ sym (ap name vb)) ∙ kj
        | inr (oj, lj) ↦ h.at_keys i j a b li lj e
      ])
    ];
  }
