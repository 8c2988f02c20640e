-- ===== src/Base/Tables.antt =====
-- Go maps with string keys, as association lists. The order of a list is one order in which
-- `range` may visit the map; no law below depends on it.
use mathlib.Core.Path.{◌≡◌, refl}
use mathlib.Core.Bool.{Bool, false}
use mathlib.Core.List.{List, [], ◌∷◌, map}
use mathlib.Core.Option.{Option, none, some}
use native.Mathlib.Omega.{arith}
use helix_gateway.Base.Tests.{if◌then◌else◌, is_some}
use helix_gateway.Base.Lists.{any}
use helix_gateway.Base.Strings.{Text, text_eq, text_eq_iff, text_eq_refl}

abbrev pub Table {ℓ} : Type ℓ → Type ℓ
Table V = List (Text × V)

module _ {ℓ} {V : Type ℓ} where
  -- v, ok := m[k]
  unfoldable pub lookup : Text → Table V → Option V
  lookup k [] = none
  lookup k ((j, v) ∷ m) = if text_eq j k then some v else lookup k m

  -- m[k] = v
  unfoldable pub insert : Text → V → Table V → Table V
  insert k v [] = (k, v) ∷ []
  insert k v ((j, w) ∷ m) = if text_eq j k then (k, v) ∷ m else (j, w) ∷ insert k v m

  -- delete(m, k)
  unfoldable pub delete : Text → Table V → Table V
  delete k [] = []
  delete k ((j, w) ∷ m) = let rest = delete k m in if text_eq j k then rest else (j, w) ∷ rest

  -- The values that `range` visits.
  unfoldable pub values : Table V → List V
  values m = map (λ e. e.1) m

  -- _, ok := m[k]
  unfoldable pub has : Text → Table V → Bool
  unfolding lookup
  has k m = is_some (lookup k m)

  pub lookup-insert :
      (k j : Text) (v : V) (m : Table V)
      → lookup j (insert k v m) ≡ (if text_eq k j then some v else lookup j m)
  unfolding lookup insert
  lookup-insert k j v [] = refl
  lookup-insert k j v ((i, w) ∷ m) =
      ground (arith, text_eq_iff k j, text_eq_iff i k, text_eq_iff i j, lookup-insert k j v m)

  pub lookup-delete :
      (k j : Text) (m : Table V)
      → lookup j (delete k m) ≡ (if text_eq k j then none else lookup j m)
  unfolding lookup delete
  lookup-delete k j [] = ground arith
  lookup-delete k j ((i, w) ∷ m) =
      ground (arith, text_eq_iff k j, text_eq_iff i k, text_eq_iff i j, lookup-delete k j m)

  pub lookup-insert_self : (k : Text) (v : V) (m : Table V) → lookup k (insert k v m) ≡ some v
  lookup-insert_self k v m = simp (lookup-insert, text_eq_refl)

  -- What no entry passes, no entry that a key finds passes.
  pub any-lookup :
      (p : Text × V → Bool) (m : Table V) (k : Text) (v : V)
      → any p m ≡ false
      → lookup k m ≡ some v
      → p (k, v) ≡ false
  unfolding lookup
  any-lookup p [] k v h e = cc
  any-lookup p ((j, w) ∷ m) k v h e = ground (arith, text_eq_iff j k, any-lookup p m k v)
