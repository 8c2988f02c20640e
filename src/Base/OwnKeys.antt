-- ===== src/Base/OwnKeys.antt =====
-- Maps whose values carry their own key, as the configuration file expects of its records.
use mathlib.Core.Path.{◌≡◌, refl}
use mathlib.Core.List.{[], ◌∷◌}
use mathlib.Core.Option.{none, some}
use native.Mathlib.Omega.{arith}
use helix_gateway.Base.Strings.{Text, text_eq_iff}
use helix_gateway.Base.Tables.{Table, lookup, insert, delete, lookup-insert, lookup-delete}

module _ {ℓ} {V : Type ℓ} (key : V → Text) where
  -- Every value stands under its own key, and no key stands twice.
  abbrev pub Keyed : Table V → Type ℓ
  Keyed [] = Unit
  Keyed ((k, v) ∷ m) = (key v ≡ k) × (lookup k m ≡ none) × Keyed m

  pub Keyed-lookup : (m : Table V) (k : Text) (v : V) → Keyed m → lookup k m ≡ some v → key v ≡ k
  unfolding lookup
  Keyed-lookup [] k v h e = cc
  Keyed-lookup ((j, w) ∷ m) k v h e = ground (arith, text_eq_iff j k, Keyed-lookup m k v h.2)

  pub insert-Keyed : (m : Table V) (k : Text) (v : V) → key v ≡ k → Keyed m → Keyed (insert k v m)
  unfolding insert lookup
  insert-Keyed [] k v e h = (e, refl, tt)
  insert-Keyed ((j, w) ∷ m) k v e h =
      ground
        (arith, text_eq_iff j k, text_eq_iff k j, lookup-insert k j v m, insert-Keyed m k v e h.2)

  pub delete-Keyed : (m : Table V) (k : Text) → Keyed m → Keyed (delete k m)
  unfolding delete
  delete-Keyed [] k h = tt
  delete-Keyed ((j, w) ∷ m) k h =
      ground (arith, text_eq_iff j k, text_eq_iff k j, lookup-delete k j m, delete-Keyed m k h.2)
