-- ===== src/Examples/Sorting.antt =====
-- A sort of the entries by a comparator, to stand for sort.Slice.
use helix_gateway.Base.{
  Bool, true, false, List, [], ◌∷◌, ◌≡◌, Has, All, All-Has, Has-All, if◌then◌else◌, Bool-cases, inl,
  inr,
}
use helix_gateway.Router.{Entry}
use helix_gateway.Router.Search.{IsSort, IsWeakOrder, Sorted}

module _ {H : Type 0} (less : Entry H → Entry H → Bool) where
  abbrev place : Entry H → List (Entry H) → List (Entry H)
  place e [] = e ∷ []
  place e (x ∷ es) = let rest = place e es in if less x e then x ∷ rest else e ∷ x ∷ es

  abbrev pub insertion_sort : List (Entry H) → List (Entry H)
  insertion_sort [] = []
  insertion_sort (e ∷ es) = place e (insertion_sort es)

  place-All :
      (P : Entry H → Type 0) (e : Entry H) (es : List (Entry H))
      → P e
      → All P es
      → All P (place e es)
  place-All P e [] p k = (p, tt)
  place-All P e (y ∷ es) p k = elim (Bool-cases (less y e)) [
    | inl t ↦ rw t (k.0, place-All P e es p k.1)
    | inr f ↦ rw f (p, k)
  ]

  All-place :
      (P : Entry H → Type 0) (e : Entry H) (es : List (Entry H))
      → All P (place e es)
      → P e × All P es
  All-place P e [] k = k
  All-place P e (y ∷ es) k = split (less y e) (All-place P e es) k
    where
      split :
          (b : Bool)
          → (All P (place e es) → P e × All P es)
          → All P (if b then y ∷ place e es else e ∷ y ∷ es)
          → P e × All P (y ∷ es)
      split false rest h = h
      split true rest h = let (p, k) = rest h.1 in (p, (h.0, k))

  not_before :
      (order : IsWeakOrder less) (e y : Entry H) (es : List (Entry H))
      → less y e ≡ false
      → All (λ x. less x y ≡ false) es
      → All (λ x. less x e ≡ false) es
  not_before order e y [] f k = tt
  not_before order e y (x ∷ es) f (here, later) =
      (order.not_less x y e here f, not_before order e y es f later)

  place-Sorted :
      (order : IsWeakOrder less) (e : Entry H) (es : List (Entry H))
      → Sorted less es
      → Sorted less (place e es)
  place-Sorted order e [] k = (tt, tt)
  place-Sorted order e (y ∷ es) k = elim (Bool-cases (less y e)) [
    | inl t ↦
        rw t (
          place-All (λ x. less x y ≡ false) e es (order.asym y e t) k.0,
          place-Sorted order e es k.1,
        )
    | inr f ↦ rw f ((f, not_before order e y es f k.0), k)
  ]

  insertion_sort-All :
      (P : Entry H → Type 0) (es : List (Entry H)) → All P es → All P (insertion_sort es)
  insertion_sort-All P [] k = k
  insertion_sort-All P (e ∷ es) k =
      place-All P e (insertion_sort es) k.0 (insertion_sort-All P es k.1)

  All-insertion_sort :
      (P : Entry H → Type 0) (es : List (Entry H)) → All P (insertion_sort es) → All P es
  All-insertion_sort P [] k = k
  All-insertion_sort P (e ∷ es) k =
      let (p, rest) = All-place P e (insertion_sort es) k in (p, All-insertion_sort P es rest)

  insertion_sort-Sorted : IsWeakOrder less → (es : List (Entry H)) → Sorted less (insertion_sort es)
  insertion_sort-Sorted order [] = tt
  insertion_sort-Sorted order (e ∷ es) =
      place-Sorted order e (insertion_sort es) (insertion_sort-Sorted order es)

pub insertion_sort-IsSort :
    {H : Type 0} → IsSort (λ (less : Entry H → Entry H → Bool). insertion_sort less)
insertion_sort-IsSort = record {
  sorted = λ less es order. insertion_sort-Sorted less order es;
  kept = λ less es e k.
      All-Has (λ x. Has x (insertion_sort less es)) e es
        (All-insertion_sort less (λ x. Has x (insertion_sort less es)) es
          (Has-All (λ x. Has x (insertion_sort less es)) _ (λ x h. h)))
        k;
  only = λ less es e k.
      All-Has (λ x. Has x es) e _
        (insertion_sort-All less (λ x. Has x es) es (Has-All (λ x. Has x es) es (λ x h. h))) k;
}
