-- ===== src/Base/Lists.antt =====
-- Lists measured and indexed by native numbers, and Boolean searches that run.
use Prim.Native.Nat.{ℕ, zero, suc, ◌+◌, ◌-◌, ◌<◌}
use mathlib.Core.Path.{◌≡◌, refl, subst}
use mathlib.Core.Bool.{Bool, true, false, ◌||◌, ◌&&◌}
use mathlib.Core.List.{List, [], ◌∷◌, ◌++◌}
use mathlib.Core.Option.{Option, none, some, some-injective}
use native.Mathlib.Omega.{arith}
use helix_gateway.Base.Tests.{if◌then◌else◌}

module _ {ℓ} {A : Type ℓ} where
  abbrev pub length : List A → ℕ
  length [] = 0
  length (x ∷ xs) = suc (length xs)

  abbrev pub get_elem? : List A → ℕ → Option A
  get_elem? [] i = none
  get_elem? (x ∷ xs) zero = some x
  get_elem? (x ∷ xs) (suc i) = get_elem? xs i

  abbrev pub get_or : List A → ℕ → A → A
  get_or [] i d = d
  get_or (x ∷ xs) zero d = x
  get_or (x ∷ xs) (suc i) d = get_or xs i d

  abbrev pub drop : ℕ → List A → List A
  drop zero xs = xs
  drop (suc n) [] = []
  drop (suc n) (x ∷ xs) = drop n xs

  abbrev pub take : ℕ → List A → List A
  take zero xs = []
  take (suc n) [] = []
  take (suc n) (x ∷ xs) = x ∷ take n xs

  pub take-append-drop : (n : ℕ) (xs : List A) → take n xs ++ drop n xs ≡ xs
  take-append-drop zero xs = refl
  take-append-drop (suc n) [] = refl
  take-append-drop (suc n) (x ∷ xs) = rw (take-append-drop n xs)

  abbrev pub tail : List A → List A
  tail [] = []
  tail (x ∷ xs) = xs

  -- `∃ x ∈ xs, p x`, as the loops of the program test it.
  abbrev pub any : (A → Bool) → List A → Bool
  any p [] = false
  any p (x ∷ xs) = p x || any p xs

  abbrev pub all : (A → Bool) → List A → Bool
  all p [] = true
  all p (x ∷ xs) = p x && all p xs

  -- The elements that pass a Boolean test, in order.
  abbrev pub keep : (A → Bool) → List A → List A
  keep p [] = []
  keep p (x ∷ xs) = let rest = keep p xs in if p x then x ∷ rest else rest

  pub length-append : (xs ys : List A) → length (xs ++ ys) ≡ length xs + length ys
  length-append [] ys = omega arith
  length-append (x ∷ xs) ys = omega (arith, length-append xs ys)

  pub length-drop : (n : ℕ) (xs : List A) → length (drop n xs) ≡ length xs - n
  length-drop zero xs = omega arith
  length-drop (suc n) [] = omega arith
  length-drop (suc n) (x ∷ xs) = omega (arith, length-drop n xs)

  pub get_elem?-below : (xs : List A) (i : ℕ) → i < length xs → (x : A) × (get_elem? xs i ≡ some x)
  get_elem?-below [] i h = elim h [ ]
  get_elem?-below (x ∷ xs) zero h = (x, refl)
  get_elem?-below (x ∷ xs) (suc i) h = get_elem?-below xs i (omega arith)

  -- What holds at the head and at every index of the tail holds at every index.
  pub at_cons {κ} :
      (P : A → Type κ) (x : A) (xs : List A)
      → P x
      → ((i : ℕ) (y : A) → get_elem? xs i ≡ some y → P y)
      → (i : ℕ) (y : A) → get_elem? (x ∷ xs) i ≡ some y
      → P y
  at_cons P x xs here there zero y e = subst P (some-injective x y e) here
  at_cons P x xs here there (suc i) y e = there i y e

  -- x stands somewhere in the list.
  abbrev pub Has : A → List A → Type ℓ
  Has x xs = (i : ℕ) × (get_elem? xs i ≡ some x)

  pub Has-tail : (x y : A) (xs : List A) → Has x xs → Has x (y ∷ xs)
  Has-tail x y xs h = (suc h.0, h.1)

  pub Has-append_left : (x : A) (xs ys : List A) → Has x xs → Has x (xs ++ ys)
  Has-append_left x [] ys (i, e) = absurd (ground arith)
  Has-append_left x (y ∷ xs) ys (zero, e) = (zero, e)
  Has-append_left x (y ∷ xs) ys (suc i, e) =
      Has-tail x y (xs ++ ys) (Has-append_left x xs ys (i, e))

  pub Has-append_self : (xs : List A) (x : A) → Has x (xs ++ x ∷ [])
  Has-append_self [] x = (zero, refl)
  Has-append_self (y ∷ xs) x = Has-tail x y (xs ++ x ∷ []) (Has-append_self xs x)

  -- Every element satisfies P.
  abbrev pub All {κ} : (A → Type κ) → List A → Type κ
  All P [] = Unit
  All P (x ∷ xs) = P x × All P xs

  pub All-Has {κ} : (P : A → Type κ) (x : A) (xs : List A) → All P xs → Has x xs → P x
  All-Has P x [] h (i, e) = absurd (ground arith)
  All-Has P x (y ∷ xs) h (zero, e) = subst P (some-injective y x e) h.0
  All-Has P x (y ∷ xs) h (suc i, e) = All-Has P x xs h.1 (i, e)

  pub Has-All {κ} : (P : A → Type κ) (xs : List A) → ((x : A) → Has x xs → P x) → All P xs
  Has-All P [] h = tt
  Has-All P (x ∷ xs) h = (h x (zero, refl), Has-All P xs (λ y k. h y (Has-tail y x xs k)))

  pub All-append_one {κ} :
      (P : A → Type κ) (xs : List A) (x : A) → All P xs → P x → All P (xs ++ x ∷ [])
  All-append_one P [] x h p = (p, tt)
  All-append_one P (y ∷ xs) x h p = (h.0, All-append_one P xs x h.1 p)
