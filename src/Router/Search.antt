-- ===== src/Router/Search.antt =====
-- The search for the first entry that accepts a request, and what it finds in a sorted list.
use mathlib.Core.Path.{subst}
use helix_gateway.Base.{
  zero, ap, ℕ, zero, suc, ◌≤◌, ◌≡◌, inl, inr, Bool, true, false, List, [], ◌∷◌, none, some, length,
  Has, All, All-Has, Has-tail, get_elem?, arith, Bool-cases,
}
use helix_gateway.Router.{Entry, first_entry, longer}

pub none-some {ℓ} : {A : Type ℓ} {x : A} → none ≡ some x → ⊥
none-some e = ground arith

module _ {H : Type 0} where
  abbrev pub path_length : Entry H → ℕ
  path_length e = length e.route.match.path

  -- Sorted by falling length of the path.
  abbrev pub Falling : List (Entry H) → Type 0
  Falling [] = Unit
  Falling (e ∷ es) = All (λ x. path_length x ≤ path_length e) es × Falling es

  -- No entry is less than one before it.
  abbrev pub Sorted : (Entry H → Entry H → Bool) → List (Entry H) → Type 0
  Sorted less [] = Unit
  Sorted less (e ∷ es) = All (λ x. less x e ≡ false) es × Sorted less es

  -- The comparators that sort.Slice asks for: a strict weak order.
  pub record IsWeakOrder (less : Entry H → Entry H → Bool) : Type 0 where
    pub asym : (a b : Entry H) → less a b ≡ true → less b a ≡ false
    pub not_less : (a b c : Entry H) → less a b ≡ false → less b c ≡ false → less a c ≡ false

  -- What sort.Slice promises for such a comparator: the same entries, in its order.
  pub record IsSort (sort : (Entry H → Entry H → Bool) → List (Entry H) → List (Entry H))
      : Type 0 where
    pub sorted :
        (less : Entry H → Entry H → Bool) (es : List (Entry H))
        → IsWeakOrder less
        → Sorted less (sort less es)
    pub kept :
        (less : Entry H → Entry H → Bool) (es : List (Entry H)) (e : Entry H)
        → Has e es
        → Has e (sort less es)
    pub only :
        (less : Entry H → Entry H → Bool) (es : List (Entry H)) (e : Entry H)
        → Has e (sort less es)
        → Has e es

  longer-IsWeakOrder : IsWeakOrder longer
  unfolding longer
  longer-IsWeakOrder = record { asym = λ a b h. ground arith; not_less = λ a b c h k. ground arith }

  not_longer :
      (e : Entry H) (es : List (Entry H))
      → All (λ x. longer x e ≡ false) es
      → All (λ x. path_length x ≤ path_length e) es
  unfolding longer
  not_longer e [] h = tt
  not_longer e (x ∷ es) (here, later) = (ground arith, not_longer e es later)

  Sorted-Falling : (es : List (Entry H)) → Sorted longer es → Falling es
  Sorted-Falling [] h = tt
  Sorted-Falling (e ∷ es) (here, later) = (not_longer e es here, Sorted-Falling es later)

  -- A sort by the comparator of reload sorts by falling length.
  pub sort_falls :
      (sort : (Entry H → Entry H → Bool) → List (Entry H) → List (Entry H)) (es : List (Entry H))
      → IsSort sort
      → Falling (sort longer es)
  sort_falls sort es ok = Sorted-Falling _ (ok.sorted longer es longer-IsWeakOrder)

  -- The entry that is found passes the test and stands in the list.
  pub first_entry-found :
      (p : Entry H → Bool) (es : List (Entry H)) (e : Entry H)
      → first_entry p es ≡ some e
      → (p e ≡ true) × Has e es
  unfolding first_entry
  first_entry-found p [] e h = absurd (ground arith)
  first_entry-found p (x ∷ es) e h = elim (Bool-cases (p x)) [
    | inl yes_ ↦ (ground arith, (zero, ground arith))
    | inr not_ ↦ (let (t, k) = first_entry-found p es e (ground arith) in (t, Has-tail e x es k))
  ]

  -- An entry that passes keeps the search from failing.
  pub first_entry-some :
      (p : Entry H → Bool) (es : List (Entry H)) (x : Entry H)
      → Has x es
      → p x ≡ true
      → (e : Entry H) × (first_entry p es ≡ some e)
  unfolding first_entry
  first_entry-some p [] x (i, at) h = absurd (ground arith)
  first_entry-some p (y ∷ es) x (zero, at) h = (y, ground arith)
  first_entry-some p (y ∷ es) x (suc i, at) h =
      let (e, found) = first_entry-some p es x (i, at) h in
      elim (Bool-cases (p y)) [ inl yes_ ↦ (y, rw yes_) | inr not_ ↦ (e, rw not_ found) ]

  head_longest :
      (y : Entry H) (es : List (Entry H)) (x : Entry H)
      → Falling (y ∷ es)
      → (i : ℕ) → get_elem? (y ∷ es) i ≡ some x
      → path_length x ≤ path_length y
  head_longest y es x f zero at = let same : y ≡ x = ground arith in rw same (omega arith)
  head_longest y es x f (suc i) at = All-Has (λ z. path_length z ≤ path_length y) x es f.0 (i, at)

  behind :
      (p : Entry H → Bool) (y : Entry H) (es : List (Entry H)) (x : Entry H) (i : ℕ)
      → get_elem? (y ∷ es) i ≡ some x
      → p y ≡ false
      → p x ≡ true
      → Has x es
  behind p y es x zero at n t = let same : y ≡ x = ground arith in absurd (cc (ap p same, n, t))
  behind p y es x (suc i) at n t = (i, at)

  -- In a sorted list the first hit is a longest one.
  pub first_entry-longest :
      (p : Entry H → Bool) (es : List (Entry H)) (e x : Entry H)
      → Falling es
      → first_entry p es ≡ some e
      → Has x es
      → p x ≡ true
      → path_length x ≤ path_length e
  unfolding first_entry
  first_entry-longest p [] e x f h (i, at) t = absurd (ground arith)
  first_entry-longest p (y ∷ es) e x f h (i, at) t = elim (Bool-cases (p y)) [
    | inl yes_ ↦
        (let same : y ≡ e = ground arith in
          subst (λ z. path_length x ≤ path_length z) same (head_longest y es x f i at))
    | inr not_ ↦ first_entry-longest p es e x f.1 (ground arith) (behind p y es x i at not_ t) t
  ]
