-- ===== src/Operator/Ends.antt =====
-- How the writes of a reconciler to the cluster can end.
use helix_gateway.Base.{
  sym, ◌⊎◌, inl, inr, Text, Bool, true, false, Option, some, none, refl, ◌≡◌, ap, if◌then◌else◌,
}
use helix_gateway.Operator.{Verdict, fine, failing}

abbrev is_fine : Verdict → Bool
is_fine fine = true
is_fine (failing e) = false

pub failing-fine {κ} : {P : Type κ} (e : Text) → failing e ≡ fine → P
failing-fine e h = absurd (let q : false ≡ true = ap is_fine h in cc)

module _ {K : Type 0} where
  -- The end of setCondition, for the answer to its write.
  abbrev pub condition_end : Bool → Text → Option Text × K → Verdict × K
  condition_end holds msg (e, l) = elim e [
    | some why ↦ (failing why, l)
    | none ↦ ((if holds then fine else failing msg), l)
  ]

  pub condition-fine :
      (holds : Bool) (msg : Text) (p : Option Text × K) (l : K)
      → condition_end holds msg p ≡ (fine, l)
      → (holds ≡ true) × (p ≡ (none, l))
  condition-fine holds msg (some why, k) l h = failing-fine why (ap (λ x. x.0) h)
  condition-fine true msg (none, k) l h = (refl, ap (λ x. (none, x.1)) h)
  condition-fine false msg (none, k) l h = failing-fine msg (ap (λ x. x.0) h)

  -- The end of a write of an object.
  abbrev pub write_end : {S : Type 0} → S → Option Text × K → Verdict × K × S
  write_end s (e, l) = elim e [ some why ↦ (failing why, l, s) | none ↦ (fine, l, s) ]

  pub write-fine :
      {S : Type 0} (s t : S) (p : Option Text × K) (l : K)
      → write_end s p ≡ (fine, l, t)
      → (s ≡ t) × (p ≡ (none, l))
  write-fine s t (some why, k) l h = failing-fine why (ap (λ x. x.0) h)
  write-fine s t (none, k) l h = (ap (λ x. x.2) h, ap (λ x. (none, x.1)) h)

  -- The verdict of a reconciliation that ends with a write, and the cluster after it.
  abbrev pub WriteEnds : Option Text × K → Verdict → K → Type 0
  WriteEnds p v l =
      ((p ≡ (none, l)) × (v ≡ fine)) ⊎ ((why : Text) × (p ≡ (some why, l)) × (v ≡ failing why))

  pub write-ends :
      {S : Type 0} (s t : S) (p : Option Text × K) (v : Verdict) (l : K)
      → write_end s p ≡ (v, l, t)
      → (s ≡ t) × WriteEnds p v l
  write-ends s t (some why, k) v l h =
      (ap (λ x. x.2) h, inr (why, ap (λ x. (some why, x.1)) h, sym (ap (λ x. x.0) h)))
  write-ends s t (none, k) v l h =
      (ap (λ x. x.2) h, inl (ap (λ x. (none, x.1)) h, sym (ap (λ x. x.0) h)))

  -- A step that only a write without an error reaches.
  pub then-fine :
      {S : Type 0} (s t : S) (p : Option Text × K) (l : K) (next : K → Verdict × K × S)
      → (elim p.0 [ some why ↦ (failing why, p.1, s) | none ↦ next p.1 ]) ≡ (fine, l, t)
      → (p ≡ (none, p.1)) × (next p.1 ≡ (fine, l, t))
  then-fine s t (some why, k) l next h = failing-fine why (ap (λ x. x.0) h)
  then-fine s t (none, k) l next h = (refl, h)
