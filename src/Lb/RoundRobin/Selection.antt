-- ===== src/Lb/RoundRobin/Selection.antt =====
-- What `next` of the round-robin balancer selects.
use native.Mathlib.Nat.{mod-lt, mod-eq_of_lt, mod-add-mod, add-mod_right}
use native.Mathlib.Decide.{dec_lt}
use helix_gateway.Base.{
  ℕ, zero, suc, ◌+◌, ◌-◌, ◌%◌, ◌<◌, ◌≡◌, refl, sym, ◌∙◌, ap, Text, Bool, true, List, [], ◌∷◌,
  Option, none, some, arith, length, get_elem?, get_elem?-below, if◌then◌else◌, Bool-cases, inl,
  inr, Option-cases,
}
use helix_gateway.Lb.RoundRobin.{RoundRobin, uint64, passes, advance, search_healthy, settle, next}

-- Some number of further steps, at most n, leads from c to each index below n.
covers : (n c i : ℕ) → i < n → (j : ℕ) × (j < n) × ((c + suc j) % n ≡ i)
covers n c i h =
    let r : c % n < n = mod-lt c (omega arith) in
    elim (dec_lt (c % n) i) [
      | yes below ↦ (
        i - (c % n) - 1,
        omega arith,
        sym (mod-add-mod c n (suc (i - (c % n) - 1)))
            ∙ (ap (λ (x : ℕ). x % n) (omega arith) ∙ mod-eq_of_lt h),
      )
      | no above ↦ (
        i + n - (c % n) - 1,
        omega arith,
        sym (mod-add-mod c n (suc (i + n - (c % n) - 1)))
            ∙ (ap (λ (x : ℕ). x % n) (omega arith) ∙ (add-mod_right i n ∙ mod-eq_of_lt h)),
      )
    ]

abbrev at_counter : List Text → ℕ → RoundRobin
at_counter endpoints c = record { endpoints = endpoints; counter = c }

module _ (is_healthy : Option (Text → Bool)) (endpoints : List Text) where
  advance-at_counter :
      (c : ℕ)
      → c + 1 < uint64
      → advance (at_counter endpoints c)
        ≡ (get_elem? endpoints ((c + 1) % length endpoints), at_counter endpoints (c + 1))
  unfolding advance
  advance-at_counter c h = rw (mod-eq_of_lt h)

  -- One round of the search: the next endpoint if it passes, and else the rounds that are left.
  search_step :
      (k c : ℕ)
      → c + 1 < uint64
      → search_healthy (suc k) is_healthy (at_counter endpoints c)
        ≡ (elim (get_elem? endpoints ((c + 1) % length endpoints)) [
          | none ↦ search_healthy k is_healthy (at_counter endpoints (c + 1))
          | some e ↦
              (if passes is_healthy e
                then (some e, at_counter endpoints (c + 1))
                else search_healthy k is_healthy (at_counter endpoints (c + 1)))
        ])
  unfolding search_healthy
  search_step k c h =
      let p = advance-at_counter c h in
      λ i. elim (p i).0 [
        | none ↦ search_healthy k is_healthy (p i).1
        | some e ↦
            (if passes is_healthy e then (some e, (p i).1) else search_healthy k is_healthy (p i).1)
      ]

  abbrev Finds : Option Text × RoundRobin → Type 0
  Finds r = (e : Text) × (r.0 ≡ some e) × (passes is_healthy e ≡ true)

  -- A healthy endpoint j + 1 steps ahead is reached, unless an earlier one is healthy too.
  search_healthy-Finds :
      (k j c : ℕ) (ep : Text)
      → j < k
      → c + k < uint64
      → get_elem? endpoints ((c + suc j) % length endpoints) ≡ some ep
      → passes is_healthy ep ≡ true
      → Finds (search_healthy k is_healthy (at_counter endpoints c))
  search_healthy-Finds zero j c ep jk room at healthy = absurd (omega arith)
  search_healthy-Finds (suc k) zero c ep jk room at healthy =
      rw (search_step k c (omega arith)) (rw at (rw healthy (ep, refl, healthy)))
  search_healthy-Finds (suc k) (suc j) c ep jk room at healthy =
      let later : Finds (search_healthy k is_healthy (at_counter endpoints (c + 1))) =
        search_healthy-Finds k j (c + 1) ep (omega arith) (omega arith)
          (ap (λ (x : ℕ). get_elem? endpoints (x % length endpoints)) (omega arith) ∙ at) healthy in
      rw (search_step k c (omega arith))
        (elim (Option-cases (get_elem? endpoints ((c + 1) % length endpoints))) [
          | inl n ↦ rw n later
          | inr (e, q) ↦ rw q (elim (Bool-cases (passes is_healthy e)) [
            | inl yes_ ↦ rw yes_ (e, refl, yes_)
            | inr not_ ↦ rw not_ later
          ])
        ])

-- If some endpoint is healthy and the counter does not wrap around within the round, `next`
-- returns a healthy endpoint.
pub next-healthy :
    (is_healthy : Option (Text → Bool)) (rr : RoundRobin) (i : ℕ) (ep : Text)
    → get_elem? rr.endpoints i ≡ some ep
    → i < length rr.endpoints
    → passes is_healthy ep ≡ true
    → rr.counter + length rr.endpoints < uint64
    → (e : Text) × ((next is_healthy rr).0 ≡ some e) × (passes is_healthy e ≡ true)
unfolding next settle
next-healthy is_healthy rr i ep at below healthy room =
    let (j, jn, hit) = covers (length rr.endpoints) rr.counter i below in
    let (e, found, ok) =
      search_healthy-Finds is_healthy rr.endpoints (length rr.endpoints) j rr.counter ep jn room
        (ap (get_elem? rr.endpoints) hit ∙ at) healthy in
    (e, ground arith, ok)

-- `n` calls in a row, with the endpoints that they return.
unfoldable pub calls : ℕ → RoundRobin → List (Option Text)
calls zero rr = []
calls (suc n) rr = let (ep, rr') = next none rr in ep ∷ calls n rr'

next-none :
    (endpoints : List Text) (c : ℕ)
    → 0 < length endpoints
    → c + 1 < uint64
    → next none (at_counter endpoints c)
      ≡ (get_elem? endpoints ((c + 1) % length endpoints), at_counter endpoints (c + 1))
unfolding next
next-none [] c h room = elim h [ ]
next-none (x ∷ xs) c h room =
    let (e, hit) =
      get_elem?-below (x ∷ xs) ((c + 1) % length (x ∷ xs)) (mod-lt (c + 1) (omega arith)) in
    rw (search_step none (x ∷ xs) (length xs) c room, hit) (unfold settle in refl)

calls-get_elem? :
    (endpoints : List Text) (k c j : ℕ)
    → j < k
    → 0 < length endpoints
    → c + k < uint64
    → get_elem? (calls k (at_counter endpoints c)) j
      ≡ some (get_elem? endpoints ((c + suc j) % length endpoints))
unfolding calls
calls-get_elem? endpoints zero c j jk h room = absurd (omega arith)
calls-get_elem? endpoints (suc k) c zero jk h room = rw (next-none endpoints c h (omega arith))
calls-get_elem? endpoints (suc k) c (suc j) jk h room = rw (next-none endpoints c h (omega arith)) (
    calls-get_elem? endpoints k (c + 1) j (omega arith) h (omega arith)
    ∙ ap (λ (x : ℕ). some (get_elem? endpoints (x % length endpoints))) (omega arith))

-- Without a health test, as many calls in a row as there are endpoints return every endpoint,
-- as long as the counter does not wrap around within them.
pub calls-cover :
    (rr : RoundRobin) (i : ℕ)
    → i < length rr.endpoints
    → rr.counter + length rr.endpoints < uint64
    → (j : ℕ) × (j < length rr.endpoints)
      × (get_elem? (calls (length rr.endpoints) rr) j ≡ some (get_elem? rr.endpoints i))
calls-cover rr i below room =
    let (j, jn, hit) = covers (length rr.endpoints) rr.counter i below in
    (
      j,
      jn,
      calls-get_elem? rr.endpoints (length rr.endpoints) rr.counter j jn (omega arith) room
          ∙ ap (λ (x : ℕ). some (get_elem? rr.endpoints x)) hit,
    )
