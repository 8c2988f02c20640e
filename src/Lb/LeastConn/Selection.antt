-- ===== src/Lb/LeastConn/Selection.antt =====
-- What `next` of the least-connections balancer selects, and how `done` undoes its count.
use helix_gateway.Base.{
  suc, sym, ◌∙◌, ℕ, suc, ◌≡◌, refl, sym, ◌∙◌, ◌⊎◌, inl, inr, Text, text_eq_iff, is_empty, Bool,
  true, false, ◌||◌, List, [], ◌∷◌, Option, some, Table, lookup, insert, lookup-insert,
  lookup-insert_self, SameTable, ℤ, pos, negsuc, ◌+ℤ◌, ◌≤ℤ◌, ltb_ℤ, get_elem?, at_cons, arith,
  if◌then◌else◌, Bool-cases, Option-cases, Each,
}
use helix_gateway.Lb.RoundRobin.{passes}
use helix_gateway.Lb.LeastConn.{LeastConn, scan, or_first, add_conn, take_conn, next, done}

add_conn_undo :
    (url : Text) (conns conns' : Table ℤ)
    → add_conn url (pos 1) conns ≡ some conns'
    → (conns'' : Table ℤ) × (add_conn url (negsuc 0) conns' ≡ some conns'')
      × SameTable conns'' conns
unfolding add_conn ◌+ℤ◌
add_conn_undo url conns conns' e = elim (Option-cases (lookup url conns)) [
  | inl n ↦ absurd (ground arith)
  | inr (c, q) ↦
      let made : insert url (c +ℤ pos 1) conns ≡ conns' = ground arith in
      (
        insert url (c +ℤ pos 1 +ℤ negsuc 0) conns',
        ground (arith, lookup-insert_self url (c +ℤ pos 1) conns),
        record {
          at_key = λ k. ground (
            arith,
            lookup-insert url k (c +ℤ pos 1 +ℤ negsuc 0) conns',
            lookup-insert url k (c +ℤ pos 1) conns,
            text_eq_iff url k,
          );
        },
      )
]

module _ (is_healthy : Option (Text → Bool)) (conns : Table ℤ)
    (nonneg : Each (λ c. pos 0 ≤ℤ c) conns) where
  -- A count that is still -1, or the connections of the endpoint chosen so far.
  abbrev Held : Text → ℤ → Type 0
  Held best count =
      ((best ≡ []) × (count ≡ negsuc 0))
      ⊎ ((lookup best conns ≡ some count)
          × (passes is_healthy best ≡ true)
          × (is_empty best ≡ false))

  -- One round of the loop that returns: the endpoint is passed over, or is counted.
  scan_step :
      (ep : Text) (eps : List Text) (best : Text) (count : ℤ) (r : Text × ℤ)
      → scan is_healthy conns (ep ∷ eps) best count ≡ some r
      → ((passes is_healthy ep ≡ false) × (scan is_healthy conns eps best count ≡ some r))
        ⊎ ((c : ℤ) × (lookup ep conns ≡ some c)
            × (passes is_healthy ep ≡ true)
            × (scan is_healthy conns eps
                  (if ltb_ℤ count (pos 0) || ltb_ℤ c count then ep else best)
                  (if ltb_ℤ count (pos 0) || ltb_ℤ c count then c else count)
                ≡ some r))
  unfolding scan
  scan_step ep eps best count r e = elim (Bool-cases (passes is_healthy ep)) [
    | inr sick ↦ inl (sick, rw sick at e)
    | inl well ↦ (elim (Option-cases (lookup ep conns)) [
      | inl n ↦ absurd (ground arith)
      | inr (c, q) ↦ inr (c, q, well, ground arith)
    ])
  ]

  scan-Held :
      (eps : List Text) (best b : Text) (count n : ℤ)
      → ((j : ℕ) (e : Text) → get_elem? eps j ≡ some e → is_empty e ≡ false)
      → Held best count
      → scan is_healthy conns eps best count ≡ some (b, n)
      → Held b n
  unfolding scan
  scan-Held [] best b count n named h e = ground arith
  scan-Held (ep ∷ eps) best b count n named h e = elim (scan_step ep eps best count (b, n) e) [
    | inl (sick, rest) ↦ scan-Held eps best b count n (λ j. named (suc j)) h rest
    | inr (c, q, well, rest) ↦
        scan-Held eps _ b _ n (λ j. named (suc j)) (ground (arith, named 0 ep refl)) rest
  ]

  -- n is at most the connections of the endpoint, if that is healthy.
  abbrev Bounds : ℤ → Text → Type 0
  Bounds n ep =
      passes is_healthy ep ≡ true → (c : ℤ) → lookup ep conns ≡ some c → (pos 0 ≤ℤ n) × (n ≤ℤ c)

  -- The count that the loop ends with is at most the connections of each healthy endpoint, and at
  -- most the count that it began with, if that was one.
  scan-Bounds :
      (eps : List Text) (best b : Text) (count n : ℤ)
      → scan is_healthy conns eps best count ≡ some (b, n)
      → (pos 0 ≤ℤ count → (pos 0 ≤ℤ n) × (n ≤ℤ count))
        × ((i : ℕ) (ep : Text) → get_elem? eps i ≡ some ep → Bounds n ep)
  unfolding scan
  scan-Bounds [] best b count n e = (λ h. ground arith, λ i ep at. cc)
  scan-Bounds (ep ∷ eps) best b count n e = elim (scan_step ep eps best count (b, n) e) [
    | inl (sick, rest) ↦
        (let ih = scan-Bounds eps best b count n rest in
          (ih.0, at_cons (Bounds n) ep eps (λ well c q. cc (sick, well)) ih.1))
    | inr (c, q, well, rest) ↦
        (let better = ltb_ℤ count (pos 0) || ltb_ℤ c count in
          let ih =
            scan-Bounds eps (if better then ep else best) b (if better then c else count) n rest in
          let low : (pos 0 ≤ℤ n) × (n ≤ℤ (if better then c else count)) =
            ih.0 (ground (arith, nonneg.at_key ep c q)) in
          (
            λ h. ground (arith, low),
            at_cons (Bounds n) ep eps (λ _ c' q'. ground (arith, low)) ih.1,
          ))
  ]

-- A call that takes a named endpoint counts it.
take_conn-inv :
    (u url : Text) (lc lc' : LeastConn)
    → take_conn u lc ≡ some (url, lc')
    → is_empty url ≡ false
    → (conns : Table ℤ) × (u ≡ url)
      × (add_conn url (pos 1) lc.conns ≡ some conns)
      × (lc' ≡ record lc { conns = conns })
unfolding take_conn
take_conn-inv u url lc lc' e named = elim (Option-cases (add_conn u (pos 1) lc.conns)) [
  | inl n ↦ absurd (ground arith)
  | inr (conns, q) ↦ let same : u ≡ url = ground arith in (conns, same, rw (← same) q, ground arith)
]

take_conn-url : (u url : Text) (lc lc' : LeastConn) → take_conn u lc ≡ some (url, lc') → u ≡ url
unfolding take_conn
take_conn-url u url lc lc' e = ground arith

or_first-named : (best : Text) (eps : List Text) → is_empty best ≡ false → or_first best eps ≡ best
or_first-named best [] h = refl
or_first-named best (ep ∷ eps) h = rw h

next-inv :
    (is_healthy : Option (Text → Bool)) (lc lc' : LeastConn) (url : Text)
    → next is_healthy lc ≡ some (url, lc')
    → (best : Text) × (n : ℤ) × (scan is_healthy lc.conns lc.endpoints [] (negsuc 0)
        ≡ some (best, n))
      × (take_conn (or_first best lc.endpoints) lc ≡ some (url, lc'))
unfolding next
next-inv is_healthy lc lc' url e =
    elim (Option-cases (scan is_healthy lc.conns lc.endpoints [] (negsuc 0))) [
      | inl n ↦ absurd (ground arith)
      | inr ((best, n), q) ↦ (best, n, q, ground arith)
    ]

-- If a healthy endpoint is configured and no count is negative, `next` returns a healthy endpoint,
-- and none of the healthy ones has fewer open connections. Endpoints have names.
pub next-minimal :
    (is_healthy : Option (Text → Bool)) (lc lc' : LeastConn) (url : Text)
    → Each (λ c. pos 0 ≤ℤ c) lc.conns
    → next is_healthy lc ≡ some (url, lc')
    → (i : ℕ) (ep : Text) (c : ℤ)
    → ((j : ℕ) (e : Text) → get_elem? lc.endpoints j ≡ some e → is_empty e ≡ false)
    → get_elem? lc.endpoints i ≡ some ep
    → passes is_healthy ep ≡ true
    → lookup ep lc.conns ≡ some c
    → (n : ℤ) × (lookup url lc.conns ≡ some n) × (passes is_healthy url ≡ true) × (n ≤ℤ c)
next-minimal is_healthy lc lc' url nonneg e i ep c named at well q =
    let (best, n, scanned, taken) = next-inv is_healthy lc lc' url e in
    let low =
      (scan-Bounds is_healthy lc.conns nonneg lc.endpoints [] best (negsuc 0) n scanned).1 i ep at
        well c q in
    let held =
      scan-Held is_healthy lc.conns nonneg lc.endpoints [] best (negsuc 0) n named
        (inl (refl, refl)) scanned in
    elim held [
      | inl (_, none_yet) ↦ absurd (ground (arith, low.0))
      | inr (count, healthy, full) ↦
          (let same : best ≡ url =
              sym (or_first-named best lc.endpoints full) ∙ take_conn-url _ url lc lc' taken in
            (n, rw (← same) count, rw (← same) healthy, low.1))
    ]

-- `done` after a `next` that returned a named endpoint puts every count back.
pub done-next :
    (is_healthy : Option (Text → Bool)) (lc lc' : LeastConn) (url : Text)
    → next is_healthy lc ≡ some (url, lc')
    → is_empty url ≡ false
    → SameTable (done url lc').conns lc.conns
unfolding done
done-next is_healthy lc lc' url e named =
    let (best, n, scanned, taken) = next-inv is_healthy lc lc' url e in
    let (conns, same, added, after) = take_conn-inv _ url lc lc' taken named in
    let (conns', undone, back) = add_conn_undo url lc.conns conns added in
    rw after (rw (undone, done) back)
