-- ===== src/Plugins/Limits/Isolation.antt =====
-- The clients of a route's rate limit do not touch one another.
use mathlib.Core.Path.{subst}
use helix_gateway.Base.{
  ℕ, Text, text_eq, text_eq_iff, text_eq_refl, Bool, false, List, [], ◌∷◌, Table, lookup,
  lookup-insert, keep, ◌≡◌, refl, sym, ap, ◌∙◌, Bool-cases, inl, inr, if_false,
}
use helix_gateway.Plugins.Limits.{Client, take_token}

module _ {L : Type 0} (fresh : L) (allow : ℕ → L → Bool × L) where
  -- A run of requests, each with its time and its client: the client and the decision of each.
  unfoldable pub run : List (ℕ × Text) → Table (Client L) → List (Text × Bool)
  run [] clients = []
  run ((now, key) ∷ rs) clients =
      let (ok, after) = take_token fresh allow now key clients in (key, ok) ∷ run rs after

  take_token-same :
      (now : ℕ) (key : Text) (m n : Table (Client L))
      → lookup key m ≡ lookup key n
      → ((take_token fresh allow now key m).0 ≡ (take_token fresh allow now key n).0)
        × (lookup key (take_token fresh allow now key m).1
            ≡ lookup key (take_token fresh allow now key n).1)
  unfolding take_token
  take_token-same now key m n e = (
    rw e refl,
    rw (lookup-insert key key _ m, lookup-insert key key _ n, e, text_eq_refl key) refl,
  )

  take_token-other :
      (now : ℕ) (key k : Text) (m : Table (Client L))
      → text_eq key k ≡ false
      → lookup k (take_token fresh allow now key m).1 ≡ lookup k m
  unfolding take_token
  take_token-other now key k m h = lookup-insert key k _ m ∙ if_false _ _ h

  -- Two tables that agree on a client decide alike of its requests.
  run-agree :
      (k : Text) (rs : List (ℕ × Text)) (m n : Table (Client L))
      → lookup k m ≡ lookup k n
      → keep (λ d. text_eq d.0 k) (run rs m) ≡ run (keep (λ r. text_eq r.1 k) rs) n
  unfolding run
  run-agree k [] m n e = refl
  run-agree k ((now, key) ∷ rs) m n e = elim (Bool-cases (text_eq key k)) [
    | inr other ↦ rw other (run-agree k rs _ n (take_token-other now key k m other ∙ e))
    | inl same ↦
        (let is_k : key ≡ k = (text_eq_iff key k).0 same in
          let e' : lookup key m ≡ lookup key n =
            subst (λ j. lookup j m ≡ lookup j n) (sym is_k) e in
          let (alike, later) = take_token-same now key m n e' in
          let after_m = (take_token fresh allow now key m).1 in
          let after_n = (take_token fresh allow now key n).1 in
          let later' : lookup k after_m ≡ lookup k after_n =
            subst (λ j. lookup j after_m ≡ lookup j after_n) is_k later in
          rw same (
            ap (λ o. (key, o) ∷ keep (λ d. text_eq d.0 k) (run rs after_m)) alike
            ∙ ap (λ ds. (key, (take_token fresh allow now key n).0) ∷ ds)
                (run-agree k rs after_m after_n later')))
  ]

  -- What a route's rate limit decides of the requests of one client, among those of all clients, is
  -- what it decides of them alone.
  pub run-keep :
      (k : Text) (rs : List (ℕ × Text)) (clients : Table (Client L))
      → keep (λ d. text_eq d.0 k) (run rs clients) ≡ run (keep (λ r. text_eq r.1 k) rs) clients
  run-keep k rs clients = run-agree k rs clients clients refl
