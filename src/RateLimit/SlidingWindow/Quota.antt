-- ===== src/RateLimit/SlidingWindow/Quota.antt =====
-- The window allows a request exactly if fewer than the limit were allowed in the time before it.
use mathlib.Core.List.{append-nil, append_assoc}
use helix_gateway.Base.{
  ℕ, ◌≤◌, ◌<◌, ltb, Bool, true, List, [], ◌∷◌, ◌++◌, length, keep, if◌then◌else◌, ◌≡◌, refl, sym,
  ◌∙◌, ap, arith, Bool-cases, inl, inr, ◌↔◌,
}
use helix_gateway.RateLimit.SlidingWindow.{recent, run_window}

-- The instants do not go back from a start.
abbrev pub Rising : ℕ → List ℕ → Type 0
Rising start [] = Unit
Rising start (now ∷ nows) = (start ≤ now) × Rising now nows

-- The last of the instants.
abbrev pub last_of : ℕ → List ℕ → ℕ
last_of start [] = start
last_of start (now ∷ nows) = last_of now nows

module _ (window limit : ℕ) where
  -- The set after requests at the instants.
  unfoldable pub scores_after : List ℕ → List ℕ → List ℕ
  scores_after [] scores = scores
  scores_after (now ∷ nows) scores = scores_after nows (run_window window limit now scores).1

  -- The instants at which a request was allowed.
  unfoldable pub allowed_at : List ℕ → List ℕ → List ℕ
  allowed_at [] scores = []
  allowed_at (now ∷ nows) scores =
      let rest = allowed_at nows (run_window window limit now scores).1 in
      if (run_window window limit now scores).0.0 then now ∷ rest else rest

  keep-append : (p : ℕ → Bool) (xs ys : List ℕ) → keep p (xs ++ ys) ≡ keep p xs ++ keep p ys
  keep-append p [] ys = refl
  keep-append p (x ∷ xs) ys = ground (arith, keep-append p xs ys)

  keep-recent :
      (now later : ℕ) (xs : List ℕ)
      → now ≤ later
      → keep (recent window later) (keep (recent window now) xs) ≡ keep (recent window later) xs
  keep-recent now later [] h = refl
  keep-recent now later (x ∷ xs) h = ground (arith, keep-recent now later xs h)

  -- From an instant on, the set and the history agree on what is recent.
  abbrev Agrees : ℕ → List ℕ → List ℕ → Type 0
  Agrees start scores past =
      (later : ℕ)
      → start ≤ later
      → keep (recent window later) scores ≡ keep (recent window later) past

  -- What one request adds to the history.
  abbrev news : ℕ → List ℕ → List ℕ
  news now scores = if (run_window window limit now scores).0.0 then now ∷ [] else []

  run_window-Agrees :
      (start now : ℕ) (scores past : List ℕ)
      → start ≤ now
      → Agrees start scores past
      → Agrees now (run_window window limit now scores).1 (past ++ news now scores)
  unfolding run_window
  run_window-Agrees start now scores past r a later h =
      let same : keep (recent window later) (keep (recent window now) scores)
          ≡ keep (recent window later) past =
        keep-recent now later scores h ∙ a later (omega arith) in
      elim (Bool-cases (ltb (length (keep (recent window now) scores)) limit)) [
        | inl t ↦ simp (t) (
            keep-append (recent window later) (keep (recent window now) scores) (now ∷ [])
            ∙ ap (λ xs. xs ++ keep (recent window later) (now ∷ [])) same
            ∙ sym (keep-append (recent window later) past (now ∷ [])))
        | inr f ↦ simp (f) (rw append-nil same)
      ]

  news-append :
      (now : ℕ) (scores past rest : List ℕ)
      → (past ++ news now scores) ++ rest
        ≡ past ++ (if (run_window window limit now scores).0.0 then now ∷ rest else rest)
  news-append now scores past rest =
      append_assoc past (news now scores) rest
      ∙ elim (Bool-cases (run_window window limit now scores).0.0) [
        | inl t ↦ simp (t)
        | inr f ↦ simp (f)
      ]

  allowed-Agrees :
      (nows : List ℕ) (start : ℕ) (scores past : List ℕ)
      → Rising start nows
      → Agrees start scores past
      → Agrees (last_of start nows) (scores_after nows scores) (past ++ allowed_at nows scores)
  unfolding scores_after allowed_at
  allowed-Agrees [] start scores past r a = rw append-nil a
  allowed-Agrees (now ∷ nows) start scores past r a =
      let scores' = (run_window window limit now scores).1 in
      rw (← news-append now scores past (allowed_at nows scores')) (
        allowed-Agrees nows now scores' (past ++ news now scores) r.1
          (run_window-Agrees start now scores past r.0 a))

  -- After requests at instants that do not go back, a request is allowed exactly if fewer than the
  -- limit were allowed in the window that ends with it.
  pub run_window-quota :
      (nows : List ℕ) (now : ℕ)
      → Rising 0 nows
      → last_of 0 nows ≤ now
      → ((run_window window limit now (scores_after nows [])).0.0 ≡ true)
        ↔ (length (keep (recent window now) (allowed_at nows [])) < limit)
  unfolding run_window
  run_window-quota nows now r h =
      let same = allowed-Agrees nows 0 [] [] r (λ later h. refl) now h in
      ground (arith, ap length same)
