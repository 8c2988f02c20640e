-- ===== src/Config/Lists.antt =====
-- The lists that splitEnv reads.
use helix_gateway.Base.{
  Text, is_empty, not, ◌==◌, true, false, List, [], ◌∷◌, ◌++◌, Table, All, all, refl, ◌≡◌, arith,
}
use helix_gateway.Plugins.Http.{trim_space}
use helix_gateway.Config.{getenv, env, split, clean, split_env}

-- An entry of a list: not empty, without white space around it, and without the separator.
abbrev pub IsEntry : Text → Type 0
IsEntry s = (is_empty s ≡ false) × (trim_space s ≡ s) × (all (λ c. not (c == b',')) s ≡ true)

-- The entries with commas between them.
unfoldable pub joined : Text → List Text → Text
joined x [] = x
joined x (y ∷ ys) = x ++ b',' ∷ joined y ys

split-one : (s : Text) → all (λ c. not (c == b',')) s ≡ true → split b',' s ≡ s ∷ []
unfolding split
split-one [] h = refl
split-one (c ∷ s) h =
    let no : (c == b',') ≡ false = ground arith in
    let rest : all (λ c. not (c == b',')) s ≡ true = ground arith in rw (no, split-one s rest) refl

split-before :
    (s t : Text)
    → all (λ c. not (c == b',')) s ≡ true
    → split b',' (s ++ b',' ∷ t) ≡ s ∷ split b',' t
unfolding split
split-before [] t h = refl
split-before (c ∷ s) t h =
    let no : (c == b',') ≡ false = ground arith in
    let rest : all (λ c. not (c == b',')) s ≡ true = ground arith in
    rw (no, split-before s t rest) refl

clean-entry : (s : Text) (ss : List Text) → IsEntry s → clean (s ∷ ss) ≡ s ∷ clean ss
unfolding clean
clean-entry s ss (some_text, trimmed, _) = rw (trimmed, some_text) refl

split-joined :
    (x : Text) (xs : List Text) → All IsEntry (x ∷ xs) → clean (split b',' (joined x xs)) ≡ x ∷ xs
unfolding joined
split-joined x [] (h, _) = rw (split-one x h.2, clean-entry x [] h) (unfold clean in refl)
split-joined x (y ∷ ys) (h, rest) =
    rw
      (
        split-before x (joined y ys) h.2,
        clean-entry x (split b',' (joined y ys)) h,
        split-joined y ys rest,
      )
      refl

joined-some : (x : Text) (xs : List Text) → is_empty x ≡ false → is_empty (joined x xs) ≡ false
unfolding joined
joined-some x [] h = h
joined-some [] (y ∷ ys) h = cc
joined-some (c ∷ x) (y ∷ ys) h = refl

-- A variable that holds entries with commas between them is read as the list of these entries,
-- whatever the default; an entry is not empty, has no white space around it and no comma.
split_env-joined :
    (e : Table Text) (k default x : Text) (xs : List Text)
    → getenv k e ≡ joined x xs
    → All IsEntry (x ∷ xs)
    → split_env e k default ≡ x ∷ xs
unfolding split_env env
split_env-joined e k default x xs h entries =
    let full = joined-some x xs entries.0.0 in rw (h, full) (rw full (split-joined x xs entries))
