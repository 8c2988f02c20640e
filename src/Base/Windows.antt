-- ===== src/Base/Windows.antt =====
-- The newest elements of a history, as a bounded buffer keeps them.
use Prim.Native.Nat.{ℕ, zero, suc, ◌+◌, ◌-◌, ◌≤◌, ◌<◌}
use mathlib.Core.Path.{◌≡◌, refl, sym, ◌∙◌, ap}
use mathlib.Core.Bool.{Bool, true, false}
use mathlib.Core.List.{List, [], ◌∷◌, ◌++◌}
use native.Mathlib.Omega.{arith}
use helix_gateway.Base.Tests.{if◌then◌else◌, leb, leb→le}
use helix_gateway.Base.Lists.{length, drop, tail, length-append, length-drop}

-- The newest m elements.
abbrev pub newest {ℓ} : {A : Type ℓ} → ℕ → List A → List A
newest m past = drop (length past - m) past

drop-append {ℓ} :
    {A : Type ℓ} (n : ℕ) (xs : List A) (x : A)
    → n ≤ length xs
    → drop n (xs ++ x ∷ []) ≡ drop n xs ++ x ∷ []
drop-append zero xs x h = refl
drop-append (suc n) [] x h = elim h [ ]
drop-append (suc n) (y ∷ xs) x h = drop-append n xs x (omega arith)

tail-drop {ℓ} : {A : Type ℓ} (n : ℕ) (xs : List A) → tail (drop n xs) ≡ drop (suc n) xs
tail-drop zero [] = refl
tail-drop zero (x ∷ xs) = refl
tail-drop (suc n) [] = refl
tail-drop (suc n) (x ∷ xs) = tail-drop n xs

push-drop {ℓ} :
    {A : Type ℓ} (m : ℕ) (past : List A) (b : Bool)
    → 0 < m
    → leb m (length (drop (length past - m) past)) ≡ b
    → (if b then tail (drop (length past - m) past) else drop (length past - m) past)
      ≡ drop (length past + 1 - m) past
push-drop m past true room h =
    let e : suc (length past - m) ≡ length past + 1 - m =
      omega (arith, leb→le _ _ h, length-drop (length past - m) past) in
    tail-drop (length past - m) past ∙ ap (λ n. drop n past) e
push-drop m past false room h =
    let e : length past - m ≡ length past + 1 - m =
      ground (arith, length-drop (length past - m) past) in
    ap (λ n. drop n past) e

drop-nil {ℓ} : {A : Type ℓ} (n : ℕ) → drop {A = A} n [] ≡ []
drop-nil zero = refl
drop-nil (suc n) = refl

pub newest-nil {ℓ} : {A : Type ℓ} (m : ℕ) → newest {A = A} m [] ≡ []
newest-nil m = drop-nil (0 - m)

-- A buffer that lets its oldest element go when it is full holds the newest ones.
pub newest-push {ℓ} :
    {A : Type ℓ} (m : ℕ) (past : List A) (x : A)
    → 0 < m
    → (if leb m (length (newest m past)) then tail (newest m past) else newest m past) ++ x ∷ []
      ≡ newest m (past ++ x ∷ [])
newest-push m past x room =
    let n : length (past ++ x ∷ []) ≡ length past + 1 = length-append past (x ∷ []) ∙ omega arith in
    rw n (
      ap (λ es. es ++ x ∷ []) (push-drop m past _ room refl)
      ∙ sym (drop-append (length past + 1 - m) past x (omega arith)))
