-- ===== src/Base/Strings.antt =====
-- Go strings as sequences of bytes, with the functions of package strings that the program uses.
-- A literal is read by its code points, which are its bytes where it is ASCII.
use Prim.Native.Char.{code}
use Prim.Native.Nat.{ℕ, ◌+◌}
use Prim.Native.String.{String}
use mathlib.Core.Path.{◌≡◌, refl}
use mathlib.Core.Logic.{◌↔◌}
use mathlib.Core.Bool.{Bool, true, false, ◌&&◌}
use mathlib.Core.List.{List, [], ◌∷◌, ◌++◌, map}
use native.Mathlib.Omega.{arith}
use helix_gateway.Base.Tests.{if◌then◌else◌, leb, ◌==◌}

abbrev pub Text : Type 0
Text = List ℕ

abbrev pub text : String → Text
text String.[] = []
text (String.◌∷◌ c s) = code c ∷ text s

unfoldable pub text_eq : Text → Text → Bool
text_eq [] [] = true
text_eq [] (y ∷ ys) = false
text_eq (x ∷ xs) [] = false
text_eq (x ∷ xs) (y ∷ ys) = x == y && text_eq xs ys

pub text_eq_iff : (s t : Text) → (text_eq s t ≡ true) ↔ (s ≡ t)
unfolding text_eq
text_eq_iff [] [] = (λ _. refl, λ _. refl)
text_eq_iff [] (y ∷ ys) = ground arith
text_eq_iff (x ∷ xs) [] = ground arith
text_eq_iff (x ∷ xs) (y ∷ ys) = ground (arith, text_eq_iff xs ys)

pub text_eq_refl : (s : Text) → text_eq s s ≡ true
text_eq_refl s = (text_eq_iff s s).1 refl

abbrev pub is_empty : Text → Bool
is_empty [] = true
is_empty (c ∷ s) = false

-- strings.HasPrefix(s, p)
unfoldable pub has_prefix : Text → Text → Bool
has_prefix s [] = true
has_prefix [] (c ∷ p) = false
has_prefix (b ∷ s) (c ∷ p) = b == c && has_prefix s p

-- s without its first bytes, as many as p has
unfoldable pub drop_length : Text → Text → Text
drop_length s [] = s
drop_length [] (c ∷ p) = []
drop_length (b ∷ s) (c ∷ p) = drop_length s p

-- strings.TrimPrefix(s, p)
unfoldable pub trim_prefix : Text → Text → Text
unfolding has_prefix drop_length
trim_prefix s p = if has_prefix s p then drop_length s p else s

pub has_prefix-append : (p s : Text) → has_prefix (p ++ s) p ≡ true
unfolding has_prefix
has_prefix-append [] [] = refl
has_prefix-append [] (b ∷ s) = refl
has_prefix-append (c ∷ p) s = ground (arith, has_prefix-append p s)

drop_length-append : (p s : Text) → drop_length (p ++ s) p ≡ s
unfolding drop_length
drop_length-append [] [] = refl
drop_length-append [] (b ∷ s) = refl
drop_length-append (c ∷ p) s = drop_length-append p s

pub trim_prefix-append : (p s : Text) → trim_prefix (p ++ s) p ≡ s
unfolding trim_prefix
trim_prefix-append p s = rw (has_prefix-append p s) (drop_length-append p s)

-- A prefix splits the text.
pub has_prefix-split : (s p : Text) → has_prefix s p ≡ true → p ++ drop_length s p ≡ s
unfolding has_prefix drop_length
has_prefix-split [] [] h = refl
has_prefix-split (b ∷ s) [] h = refl
has_prefix-split [] (c ∷ p) h = cc
has_prefix-split (b ∷ s) (c ∷ p) h = ground (arith, has_prefix-split s p)

-- strings.HasSuffix(s, p)
unfoldable pub has_suffix : Text → Text → Bool
unfolding text_eq
has_suffix [] p = text_eq [] p
has_suffix (b ∷ s) p = let rest = has_suffix s p in if text_eq (b ∷ s) p then true else rest

-- Lower case of an ASCII letter.
unfoldable pub to_lower : ℕ → ℕ
to_lower c = if leb b'A' c && leb c b'Z' then c + 32 else c

-- strings.EqualFold and strings.ToLower, where the texts are ASCII
unfoldable pub equal_fold : Text → Text → Bool
unfolding to_lower text_eq
equal_fold s t = text_eq (map to_lower s) (map to_lower t)
