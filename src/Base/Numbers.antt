-- ===== src/Base/Numbers.antt =====
-- strconv.Atoi, on an int of 64 bits.
use Prim.Native.Nat.{ℕ, ◌+◌, ◌-◌, ◌*◌, ◌^◌}
use mathlib.Core.Bool.{Bool, ◌&&◌}
use mathlib.Core.List.{[], ◌∷◌}
use mathlib.Core.Option.{Option, none, some}
use helix_gateway.Base.Tests.{if◌then◌else◌, leb, ltb, ◌==◌}
use helix_gateway.Base.Int.{ℤ, pos, negsuc}
use helix_gateway.Base.Strings.{Text}

abbrev pub is_digit : ℕ → Bool
is_digit c = leb b'0' c && leb c b'9'

-- The value of the digits, after those that are read into `n`; `none` at another character.
unfoldable pub digits_from : ℕ → Text → Option ℕ
digits_from n [] = some n
digits_from n (c ∷ s) =
    let rest = digits_from (n * 10 + (c - b'0')) s in if is_digit c then rest else none

-- The value of a text of digits, of which there is one at least.
abbrev pub digits : Text → Option ℕ
digits [] = none
digits (c ∷ s) = digits_from 0 (c ∷ s)

-- The numbers in the range of the type.
abbrev pub int_pos : ℕ → Option ℤ
int_pos n = if ltb n (2 ^ 63) then some (pos n) else none

abbrev pub int_neg : ℕ → Option ℤ
int_neg n =
    if n == 0 then some (pos 0) else (if leb n (2 ^ 63) then some (negsuc (n - 1)) else none)

abbrev pub ranged : (ℕ → Option ℤ) → Option ℕ → Option ℤ
ranged f none = none
ranged f (some n) = f n

-- strconv.Atoi
unfoldable pub atoi : Text → Option ℤ
atoi [] = none
atoi (c ∷ s) =
    if c == b'-'
    then ranged int_neg (digits s)
    else (if c == b'+' then ranged int_pos (digits s) else ranged int_pos (digits (c ∷ s)))
