-- ===== src/Prelude/Numbers.antt =====
-- `strconv.Atoi` on a 64-bit platform: the value that it returns, which on a syntax error is 0 and
-- on a range error the nearest `int`, and whether it returned no error.
use Prim.Native.Char.{code}
use Prim.Native.Nat.{ℕ, zero, suc, ◌+◌, ◌-◌, ◌*◌, ◌^◌}
use Prim.Native.String.{String}
use mathlib.Core.Bool.{Bool, true, false}
use mathlib.Core.Option.{Option, none, some}
use k8gb.Prelude.Tests.{leb, ltb, nat_eq, if◌then◌else◌}
use k8gb.Prelude.Int.{ℤ, pos, negsuc}
use k8gb.Prelude.Regexp.{is_digit}

-- The digits to the end of the text, onto the value of those before.
digits_value : String → ℕ → Option ℕ
digits_value String.[] acc = some acc
digits_value (String.◌∷◌ c s) acc =
    let rest = digits_value s (acc * 10 + (code c - b'0')) in
    if is_digit (code c) then rest else none

-- At least one digit.
unsigned : String → Option ℕ
unsigned String.[] = none
unsigned (String.◌∷◌ c s) = digits_value (String.◌∷◌ c s) 0

abbrev negate : ℕ → ℤ
negate zero = pos 0
negate (suc n) = negsuc n

positive : Option ℕ → ℤ × Bool
positive none = (pos 0, false)
positive (some n) = if ltb n (2 ^ 63) then (pos n, true) else (pos (2 ^ 63 - 1), false)

negative : Option ℕ → ℤ × Bool
negative none = (pos 0, false)
negative (some n) = if leb n (2 ^ 63) then (negate n, true) else (negate (2 ^ 63), false)

unfoldable pub atoi : String → ℤ × Bool
unfolding digits_value unsigned positive negative is_digit
atoi String.[] = (pos 0, false)
atoi (String.◌∷◌ c s) =
    if nat_eq (code c) b'-'
    then negative (unsigned s)
    else if nat_eq (code c) b'+'
    then positive (unsigned s)
    else positive (unsigned (String.◌∷◌ c s))
