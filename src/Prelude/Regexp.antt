-- ===== src/Prelude/Regexp.antt =====
-- Go's `regexp` for the constructs that the program's patterns use, matched by derivatives. Each
-- pattern is anchored by `^` and `$`, so it is matched against the whole text.
use Prim.Native.Char.{code}
use Prim.Native.Nat.{ℕ}
use Prim.Native.String.{String}
use mathlib.Core.Bool.{Bool, true, false, ◌&&◌, ◌||◌}
use k8gb.Prelude.Tests.{leb, nat_eq, if◌then◌else◌}

-- `nothing` matches no text, and `one_of p` one character that satisfies `p`.
pub data Regexp : Type 0 where
  nothing blank : Regexp
  one_of : (ℕ → Bool) → Regexp
  seq alt : Regexp → Regexp → Regexp
  star : Regexp → Regexp

abbrev pub opt : Regexp → Regexp
opt r = alt blank r

abbrev pub letter : ℕ → Regexp
letter c = one_of (nat_eq c)

unfoldable pub is_lower_letter : ℕ → Bool
is_lower_letter c = leb b'a' c && leb c b'z'

unfoldable pub is_letter : ℕ → Bool
unfolding is_lower_letter
is_letter c = is_lower_letter c || leb b'A' c && leb c b'Z'

unfoldable pub is_digit : ℕ → Bool
is_digit c = leb b'0' c && leb c b'9'

unfoldable pub nullable : Regexp → Bool
nullable nothing = false
nullable blank = true
nullable (one_of p) = false
nullable (seq r s) = nullable r && nullable s
nullable (alt r s) = nullable r || nullable s
nullable (star r) = true

-- `seq` and `alt` without dead branches
unfoldable pub join : Regexp → Regexp → Regexp
join nothing s = nothing
join blank s = s
join (one_of p) s = seq (one_of p) s
join (seq q r) s = seq (seq q r) s
join (alt q r) s = seq (alt q r) s
join (star r) s = seq (star r) s

unfoldable pub either : Regexp → Regexp → Regexp
either nothing s = s
either blank s = alt blank s
either (one_of p) s = alt (one_of p) s
either (seq q r) s = alt (seq q r) s
either (alt q r) s = alt (alt q r) s
either (star r) s = alt (star r) s

-- What is left to match after the character `c`.
unfoldable pub derive : ℕ → Regexp → Regexp
unfolding nullable join either
derive c nothing = nothing
derive c blank = nothing
derive c (one_of p) = if p c then blank else nothing
derive c (seq r s) =
    let after = derive c s in
    let here = join (derive c r) s in if nullable r then either here after else here
derive c (alt r s) = either (derive c r) (derive c s)
derive c (star r) = join (derive c r) (star r)

unfoldable pub matches : Regexp → String → Bool
unfolding derive
matches r String.[] = nullable r
matches r (String.◌∷◌ c s) = matches (derive (code c) r) s
