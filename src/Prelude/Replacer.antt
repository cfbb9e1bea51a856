-- ===== src/Prelude/Replacer.antt =====
-- `strings.NewReplacer(old1, new1, …).Replace` and `strconv.Itoa`. The replacer looks for the old
-- texts in the order given, at each place of the text, and goes on after what it has replaced.
use Prim.Native.Nat.{ℕ, zero, suc, ◌+◌, ◌-◌, ◌/◌, ◌%◌}
use Prim.Native.String
use Prim.Native.String.{String, ◌++◌}
use mathlib.Core.Path.{◌≡◌, refl}
use mathlib.Core.List.{List, [], ◌∷◌}
use mathlib.Core.Option.{Option, none, some}
use text.Mathlib.Text.{starts_with}
use k8gb.Prelude.Int.{ℤ, pos, negsuc}
use k8gb.Prelude.Tests.{ltb, if◌then◌else◌}

abbrev characters : String → ℕ
characters String.[] = 0
characters (String.◌∷◌ c s) = suc (characters s)

-- The first pair whose old text the text begins with. No old text is empty.
unfoldable pub first_match : List (String × String) → String → Option (String × String)
first_match [] s = none
first_match ((old, new) ∷ pairs) s =
    if starts_with s old then some (old, new) else first_match pairs s

-- What a place of the text adds, and how many of the characters after it are replaced too.
abbrev at_place : String → Option (String × String) → String × ℕ
at_place c none = (c, 0)
at_place c (some (old, new)) = (new, characters old - 1)

-- `skip` characters were replaced already.
replace_from : List (String × String) → ℕ → String → String
unfolding first_match
replace_from pairs skip String.[] = String.[]
replace_from pairs (suc skip) (String.◌∷◌ c s) = replace_from pairs skip s
replace_from pairs zero (String.◌∷◌ c s) =
    let (added, more) = at_place (String.◌∷◌ c String.[]) (first_match pairs (String.◌∷◌ c s)) in
    added ++ replace_from pairs more s

unfoldable pub replace : List (String × String) → String → String
unfolding replace_from
replace pairs s = replace_from pairs 0 s

swapped : replace (("aa", "b") ∷ ("a", "c") ∷ []) "aaaxa" ≡ "bcxc"
unfolding replace
swapped = refl

digit : ℕ → String
digit d = String.slice "0123456789" d (d + 1)

-- One round of fuel for each digit is enough, and a number has fewer digits than its value and one.
digits : ℕ → ℕ → String → String
unfolding digit
digits zero n acc = acc
digits (suc fuel) n acc =
    let rest = digits fuel (n / 10) (digit (n % 10) ++ acc) in
    if ltb n 10 then digit n ++ acc else rest

unfoldable pub itoa : ℤ → String
unfolding digits
itoa (pos n) = digits (suc n) n ""
itoa (negsuc n) = "-" ++ digits (suc (suc n)) (suc n) ""

printed : itoa (pos 5053) ≡ "5053"
unfolding itoa
printed = refl
