-- ===== src/Prelude/Text.antt =====
-- The functions of Go's `strings` that the program calls, over the native texts, and Go's order on
-- strings. `len` of a string is `len` of `Prim.Native.String`: it counts bytes.
use Prim.Native.Char.{Char, code}
use Prim.Native.Nat.{ℕ, ◌+◌, ◌-◌}
use Prim.Native.String
use Prim.Native.String.{String, ◌++◌}
use mathlib.Core.Path.{◌≡◌, refl}
use mathlib.Core.Bool.{Bool, true, false, ◌&&◌, ◌||◌, Bool-discrete}
use mathlib.Core.List.{List}
use mathlib.Core.Logic.{dite}
use native.Mathlib.Omega.{arith}
use text.Mathlib.Text.{◌==◌, starts_with}
use text.Mathlib.TextEquality.{eq_iff, Char-path}
use k8gb.Prelude.Tests.{ltb, leb, nat_eq, if◌then◌else◌}

unfoldable pub text_discrete : Discrete String
text_discrete s t =
    dite (Bool-discrete (s == t) true) (λ same. yes ((eq_iff s t).0 same))
      (λ differ. no (λ p. differ ((eq_iff s t).1 p)))

-- `strings.Contains(s, part)`
unfoldable pub contains_text : String → String → Bool
contains_text String.[] part = starts_with String.[] part
contains_text (String.◌∷◌ c s) part = starts_with (String.◌∷◌ c s) part || contains_text s part

-- `strings.TrimSuffix(s, suffix)`
unfoldable pub trim_suffix : String → String → String
trim_suffix String.[] suffix = String.[]
trim_suffix (String.◌∷◌ c s) suffix =
    let rest = trim_suffix s suffix in
    if String.◌∷◌ c s == suffix then String.[] else String.◌∷◌ c rest

-- `strings.ReplaceAll(s, old, new)` for an `old` of one character
unfoldable pub replace_char : ℕ → String → String → String
replace_char old new String.[] = String.[]
replace_char old new (String.◌∷◌ c s) =
    (if nat_eq (code c) old then new else String.◌∷◌ c String.[]) ++ replace_char old new s

-- `strings.Split(s, sep)` for a separator of one character: never empty
abbrev pub glue : Char → List String → List String
glue c List.[] = List.[]
glue c (List.◌∷◌ p ps) = List.◌∷◌ (String.◌∷◌ c p) ps

unfoldable pub split_char : ℕ → String → List String
split_char sep String.[] = List.◌∷◌ "" List.[]
split_char sep (String.◌∷◌ c s) =
    let rest = split_char sep s in if nat_eq (code c) sep then List.◌∷◌ "" rest else glue c rest

-- `strings.Trim(s, cutset)` for a set of one character
unfoldable pub trim_left : ℕ → String → String
trim_left c String.[] = String.[]
trim_left c (String.◌∷◌ d s) =
    let rest = trim_left c s in if nat_eq (code d) c then rest else String.◌∷◌ d s

abbrev pub push_trimmed : ℕ → Char → String → String
push_trimmed c d String.[] = if nat_eq (code d) c then String.[] else String.◌∷◌ d String.[]
push_trimmed c d (String.◌∷◌ e s) = String.◌∷◌ d (String.◌∷◌ e s)

unfoldable pub trim_right : ℕ → String → String
trim_right c String.[] = String.[]
trim_right c (String.◌∷◌ d s) = push_trimmed c d (trim_right c s)

-- `strings.ToLower` where the result is compared with ASCII: two other letters have an ASCII lower
-- case, the dotted capital I and the Kelvin sign. The rest of Unicode is left as it is.
nth_letter : ℕ → String
nth_letter n = String.slice "abcdefghijklmnopqrstuvwxyz" n (n + 1)

lower_char : Char → String
unfolding nth_letter
lower_char c =
    if leb b'A' (code c) && leb (code c) b'Z'
    then nth_letter (code c - b'A')
    else if nat_eq (code c) 0x130
    then "i"
    else if nat_eq (code c) 0x212A
    then "k"
    else String.◌∷◌ c String.[]

unfoldable pub to_lower : String → String
unfolding lower_char
to_lower String.[] = String.[]
to_lower (String.◌∷◌ c s) = lower_char c ++ to_lower s

-- `s < t`: the bytes of UTF-8 and the code points give one order.
unfoldable pub ltb_text : String → String → Bool
ltb_text String.[] String.[] = false
ltb_text String.[] (String.◌∷◌ d t) = true
ltb_text (String.◌∷◌ c s) String.[] = false
ltb_text (String.◌∷◌ c s) (String.◌∷◌ d t) =
    let rest = ltb_text s t in
    if ltb (code c) (code d) then true else if nat_eq (code c) (code d) then rest else false

pub ltb_text_irrefl : (s : String) → ltb_text s s ≡ false
unfolding ltb_text
ltb_text_irrefl String.[] = refl
ltb_text_irrefl (String.◌∷◌ c s) = ground (arith, ltb_text_irrefl s)

pub ltb_text_asym : (s t : String) → ltb_text s t ≡ true → ltb_text t s ≡ false
unfolding ltb_text
ltb_text_asym String.[] String.[] h = refl
ltb_text_asym String.[] (String.◌∷◌ d t) h = refl
ltb_text_asym (String.◌∷◌ c s) String.[] h = cc
ltb_text_asym (String.◌∷◌ c s) (String.◌∷◌ d t) h = ground (arith, ltb_text_asym s t)

-- The order is total, so "not before" is transitive.
pub ltb_text_trans :
    (r s t : String) → ltb_text s r ≡ false → ltb_text t s ≡ false → ltb_text t r ≡ false
unfolding ltb_text
ltb_text_trans String.[] String.[] String.[] h k = refl
ltb_text_trans String.[] String.[] (String.◌∷◌ e t) h k = refl
ltb_text_trans String.[] (String.◌∷◌ d s) String.[] h k = ground arith
ltb_text_trans String.[] (String.◌∷◌ d s) (String.◌∷◌ e t) h k = refl
ltb_text_trans (String.◌∷◌ c r) String.[] String.[] h k = ground arith
ltb_text_trans (String.◌∷◌ c r) String.[] (String.◌∷◌ e t) h k = ground arith
ltb_text_trans (String.◌∷◌ c r) (String.◌∷◌ d s) String.[] h k = ground arith
ltb_text_trans (String.◌∷◌ c r) (String.◌∷◌ d s) (String.◌∷◌ e t) h k =
    ground (arith, ltb_text_trans r s t)

pub ltb_text_antisym : (s t : String) → ltb_text s t ≡ false → ltb_text t s ≡ false → s ≡ t
unfolding ltb_text
ltb_text_antisym String.[] String.[] h k = refl
ltb_text_antisym String.[] (String.◌∷◌ d t) h k = ground arith
ltb_text_antisym (String.◌∷◌ c s) String.[] h k = ground arith
ltb_text_antisym (String.◌∷◌ c s) (String.◌∷◌ d t) h k =
    let same : (code c ≡ code d) × (s ≡ t) = ground (arith, ltb_text_antisym s t) in
    λ i. String.◌∷◌ (Char-path c d same.0 i) (same.1 i)
