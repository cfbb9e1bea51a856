-- ===== src/Prelude/Splits.antt =====
-- Lemmas on splitting and trimming texts.
use Prim.Native.Char.{Char, code}
use Prim.Native.Nat.{ℕ}
use Prim.Native.String.{String, ◌++◌}
use Prim.Native.String.append
use mathlib.Core.Path.{◌≡◌, refl, ap, ◌∙◌}
use mathlib.Core.Bool.{Bool, true, false}
use mathlib.Core.List.{List, [], ◌∷◌}
use mathlib.Core.Logic.{inl, inr}
use native.Mathlib.Omega.{arith}
use k8gb.Prelude.Tests.{Bool-cases, nat_eq}
use k8gb.Prelude.Text.{glue, push_trimmed, split_char, trim_left, trim_right}

-- The text does not hold the separator.
abbrev pub IsWhole : ℕ → String → Type 0
IsWhole sep s = split_char sep s ≡ s ∷ []

abbrev begins : ℕ → String → Bool
begins c String.[] = false
begins c (String.◌∷◌ d s) = nat_eq (code d) c

-- The text neither begins nor ends with the character.
abbrev pub IsTrimmed : ℕ → String → Type 0
IsTrimmed c s = (begins c s ≡ false) × (trim_right c s ≡ s)

abbrev first_or_empty : List String → String
first_or_empty [] = String.[]
first_or_empty (x ∷ xs) = x

abbrev rest_of : List String → List String
rest_of [] = []
rest_of (x ∷ xs) = xs

abbrev without_first : String → String
without_first String.[] = String.[]
without_first (String.◌∷◌ c s) = s

glue_inv :
    (c : Char) (s : String) (ps : List String) → glue c ps ≡ String.◌∷◌ c s ∷ [] → ps ≡ s ∷ []
glue_inv c s [] h = absurd (ground (arith, h))
glue_inv c s (p ∷ ps) h =
    ap (λ x. x ∷ ps) (ap (λ l. without_first (first_or_empty l)) h) ∙ ap (λ l. s ∷ l) (ap rest_of h)

abbrev is_blank : String → Bool
is_blank String.[] = true
is_blank (String.◌∷◌ c s) = false

not_blank : (c : Char) (s : String) → ◌≡◌ {A = String} String.[] (String.◌∷◌ c s) → ⊥
not_blank c s h = absurd (ground (arith, ap is_blank h))

-- A text without the separator is the first part of what it begins.
pub split_char-append :
    (sep : Char) (s t : String)
    → IsWhole (code sep) s
    → split_char (code sep) (s ++ String.◌∷◌ sep t) ≡ s ∷ split_char (code sep) t
unfolding split_char
split_char-append sep String.[] t h =
    ap (split_char (code sep)) (append.nil (String.◌∷◌ sep t)) ∙ ground arith
split_char-append sep (String.◌∷◌ c s) t h =
    ap (split_char (code sep)) (append.cons c s (String.◌∷◌ sep t))
    ∙ elim (Bool-cases (nat_eq (code c) (code sep))) [
      | inl e ↦ absurd (not_blank c s (ap first_or_empty (rw e at h)))
      | inr e ↦
          rw (e, split_char-append sep s t (glue_inv c s (split_char (code sep) s) (rw e at h)))
            refl
    ]

pub trim_right-append :
    (c : Char) (s : String)
    → trim_right (code c) (s ++ String.◌∷◌ c String.[]) ≡ trim_right (code c) s
unfolding trim_right
trim_right-append c String.[] =
    ap (trim_right (code c)) (append.nil (String.◌∷◌ c String.[])) ∙ ground arith
trim_right-append c (String.◌∷◌ d s) =
    ap (trim_right (code c)) (append.cons d s (String.◌∷◌ c String.[]))
    ∙ ap (push_trimmed (code c) d) (trim_right-append c s)

nat_eq_refl : (n : ℕ) → nat_eq n n ≡ true
nat_eq_refl n = ground arith

trim_left_begun :
    (c : Char) (s : String)
    → begins (code c) s ≡ false
    → trim_right (code c) (trim_left (code c) (s ++ String.◌∷◌ c String.[])) ≡ trim_right (code c) s
unfolding trim_left trim_right
trim_left_begun c String.[] h =
    ap (λ t. trim_right (code c) (trim_left (code c) t)) (append.nil (String.◌∷◌ c String.[]))
    ∙ rw (nat_eq_refl (code c)) refl
trim_left_begun c (String.◌∷◌ d s) h =
    ap (λ t. trim_right (code c) (trim_left (code c) t)) (append.cons d s (String.◌∷◌ c String.[]))
    ∙ rw h (ap (push_trimmed (code c) d) (trim_right-append c s))

-- Trimming undoes quoting.
pub trim-quoted :
    (c : Char) (s : String)
    → IsTrimmed (code c) s
    → trim_right (code c) (trim_left (code c) (String.◌∷◌ c (s ++ String.◌∷◌ c String.[]))) ≡ s
unfolding trim_left
trim-quoted c s (b, e) = rw (nat_eq_refl (code c)) (trim_left_begun c s b ∙ e)
