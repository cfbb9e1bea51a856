-- ===== src/Depresolver/Validator.antt =====
-- controllers/depresolver/depresolver_validator.go: chained checks of one field. A method changes
-- the validator and returns it; here it returns the new one.
pub mod Unique
use k8gb.Prelude.{
  String, Bool, true, false, ◌||◌, Option, none, some, List, [], ◌∷◌, ◌==◌, nat_eq, if◌then◌else◌,
  length, is_empty,
}
use k8gb.Prelude.Dict.{Dict, insert}
use k8gb.Prelude.Text.{replace_char}
use k8gb.Prelude.Int.{ℤ, pos, leb_ℤ, ltb_ℤ}
use k8gb.Prelude.Regexp.{matches}
use k8gb.Depresolver.Patterns.{Pattern}
use k8gb.Effect.{Error, errorf}

-- The wrapper around a field that is verified.
pub record Validator : Type 0 where
  pub str_value : String
  pub str_arr : List String
  pub int_value : ℤ
  pub name : String
  pub err : Option Error

-- The dynamic types that `field` tells apart; the integer types are all converted to `int`.
pub data Value : Type 0 where
  int_value : ℤ → Value
  text_value : String → Value
  texts_value : List String → Value
  other_value : Value

empty_validator : String → Validator
empty_validator name = record {
  str_value = "";
  str_arr = [];
  int_value = pos 0;
  name = name;
  err = none;
}

unfoldable pub field : String → Value → Validator
unfolding empty_validator
field name (Value.int_value v) = record (empty_validator name) { int_value = v }
field name (Value.text_value v) = record (empty_validator name) { str_value = v }
field name (Value.texts_value v) = record (empty_validator name) { str_arr = v }
field name Value.other_value = record (empty_validator name) {
  err = some (errorf "can't parse '%v' of type '%T' as int or string" []);
}

-- `if v.err != nil { return v }`, then the error if the test fails.
abbrev check : Bool → Error → Validator → Validator
check good e v = elim v.err [ some old ↦ v | none ↦ if good then v else record v { err = some e } ]

abbrev is_none : Option Error → Bool
is_none none = true
is_none (some e) = false

unfoldable pub is_not_empty : Validator → Validator
is_not_empty v = elim v.err [
  | some old ↦ v
  | none ↦
      if v.str_value == ""
      then record v { err = some (errorf "'%s' is empty" (v.name ∷ [])) }
      else v
]

unfoldable pub match_regexp : Pattern → Validator → Validator
match_regexp regex v =
    check (v.str_value == "" || matches regex.syntax v.str_value)
      (errorf "'%s' does not match given criteria. see: https://www.regextester.com (%s)"
        (v.str_value ∷ regex.text ∷ []))
      v

-- The loop clears the error before each pattern, and stops at the first that matches.
unfoldable pub regexp_loop : List Pattern → Validator → Validator
unfolding match_regexp
regexp_loop [] v = v
regexp_loop (r ∷ rs) v =
    let next = match_regexp r (record v { err = none }) in
    let rest = regexp_loop rs next in if is_none next.err then next else rest

unfoldable pub match_regexps : List Pattern → Validator → Validator
unfolding regexp_loop
match_regexps regex v = elim v.err [ some old ↦ v | none ↦ regexp_loop regex v ]

unfoldable pub is_higher_than_zero : Validator → Validator
is_higher_than_zero v =
    check (ltb_ℤ (pos 0) v.int_value) (errorf "'%s' is less or equal to zero" (v.name ∷ [])) v

unfoldable pub is_higher_or_equal_to_zero : Validator → Validator
is_higher_or_equal_to_zero v =
    check (leb_ℤ (pos 0) v.int_value) (errorf "'%s' is less than zero" (v.name ∷ [])) v

-- The bound in the message, a number there, is left out of the arguments.
unfoldable pub is_less_or_equal_to : ℤ → Validator → Validator
is_less_or_equal_to num v =
    check (leb_ℤ v.int_value num) (errorf "'%s' is higher than '%v'" (v.name ∷ [])) v

unfoldable pub is_higher_than : ℤ → Validator → Validator
is_higher_than num v =
    check (ltb_ℤ num v.int_value) (errorf "'%s' is higher than '%v'" (v.name ∷ [])) v

unfoldable pub is_not_equal_to : String → Validator → Validator
is_not_equal_to value v = elim v.err [
  | some old ↦ v
  | none ↦
      if v.str_value == value
      then record v { err = some (errorf "'%s' can't be equal to '%s'" (v.name ∷ value ∷ [])) }
      else v
]

unfoldable pub has_items : Validator → Validator
has_items v = elim v.err [
  | some old ↦ v
  | none ↦
      if is_empty v.str_arr
      then record v { err = some (errorf "'%s' should contain at least one item" (v.name ∷ [])) }
      else v
]

-- The map that the items are the keys of.
unfoldable pub item_set : List String → Dict Bool → Dict Bool
item_set [] m = m
item_set (s ∷ ss) m = item_set ss (insert s true m)

unfoldable pub has_unique_items : Validator → Validator
unfolding item_set insert
has_unique_items v =
    check (nat_eq (length (item_set v.str_arr [])) (length v.str_arr))
      (errorf "'%s' contains redundant values '%s'" (v.name ∷ v.str_arr)) v

-- The function `isNotEmpty`, which ignores spaces.
unfoldable pub is_not_blank : String → Bool
unfolding replace_char
is_not_blank s = if replace_char b' ' "" s == "" then false else true
