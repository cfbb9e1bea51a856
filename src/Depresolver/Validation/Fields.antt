-- ===== src/Depresolver/Validation/Fields.antt =====
-- Lemmas on the checks of one field, as `validateConfig` of
-- controllers/depresolver/depresolver_config.go chains them.
use k8gb.Prelude.{
  ◌≡◌, ◌≢◌, ◌↔◌, ◌⊎◌, refl, arith, inl, inr, String, Bool, true, false, Option, none, some, List,
  [], ◌∷◌, ◌==◌, eq_iff, Bool-cases,
}
use k8gb.Prelude.Int.{ℤ, pos, leb_ℤ, ltb_ℤ}
use k8gb.Prelude.Regexp.{matches}
use k8gb.Effect.{Error}
use k8gb.Depresolver.Patterns.{Pattern, host_name_regex, ip_address_regex}
use k8gb.Depresolver.Validation.{◌⨾◌, refuse_if}
use k8gb.Depresolver.Validator.{
  Value, field, is_not_empty, match_regexp, match_regexps, regexp_loop, is_higher_than_zero,
  is_higher_or_equal_to_zero, is_less_or_equal_to, is_higher_than, is_not_equal_to, has_items,
  has_unique_items,
}
use k8gb.Depresolver.Validator.Unique.{Distinct, accepts_iff, has_unique_items_iff}

-- The text matches the whole pattern.
abbrev pub Matches : Pattern → String → Type 0
Matches p s = matches p.syntax s ≡ true

-- A host name or an address, or no text at all.
abbrev pub IsHost : String → Type 0
IsHost s = (s ≡ "") ⊎ (Matches host_name_regex s ⊎ Matches ip_address_regex s)

pub chain_iff :
    (a b : Option Error) {P Q : Type 0}
    → (a ≡ none) ↔ P
    → (b ≡ none) ↔ Q
    → ((a ⨾ b) ≡ none) ↔ (P × Q)
chain_iff none b (f, g) (h, k) = ((λ e. (f refl, h e)), λ (p, q). k q)
chain_iff (some e) b (f, g) (h, k) =
    ((λ c. absurd (ground arith)), λ (p, q). absurd (ground (arith, g p)))

pub refuse_if_iff : (b : Bool) (e : Error) → (refuse_if b e ≡ none) ↔ (b ≡ false)
refuse_if_iff b e = ground arith

pub name_iff :
    (r : Pattern) (name s : String)
    → ((match_regexp r (is_not_empty (field name (Value.text_value s)))).err ≡ none)
      ↔ ((s ≢ "") × Matches r s)
unfolding match_regexp is_not_empty field
name_iff r name s = elim (Bool-cases (s == "")) [
  | inl e ↦ rw e ((λ h. absurd (ground arith)), λ (d, _). absurd (d ((eq_iff s "").0 e)))
  | inr e ↦ rw e ground (arith, eq_iff s "")
]

pub other_name_iff :
    (r : Pattern) (name own s : String)
    → ((is_not_equal_to own (match_regexp r (is_not_empty (field name (Value.text_value s))))).err
        ≡ none)
      ↔ (((s ≢ "") × Matches r s) × (s ≢ own))
unfolding match_regexp is_not_empty field is_not_equal_to
other_name_iff r name own s = elim (Bool-cases (s == "")) [
  | inl e ↦ rw e ((λ h. absurd (ground arith)), λ ((d, _), _). absurd (d ((eq_iff s "").0 e)))
  | inr e ↦ rw e ground (arith, eq_iff s "", eq_iff s own)
]

pub IsHost-iff :
    (name s : String)
    → ((match_regexps
          (host_name_regex ∷ ip_address_regex ∷ [])
          (field name (Value.text_value s))).err
        ≡ none)
      ↔ IsHost s
unfolding match_regexps match_regexp regexp_loop field
IsHost-iff name s = ground (arith, eq_iff s "")

pub not_empty_iff :
    (name s : String) → ((is_not_empty (field name (Value.text_value s))).err ≡ none) ↔ (s ≢ "")
unfolding is_not_empty field
not_empty_iff name s = ground (arith, eq_iff s "")

pub given-IsHost_iff :
    (name s : String)
    → ((match_regexps
          (host_name_regex ∷ ip_address_regex ∷ [])
          (is_not_empty (field name (Value.text_value s)))).err
        ≡ none)
      ↔ ((s ≢ "") × IsHost s)
unfolding match_regexps match_regexp regexp_loop is_not_empty field
given-IsHost_iff name s = elim (Bool-cases (s == "")) [
  | inl e ↦ rw e ((λ h. absurd (ground arith)), λ (d, _). absurd (d ((eq_iff s "").0 e)))
  | inr e ↦ rw e ground (arith, eq_iff s "")
]

pub positive_iff :
    (name : String) (n : ℤ)
    → ((is_higher_than_zero (field name (Value.int_value n))).err ≡ none) ↔ (ltb_ℤ (pos 0) n ≡ true)
unfolding is_higher_than_zero field
positive_iff name n = accepts_iff _ _ _ refl

pub not_negative_iff :
    (name : String) (n : ℤ)
    → ((is_higher_or_equal_to_zero (field name (Value.int_value n))).err ≡ none)
      ↔ (leb_ℤ (pos 0) n ≡ true)
unfolding is_higher_or_equal_to_zero field
not_negative_iff name n = accepts_iff _ _ _ refl

pub port_iff :
    (name : String) (n : ℤ)
    → ((is_less_or_equal_to (pos 65535) (is_higher_than_zero (field name (Value.int_value n)))).err
        ≡ none)
      ↔ ((ltb_ℤ (pos 0) n ≡ true) × (leb_ℤ n (pos 65535) ≡ true))
unfolding is_higher_than_zero is_less_or_equal_to field
port_iff name n = ground arith

pub high_port_iff :
    (name : String) (n : ℤ)
    → ((is_higher_than
          (pos 1024)
          (is_less_or_equal_to (pos 65535) (field name (Value.int_value n)))).err
        ≡ none)
      ↔ ((leb_ℤ n (pos 65535) ≡ true) × (ltb_ℤ (pos 1024) n ≡ true))
unfolding is_higher_than is_less_or_equal_to field
high_port_iff name n = ground arith

pub items_iff :
    (name : String) (xs : List String)
    → ((has_unique_items (has_items (field name (Value.texts_value xs)))).err ≡ none)
      ↔ ((xs ≢ []) × Distinct xs)
unfolding has_items has_unique_items field
items_iff name [] = ((λ h. absurd (ground arith)), λ (d, _). absurd (d refl))
items_iff name (x ∷ xs) =
    let i = has_unique_items_iff name (x ∷ xs) in
    ((λ h. ((λ e. ground (arith, e)), i.0 h)), λ (_, d). i.1 d)
