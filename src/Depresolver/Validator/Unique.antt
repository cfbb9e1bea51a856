-- ===== src/Depresolver/Validator/Unique.antt =====
-- Lemmas on `has_unique_items` (controllers/depresolver/depresolver_validator.go).
use k8gb.Prelude.{
  ℕ, suc, ◌+◌, ◌≤◌, ◌≡◌, ◌≢◌, ◌↔◌, refl, sym, ap, ◌∙◌, arith, inl, inr, String, Bool, true, false,
  Option, none, some, List, [], ◌∷◌, ◌==◌, eq_iff, length, nat_eq, All, Option-cases, Bool-cases,
  if◌then◌else◌,
}
use k8gb.Prelude.Dict.{Dict, insert, lookup, lookup-insert}
use k8gb.Effect.{Error}
use k8gb.Depresolver.Validator.{Validator, Value, field, has_unique_items, item_set}

-- No item is listed twice.
abbrev pub Distinct : List String → Type 0
Distinct [] = Unit
Distinct (x ∷ xs) = All (λ y. x ≢ y) xs × Distinct xs

abbrev AllFresh : Dict Bool → List String → Type 0
AllFresh m = All (λ y. lookup y m ≡ none)

length-insert_new :
    (k : String) (m : Dict Bool) → lookup k m ≡ none → length (insert k true m) ≡ suc (length m)
unfolding insert lookup
length-insert_new k [] h = refl
length-insert_new k ((j, v) ∷ m) h = ground (arith, length-insert_new k m)

length-insert_old :
    (k : String) (m : Dict Bool) {v : Bool}
    → lookup k m ≡ some v
    → length (insert k true m) ≡ length m
unfolding insert lookup
length-insert_old k [] h = ground arith
length-insert_old k ((j, u) ∷ m) h = elim (Bool-cases (j == k)) [
  | inl e ↦ rw e refl
  | inr e ↦ rw e (ap suc (length-insert_old k m (rw e at h)))
]

length-insert_le : (k : String) (m : Dict Bool) → length (insert k true m) ≤ suc (length m)
length-insert_le k m = elim (Option-cases (lookup k m)) [
  | inl e ↦ omega (arith, length-insert_new k m e)
  | inr (v, e) ↦ omega (arith, length-insert_old k m e)
]

length-item_set_le :
    (xs : List String) (m : Dict Bool) → length (item_set xs m) ≤ length m + length xs
unfolding item_set
length-item_set_le [] m = omega arith
length-item_set_le (x ∷ xs) m =
    omega (arith, length-item_set_le xs (insert x true m), length-insert_le x m)

some-ne-none : {b : Bool} → ¬ (◌≡◌ {A = Option Bool} (some b) none)
some-ne-none h = ground arith

fresh-insert :
    (x y : String) (m : Dict Bool)
    → (lookup y (insert x true m) ≡ none) ↔ ((x ≢ y) × (lookup y m ≡ none))
fresh-insert x y m = elim (Bool-cases (x == y)) [
  | inl e ↦ (
    (λ h. absurd (some-ne-none {b = true} (sym (lookup-insert y x true m ∙ rw e refl) ∙ h))),
    λ (d, _). absurd (d ((eq_iff x y).0 e)),
  )
  | inr e ↦ (
    (λ h. ((λ p. ground (arith, e, eq_iff x y)), (sym (lookup-insert y x true m ∙ rw e refl) ∙ h))),
    λ (_, h). lookup-insert y x true m ∙ rw e h,
  )
]

AllFresh-insert :
    (x : String) (m : Dict Bool) (xs : List String)
    → AllFresh (insert x true m) xs ↔ (All (λ y. x ≢ y) xs × AllFresh m xs)
AllFresh-insert x m [] = ((λ _. (tt, tt)), λ _. tt)
AllFresh-insert x m (y ∷ ys) = (
  (λ (h, hs).
      let (d, f) = (fresh-insert x y m).0 h in
      let (ds, fs) = (AllFresh-insert x m ys).0 hs in ((d, ds), (f, fs))),
  λ ((d, ds), (f, fs)). ((fresh-insert x y m).1 (d, f), (AllFresh-insert x m ys).1 (ds, fs)),
)

too_short : (n k : ℕ) {i l : ℕ} → i ≡ n → l ≤ i + k → l ≡ n + suc k → ⊥
too_short n k a b c = omega arith

length-item_set :
    (xs : List String) (m : Dict Bool)
    → (length (item_set xs m) ≡ length m + length xs) ↔ (Distinct xs × AllFresh m xs)
unfolding item_set
length-item_set [] m = ((λ _. (tt, tt)), λ _. omega arith)
length-item_set (x ∷ xs) m = elim (Option-cases (lookup x m)) [
  | inr (v, e) ↦ (
    (λ h. absurd (
        too_short (length m) (length xs) (length-insert_old x m e)
          (length-item_set_le xs (insert x true m)) h)),
    λ (_, (n, _)). absurd (some-ne-none (sym e ∙ n)),
  )
  | inl e ↦
      (let ih = length-item_set xs (insert x true m) in
        let split = AllFresh-insert x m xs in
        let l = length-insert_new x m e in
        (
          (λ h.
              let (d, f) = ih.0 (omega (arith, l, h)) in
              let (ds, fs) = split.0 f in ((ds, d), (e, fs))),
          λ ((ds, d), (_, fs)). omega (arith, l, ih.1 (d, split.1 (ds, fs))),
        ))
]

-- A check finds no error just if its test holds.
pub accepts_iff :
    (b : Bool) (v : Validator) (e : Error)
    → v.err ≡ none
    → ((if b then v else record v { err = some e }).err ≡ none) ↔ (b ≡ true)
accepts_iff true v e n = ((λ _. refl), (λ _. n))
accepts_iff false v e n = ((λ h. cc), (λ h. cc))

nat_eq_iff : (a b : ℕ) → (nat_eq a b ≡ true) ↔ (a ≡ b)
nat_eq_iff a b = ground arith

fresh : (xs : List String) → AllFresh [] xs
unfolding lookup
fresh [] = tt
fresh (x ∷ xs) = (refl, fresh xs)

-- The check of unique items, on a list of texts, finds no error just if no item is listed twice.
pub has_unique_items_iff :
    (name : String) (xs : List String)
    → ((has_unique_items (field name (Value.texts_value xs))).err ≡ none) ↔ Distinct xs
unfolding has_unique_items field
has_unique_items_iff name xs =
    let made =
      accepts_iff (nat_eq (length (item_set xs [])) (length xs)) (field name (Value.texts_value xs))
        _ refl in
    let same = nat_eq_iff (length (item_set xs [])) (length xs) in
    let unique = length-item_set xs [] in
    (
      (λ h. (unique.0 (omega (arith, same.0 (made.0 h)))).0),
      λ d. made.1 (same.1 (omega (arith, unique.1 (d, fresh xs)))),
    )
