-- ===== src/Prelude/Positions.antt =====
-- Positions in lists: what `take`, `drop` and `get_elem?` do with one another.
use Prim.Native.Nat.{ℕ, zero, suc, ◌+◌}
use mathlib.Core.Path.{◌≡◌, refl, sym, ap}
use mathlib.Core.Option.{some}
use mathlib.Core.List.{List, [], ◌∷◌, ◌++◌}
use native.Mathlib.Omega.{arith}
use k8gb.Prelude.Lists.{drop, get_elem?, length, length-append, take}

module _ {ℓ} {A : Type ℓ} where
  pub get-drop :
      (i : ℕ) (xs : List A) {v : A} {rest : List A}
      → drop i xs ≡ v ∷ rest
      → (get_elem? xs i ≡ some v) × (drop (suc i) xs ≡ rest)
  get-drop zero [] h = ground arith
  get-drop zero (x ∷ xs) h = ground arith
  get-drop (suc i) [] h = ground arith
  get-drop (suc i) (x ∷ xs) h = get-drop i xs h

  pub take-length : (xs : List A) → take (length xs) xs ≡ xs
  take-length [] = refl
  take-length (x ∷ xs) = ap (λ r. x ∷ r) (take-length xs)

  pub length-take :
      (i : ℕ) (xs : List A) {v : A} {rest : List A} → drop i xs ≡ v ∷ rest → length (take i xs) ≡ i
  length-take zero xs h = refl
  length-take (suc i) [] h = ground arith
  length-take (suc i) (x ∷ xs) h = omega (arith, length-take i xs h)

  -- `take i array ++ drop i array` with one more item taken.
  pub take-suc :
      (i : ℕ) (xs : List A) {v : A} {rest : List A}
      → drop i xs ≡ v ∷ rest
      → (ys : List A) → take (suc i) xs ++ ys ≡ take i xs ++ (v ∷ ys)
  take-suc zero [] h ys = ground arith
  take-suc zero (x ∷ xs) {v} h ys = cc
  take-suc (suc i) [] h ys = ground arith
  take-suc (suc i) (x ∷ xs) h ys = ap (λ r. x ∷ r) (take-suc i xs h ys)

  pub length-drop :
      (i : ℕ) (xs : List A) {v : A} {rest : List A}
      → drop i xs ≡ v ∷ rest
      → length xs ≡ i + suc (length rest)
  length-drop zero xs h = omega (arith, ap length h)
  length-drop (suc i) [] h = ground arith
  length-drop (suc i) (x ∷ xs) h = omega (arith, length-drop i xs h)

  drop_nil : (m : ℕ) → drop {A = A} m [] ≡ []
  drop_nil zero = refl
  drop_nil (suc m) = refl

  pub drop-drop : (i m n : ℕ) (xs : List A) → n ≡ i + m → drop n xs ≡ drop m (drop i xs)
  drop-drop zero m n xs e = ap (λ k. drop k xs) (omega arith)
  drop-drop (suc i) m zero xs e = ground arith
  drop-drop (suc i) m (suc n) [] e = sym (drop_nil m)
  drop-drop (suc i) m (suc n) (x ∷ xs) e = drop-drop i m n xs (omega arith)

  pub take-append : (xs ys : List A) → take (length xs) (xs ++ ys) ≡ xs
  take-append [] ys = refl
  take-append (x ∷ xs) ys = ap (λ r. x ∷ r) (take-append xs ys)

  pub drop-append : (xs ys : List A) → drop (suc (length xs)) (xs ++ ys) ≡ drop 1 ys
  drop-append [] ys = refl
  drop-append (x ∷ xs) ys = drop-append xs ys

  pub length-drop_last : (xs : List A) (n : ℕ) → length xs ≡ suc n → length (drop n xs) ≡ 1
  length-drop_last [] n h = omega arith
  length-drop_last (x ∷ xs) zero h = h
  length-drop_last (x ∷ xs) (suc n) h = length-drop_last xs n (omega arith)

  pub length-drop_one : (xs ys : List A) → length ys ≡ 1 → length (drop 1 (xs ++ ys)) ≡ length xs
  length-drop_one [] [] h = omega arith
  length-drop_one [] (y ∷ ys) h = omega arith
  length-drop_one (x ∷ xs) ys h = omega (arith, length-append xs ys)

  pub drop_one : (xs : List A) → length xs ≡ 1 → drop 1 xs ≡ []
  drop_one [] h = refl
  drop_one (x ∷ []) h = refl
  drop_one (x ∷ y ∷ xs) h = ground arith

  pub take_all : (i : ℕ) (xs : List A) → drop i xs ≡ [] → take i xs ++ [] ≡ xs
  take_all zero xs h = sym h
  take_all (suc i) [] h = refl
  take_all (suc i) (x ∷ xs) h = ap (λ r. x ∷ r) (take_all i xs h)
