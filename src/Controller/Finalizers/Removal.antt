-- ===== src/Controller/Finalizers/Removal.antt =====
-- Lemmas on `remove` (controllers/finalize.go).
use k8gb.Prelude.{
  ℕ, zero, suc, ◌-◌, ◌≡◌, refl, sym, ap, ◌∙◌, arith, inl, inr, String, true, false, not, some, List,
  [], ◌∷◌, ◌++◌, ◌==◌, length, length-append, take, drop, get_elem?, filter, Bool-cases, leb,
}
use mathlib.Core.List.{append_assoc}
use k8gb.Prelude.Positions.{
  get-drop, take-length, length-take, take-suc, length-drop, drop-drop, take-append, drop-append,
  length-drop_last, length-drop_one, drop_one, take_all,
}
use k8gb.Effect.{ok}
use k8gb.Controller.Finalizers.{contains, remove, remove_loop, shift_left}

-- The item occurs at most once.
abbrev pub AtMostOnce : String → List String → Type 0
AtMostOnce s [] = Unit
AtMostOnce s (x ∷ xs) = (x == s ≡ true → contains xs s ≡ false) × AtMostOnce s xs

abbrev pub without : String → List String → List String
without s = filter (λ v. not (v == s))

-- Rounds that do not meet the item leave the array as it is.
remove_loop_absent :
    (s : String) (suf : List String) (i : ℕ) (array : List String) (len : ℕ)
    → drop i array ≡ suf
    → contains suf s ≡ false
    → remove_loop s (length suf) i array len ≡ ok (take len array)
unfolding remove_loop contains
remove_loop_absent s [] i array len h c = refl
remove_loop_absent s (v ∷ rest) i array len h c =
    let (g, d) = get-drop i array h in
    ground (arith, g, remove_loop_absent s rest (suc i) array len d)

contains-drop :
    (s : String) (n : ℕ) (xs : List String) → contains xs s ≡ false → contains (drop n xs) s ≡ false
unfolding contains
contains-drop s zero xs h = h
contains-drop s (suc n) [] h = refl
contains-drop s (suc n) (x ∷ xs) h = contains-drop s n xs (ground arith)

contains-append :
    (s : String) (xs ys : List String)
    → contains xs s ≡ false
    → contains ys s ≡ false
    → contains (xs ++ ys) s ≡ false
unfolding contains
contains-append s [] ys h k = k
contains-append s (x ∷ xs) ys h k = ground (arith, contains-append s xs ys)

pub without_absent : (s : String) (xs : List String) → contains xs s ≡ false → without s xs ≡ xs
unfolding contains
without_absent s [] h = refl
without_absent s (x ∷ xs) h = ground (arith, without_absent s xs)

-- After the hit, the rounds that are left meet the item no more, though they run past the list.
rest_of_array :
    (s : String) (i n : ℕ) (array rest : List String) {v : String}
    → drop i array ≡ v ∷ rest
    → length array ≡ suc n
    → contains rest s ≡ false
    → contains (drop 1 (rest ++ drop n array)) s ≡ false
unfolding contains
rest_of_array s i n array [] h l c = rw (drop_one (drop n array) (length-drop_last array n l)) refl
rest_of_array s i n array (r ∷ rs) h l c = contains-append s rs (drop n array) (ground arith) (
    rw
      (
        drop-drop (suc i) (length rs) n array (omega (arith, length-drop i array h)),
        (get-drop i array h).1,
      )
      (contains-drop s (length rs) (r ∷ rs) c))

abbrev after_hit : ℕ → ℕ → List String → List String → List String
after_hit i n array rest = take i array ++ (rest ++ drop n array)

hit :
    (s : String) (i n : ℕ) (array rest : List String) {v : String}
    → drop i array ≡ v ∷ rest
    → length array ≡ suc n
    → contains rest s ≡ false
    → remove_loop s (length rest) (suc i) (after_hit i n array rest) n ≡ ok (take i array ++ rest)
hit s i n array rest h l c =
    let kept : length rest ≡ length (drop 1 (rest ++ drop n array)) =
      sym (length-drop_one rest (drop n array) (length-drop_last array n l)) in
    let at_i : drop (suc i) (after_hit i n array rest) ≡ drop 1 (rest ++ drop n array) =
      ap (λ k. drop (suc k) (after_hit i n array rest)) (sym (length-take i array h))
      ∙ drop-append (take i array) _ in
    ap (λ k. remove_loop s k (suc i) (after_hit i n array rest) n) kept
    ∙ remove_loop_absent s (drop 1 (rest ++ drop n array)) (suc i) (after_hit i n array rest) n at_i
        (rest_of_array s i n array rest h l c)
    ∙ ap ok (
        ap (take n) (sym (append_assoc (take i array) rest (drop n array)))
        ∙ ap (λ k. take k ((take i array ++ rest) ++ drop n array))
            (omega (
              arith,
              length-drop i array h,
              length-take i array h,
              length-append (take i array) rest,
            ))
        ∙ take-append (take i array ++ rest) (drop n array))

in_list :
    (i n : ℕ) (array : List String) {v : String} {rest : List String}
    → drop i array ≡ v ∷ rest
    → length array ≡ n
    → leb (suc i) n ≡ true
in_list i n array h l = ground (arith, l, length-drop i array h)

without_hit :
    (s v : String) (rest : List String)
    → v == s ≡ true
    → contains rest s ≡ false
    → without s (v ∷ rest) ≡ rest
without_hit s v rest e c = rw e (without_absent s rest c)

step_hit :
    (s : String) (k i n : ℕ) (array : List String) {v : String}
    → get_elem? array i ≡ some v
    → v == s ≡ true
    → leb (suc i) n ≡ true
    → remove_loop s (suc k) i array n ≡ remove_loop s k (suc i) (shift_left i n array) (n - 1)
unfolding remove_loop
step_hit s k i n array g e b = rw (g, remove_loop, e, b) refl

remove_loop_once :
    (s : String) (suf : List String) (i n : ℕ) (array : List String)
    → drop i array ≡ suf
    → length array ≡ n
    → AtMostOnce s suf
    → remove_loop s (length suf) i array n ≡ ok (take i array ++ without s suf)
unfolding remove_loop
remove_loop_once s [] i n array h l once =
    ap ok (ap (λ k. take k array) (sym l) ∙ take-length array ∙ sym (take_all i array h))
remove_loop_once s (v ∷ rest) i n array h l (first, others) = elim (Bool-cases (v == s)) [
  | inl e ↦
      step_hit s (length rest) i n array (get-drop i array h).0 e (in_list i n array h l)
      ∙ ap
          (λ xs.
            remove_loop s (length rest) (suc i) (take i array ++ (xs ++ drop (n - 1) array))
              (n - 1))
          (ap (drop (suc i)) (ap (λ k. take k array) (sym l) ∙ take-length array)
            ∙ (get-drop i array h).1)
      ∙ hit s i (n - 1) array rest h (omega (arith, l, length-drop i array h)) (first e)
      ∙ ap (λ r. ok (take i array ++ r)) (sym (without_hit s v rest e (first e)))
  | inr e ↦
      rw ((get-drop i array h).0, remove_loop, e)
        (remove_loop_once s rest (suc i) n array (get-drop i array h).1 l others
          ∙ ap ok (take-suc i array h (without s rest)))
]

-- If the item occurs at most once, then `remove` does not panic, and returns the other items in their
-- order.
pub remove-eq-filter :
    (s : String) (list : List String) → AtMostOnce s list → remove list s ≡ ok (without s list)
unfolding remove
remove-eq-filter s list once = remove_loop_once s list 0 (length list) list refl refl once
