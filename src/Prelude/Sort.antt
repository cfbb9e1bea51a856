-- ===== src/Prelude/Sort.antt =====
-- `sort.Sort`, `sort.Slice` and `sort.Strings` as insertion sort by a strict Boolean order. Equal
-- items keep their order here; Go leaves theirs open (it keeps it too for fewer than 12 items).
use mathlib.Core.Path.{◌≡◌, refl, sym, ap, ◌∙◌}
use mathlib.Core.Bool.{Bool, true, false}
use mathlib.Core.List.{List, [], ◌∷◌, ◌++◌, Perm, foldr}
use mathlib.Core.List.Perm
use mathlib.Core.Logic.{inl, inr}
use native.Mathlib.Omega.{arith}
use k8gb.Prelude.Tests.{if◌then◌else◌, Bool-cases}
use k8gb.Prelude.Lists.{filter, All, All-imp, All-filter}

-- A strict total preorder, as `less` functions are meant to be.
pub record IsOrder {ℓ} {A : Type ℓ} (less : A → A → Bool) : Type ℓ where
  pub asym : (a b : A) → less a b ≡ true → less b a ≡ false
  pub trans : (a b c : A) → less b a ≡ false → less c b ≡ false → less c a ≡ false

module _ {ℓ} {A : Type ℓ} (less : A → A → Bool) where
  unfoldable pub insert_sorted : A → List A → List A
  insert_sorted x [] = x ∷ []
  insert_sorted x (y ∷ ys) = if less y x then y ∷ insert_sorted x ys else x ∷ y ∷ ys

  unfoldable pub sort : List A → List A
  unfolding insert_sorted
  sort [] = []
  sort (x ∷ xs) = insert_sorted x (sort xs)

  -- No later item comes before an earlier one.
  abbrev pub IsSorted : List A → Type ℓ
  IsSorted [] = Unit
  IsSorted (x ∷ xs) = All (λ y. less y x ≡ false) xs × IsSorted xs

  pub insert_sorted-perm : (x : A) (ys : List A) → Perm (insert_sorted x ys) (x ∷ ys)
  unfolding insert_sorted
  insert_sorted-perm x [] = Perm.refl _
  insert_sorted-perm x (y ∷ ys) = elim (Bool-cases (less y x)) [
    | inl e ↦ rw e (Perm.trans (Perm.cons y (insert_sorted-perm x ys)) (Perm.swap x y ys))
    | inr e ↦ rw e (Perm.refl _)
  ]

  -- Sorting loses and invents nothing.
  pub sort-perm : (xs : List A) → Perm (sort xs) xs
  unfolding sort
  sort-perm [] = Perm.refl []
  sort-perm (x ∷ xs) = Perm.trans (insert_sorted-perm x (sort xs)) (Perm.cons x (sort-perm xs))

  All-insert_sorted {κ} :
      (P : A → Type κ) (x : A) (ys : List A) → P x → All P ys → All P (insert_sorted x ys)
  unfolding insert_sorted
  All-insert_sorted P x [] p _ = (p, tt)
  All-insert_sorted P x (y ∷ ys) p (q, qs) = ground (arith, All-insert_sorted P x ys p qs)

  pub All-sort {κ} : (P : A → Type κ) (xs : List A) → All P xs → All P (sort xs)
  unfolding sort
  All-sort P [] _ = tt
  All-sort P (x ∷ xs) (p, ps) = All-insert_sorted P x (sort xs) p (All-sort P xs ps)

  -- An item before which nothing comes stays in front.
  insert_sorted-least :
      (x : A) (ys : List A) → All (λ y. less y x ≡ false) ys → insert_sorted x ys ≡ x ∷ ys
  unfolding insert_sorted
  insert_sorted-least x [] _ = refl
  insert_sorted-least x (y ∷ ys) (h, _) = rw h

  pub sort_of_IsSorted : (xs : List A) → IsSorted xs → sort xs ≡ xs
  unfolding sort
  sort_of_IsSorted [] _ = refl
  sort_of_IsSorted (x ∷ xs) (h, hs) = rw (sort_of_IsSorted xs hs) (insert_sorted-least x xs h)

module _ {ℓ} {A : Type ℓ} (less : A → A → Bool) (order : IsOrder less) where
  insert_sorted-IsSorted :
      (x : A) (ys : List A) → IsSorted less ys → IsSorted less (insert_sorted less x ys)
  unfolding insert_sorted
  insert_sorted-IsSorted x [] _ = (tt, tt)
  insert_sorted-IsSorted x (y ∷ ys) (h, hs) = elim (Bool-cases (less y x)) [
    | inl e ↦ rw e (
      All-insert_sorted less (λ z. less z y ≡ false) x ys (order.asym y x e) h,
      insert_sorted-IsSorted x ys hs,
    )
    | inr e ↦ rw e ((e, All-imp _ _ ys (λ z k. order.trans x y z e k) h), (h, hs))
  ]

  pub sort-IsSorted : (xs : List A) → IsSorted less (sort less xs)
  unfolding sort
  sort-IsSorted [] = tt
  sort-IsSorted (x ∷ xs) = insert_sorted-IsSorted x (sort less xs) (sort-IsSorted xs)

  pub sort_idempotent : (xs : List A) → sort less (sort less xs) ≡ sort less xs
  sort_idempotent xs = sort_of_IsSorted less (sort less xs) (sort-IsSorted xs)

  filter-insert_sorted :
      (p : A → Bool) (x : A) (ys : List A)
      → p x ≡ true
      → IsSorted less ys
      → filter p (insert_sorted less x ys) ≡ insert_sorted less x (filter p ys)
  unfolding insert_sorted
  filter-insert_sorted p x [] e _ = rw e
  filter-insert_sorted p x (y ∷ ys) e (h, hs) = elim (Bool-cases (less y x)) [
    | inl l ↦ ground (arith, filter-insert_sorted p x ys e hs)
    | inr l ↦
        rw (l, e)
          (sym (
            insert_sorted-least less x (filter p (y ∷ ys))
              (All-filter _ p (y ∷ ys) (l, All-imp _ _ ys (λ z k. order.trans x y z l k) h))))
  ]

  filter-insert_sorted_drop :
      (p : A → Bool) (x : A) (ys : List A)
      → p x ≡ false
      → filter p (insert_sorted less x ys) ≡ filter p ys
  unfolding insert_sorted
  filter-insert_sorted_drop p x [] e = rw e
  filter-insert_sorted_drop p x (y ∷ ys) e = ground (arith, filter-insert_sorted_drop p x ys e)

  -- Filtering and sorting commute.
  pub filter-sort : (p : A → Bool) (xs : List A) → filter p (sort less xs) ≡ sort less (filter p xs)
  unfolding sort
  filter-sort p [] = refl
  filter-sort p (x ∷ xs) = elim (Bool-cases (p x)) [
    | inl e ↦ rw e (
        filter-insert_sorted p x (sort less xs) e (sort-IsSorted xs)
        ∙ ap (insert_sorted less x) (filter-sort p xs))
    | inr e ↦ rw e (filter-insert_sorted_drop p x (sort less xs) e ∙ filter-sort p xs)
  ]

  -- Sorting the second part first changes nothing.
  pub sort-append_sort : (xs ys : List A) → sort less (xs ++ sort less ys) ≡ sort less (xs ++ ys)
  unfolding sort
  sort-append_sort [] ys = sort_idempotent ys
  sort-append_sort (x ∷ xs) ys = ap (insert_sorted less x) (sort-append_sort xs ys)

module _ {ℓ} {A : Type ℓ} (less : A → A → Bool) (order : IsOrder less)
    (antisym : (a b : A) → less a b ≡ false → less b a ≡ false → a ≡ b) where
  insert_sorted_comm :
      (x y : A) (zs : List A)
      → insert_sorted less x (insert_sorted less y zs)
        ≡ insert_sorted less y (insert_sorted less x zs)
  unfolding insert_sorted
  insert_sorted_comm x y [] = ground (arith, antisym x y, order.asym x y, order.asym y x)
  insert_sorted_comm x y (z ∷ zs) = ground (
    arith,
    insert_sorted_comm x y zs,
    antisym x y,
    order.asym x y,
    order.asym y x,
    order.asym z x,
    order.asym z y,
    order.trans x z y,
    order.trans y z x,
  )

  sort-eq-foldr : (xs : List A) → sort less xs ≡ foldr (insert_sorted less) [] xs
  unfolding sort
  sort-eq-foldr [] = refl
  sort-eq-foldr (x ∷ xs) = ap (insert_sorted less x) (sort-eq-foldr xs)

  -- Where only equal items are level, the order of the items given does not matter.
  pub sort_of_Perm : IsSet (List A) → {xs ys : List A} → Perm xs ys → sort less xs ≡ sort less ys
  sort_of_Perm set {xs} {ys} p =
      sort-eq-foldr xs
      ∙ Perm.foldr-eq set (insert_sorted less) insert_sorted_comm p []
      ∙ sym (sort-eq-foldr ys)
