-- ===== src/Prelude/Permuted.antt =====
-- Lists in another order: what a loop over a map visits.
use Prim.Native.Nat.{suc}
use Prim.Native.String.{String}
use mathlib.Core.HLevel.{hedberg, ×_discrete}
use mathlib.Core.Path.{◌≡◌, refl, ap, sym, subst, ◌∙◌}
use mathlib.Core.Option.{Option, none}
use mathlib.Core.Option
use mathlib.Core.Logic.{∥∥₁_elim}
use mathlib.Core.List.{
  List, [], ◌∷◌, List-discrete, Perm, Permᴰ, Perm-prop, append_assoc, flat_map, perm_append_comm,
}
use mathlib.Core.List.Perm
use native.Mathlib.Nat.{ℕ_set}
use native.Mathlib.Omega.{arith}
use text.Mathlib.TextEquality.{eq_iff}
use k8gb.Prelude.Dict.{Dict, lookup, NodupKeys}
use k8gb.Prelude.Lists.{All, length}
use k8gb.Prelude.Sort.{IsOrder, sort, sort_of_Perm}
use k8gb.Prelude.Text.{ltb_text, ltb_text_antisym, ltb_text_asym, ltb_text_trans, text_discrete}

module _ {ℓ κ} {A : Type ℓ} {B : Type κ} (f : A → List B) where
  flat_map-swap : (a b : A) (l : List A) → Perm (flat_map f (a ∷ b ∷ l)) (flat_map f (b ∷ a ∷ l))
  unfolding flat_map
  flat_map-swap a b l =
      rw (← append_assoc (f a) (f b) (flat_map f l), ← append_assoc (f b) (f a) (flat_map f l))
        (Perm.append_right (flat_map f l) (perm_append_comm (f a) (f b)))

  flat_map-Permᴰ : {xs ys : List A} → Permᴰ xs ys → Perm (flat_map f xs) (flat_map f ys)
  unfolding flat_map
  flat_map-Permᴰ Permᴰ.nil = Perm.refl []
  flat_map-Permᴰ (Permᴰ.cons {b = b} e p) = rw e (Perm.append_left (f b) (flat_map-Permᴰ p))
  flat_map-Permᴰ (Permᴰ.swap {a' = a'} {b' = b'} {l = l} e e') = rw (e, e') (flat_map-swap b' a' l)
  flat_map-Permᴰ (Permᴰ.trans p q) = Perm.trans (flat_map-Permᴰ p) (flat_map-Permᴰ q)

  pub flat_map-perm : {xs ys : List A} → Perm xs ys → Perm (flat_map f xs) (flat_map f ys)
  flat_map-perm p = ∥∥₁_elim p Perm-prop flat_map-Permᴰ

module _ {ℓ} {A : Type ℓ} (P : A → Type 0) where
  All-Permᴰ : {xs ys : List A} → Permᴰ xs ys → All P xs → All P ys
  All-Permᴰ Permᴰ.nil _ = tt
  All-Permᴰ (Permᴰ.cons e p) (h, hs) = (rw e at h, All-Permᴰ p hs)
  All-Permᴰ (Permᴰ.swap e e') (h, (k, hs)) = (rw e' at k, (rw e at h, hs))
  All-Permᴰ (Permᴰ.trans p q) hs = All-Permᴰ q (All-Permᴰ p hs)

  All-prop : ((a : A) → IsProp (P a)) → (xs : List A) → IsProp (All P xs)
  All-prop prop [] = hlevel
  All-prop prop (x ∷ xs) = hlevel (prop x, All-prop prop xs)

  pub All-perm : ((a : A) → IsProp (P a)) → {xs ys : List A} → Perm xs ys → All P xs → All P ys
  All-perm prop {xs} {ys} p hs = ∥∥₁_elim p (All-prop prop ys) (λ q. All-Permᴰ q hs)

module _ {ℓ} {A : Type ℓ} where
  length-Permᴰ : {xs ys : List A} → Permᴰ xs ys → length xs ≡ length ys
  length-Permᴰ Permᴰ.nil = refl
  length-Permᴰ (Permᴰ.cons e p) = ap suc (length-Permᴰ p)
  length-Permᴰ (Permᴰ.swap e e') = refl
  length-Permᴰ (Permᴰ.trans p q) = length-Permᴰ p ∙ length-Permᴰ q

  pub length-perm : {xs ys : List A} → Perm xs ys → length xs ≡ length ys
  length-perm p = ∥∥₁_elim p (ℕ_set _ _) length-Permᴰ

module _ {ℓ} {A : Type ℓ} where
  nil-Permᴰ : {xs ys : List A} → Permᴰ xs ys → ys ≡ [] → xs ≡ []
  nil-Permᴰ Permᴰ.nil h = h
  nil-Permᴰ (Permᴰ.cons e p) h = absurd (ground arith)
  nil-Permᴰ (Permᴰ.swap e e') h = absurd (ground arith)
  nil-Permᴰ (Permᴰ.trans p q) h = nil-Permᴰ p (nil-Permᴰ q h)

  one-Permᴰ : (x : A) {xs ys : List A} → Permᴰ xs ys → ys ≡ x ∷ [] → xs ≡ x ∷ []
  one-Permᴰ x Permᴰ.nil h = h
  one-Permᴰ x (Permᴰ.cons {b = b} {l₂ = l} e p) h =
      let head : b ≡ x = cc in let rest : l ≡ [] = cc in rw (e ∙ head, nil-Permᴰ p rest) refl
  one-Permᴰ x (Permᴰ.swap e e') h = absurd (ground arith)
  one-Permᴰ x (Permᴰ.trans p q) h = one-Permᴰ x p (one-Permᴰ x q h)

text-IsOrder : IsOrder ltb_text
text-IsOrder = record { asym = ltb_text_asym; trans = ltb_text_trans }

-- Sorted texts do not tell in which order they were given.
pub sort_texts_of_Perm : {a b : List String} → Perm a b → sort ltb_text a ≡ sort ltb_text b
sort_texts_of_Perm =
    sort_of_Perm ltb_text text-IsOrder ltb_text_antisym (hedberg (List-discrete text_discrete))

-- The entries of a map, in another order.
module _ {V : Type 0} where
  abbrev SameEntries : Dict V → Dict V → Type 0
  SameEntries xs ys = NodupKeys xs → NodupKeys ys × ((k : String) → lookup k ys ≡ lookup k xs)

  SameEntries-swap :
      (i j : String) (u v : V) (l : Dict V)
      → SameEntries ((i, u) ∷ (j, v) ∷ l) ((j, v) ∷ (i, u) ∷ l)
  unfolding lookup
  SameEntries-swap i j u v l (fresh, (g, n)) = (
    (ground (arith, eq_iff i j, eq_iff j i), (ground (arith, eq_iff j i), n)),
    λ k. ground (arith, eq_iff i k, eq_iff j k, eq_iff j i),
  )

  SameEntries-Permᴰ : {xs ys : Dict V} → Permᴰ xs ys → SameEntries xs ys
  unfolding lookup
  SameEntries-Permᴰ Permᴰ.nil _ = (tt, λ k. refl)
  SameEntries-Permᴰ {xs = (i, u) ∷ xs} (Permᴰ.cons {b = (j, v)} {l₂ = ys} e p) (fresh, n) =
      let (m, f) = SameEntries-Permᴰ p n in
      let ei = ap (λ x. x.0) e in
      let ev = ap (λ x. x.1) e in ((f j ∙ rw ei at fresh, m), λ k. rw (ei, ev, f k) refl)
  SameEntries-Permᴰ {xs = a ∷ b ∷ l} (Permᴰ.swap {a' = (j, v)} {b' = (i, u)} e e') (fresh, n) =
      subst (λ x. SameEntries (x ∷ b ∷ l) ((j, v) ∷ (i, u) ∷ l)) (sym e)
        (subst (λ y. SameEntries ((i, u) ∷ y ∷ l) ((j, v) ∷ (i, u) ∷ l)) (sym e')
          (SameEntries-swap i j u v l))
        (fresh, n)
  SameEntries-Permᴰ (Permᴰ.trans p q) n =
      let (m, f) = SameEntries-Permᴰ p n in
      let (o, g) = SameEntries-Permᴰ q m in (o, λ k. g k ∙ f k)

  NodupKeys-prop : IsSet (Option V) → (d : Dict V) → IsProp (NodupKeys d)
  NodupKeys-prop set [] = hlevel
  NodupKeys-prop set ((k, _) ∷ d) = hlevel (set (lookup k d) none, NodupKeys-prop set d)

  SameEntries-prop : IsSet (Option V) → (xs ys : Dict V) → IsProp (SameEntries xs ys)
  SameEntries-prop set xs ys =
      hlevel (NodupKeys-prop set ys, λ (k : String). set (lookup k ys) (lookup k xs))

-- The keys stay without a repetition, and a lookup finds the same.
pub entries-perm : {xs ys : Dict String} → Perm xs ys → SameEntries xs ys
entries-perm {xs} {ys} p =
    ∥∥₁_elim p (SameEntries-prop (hedberg (Option.discrete text_discrete)) xs ys) SameEntries-Permᴰ

-- A map with one entry has one order.
pub one_entry : {e : String × String} {xs : Dict String} → Perm xs (e ∷ []) → xs ≡ e ∷ []
one_entry {e} {xs} p =
    ∥∥₁_elim p (hedberg (List-discrete (×_discrete text_discrete text_discrete)) xs (e ∷ []))
      (λ q. one-Permᴰ e q refl)
