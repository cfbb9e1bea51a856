-- ===== src/Prelude/Dict.antt =====
-- Go's maps with string keys, as association lists with one entry for each key. A loop over a map
-- visits the entries in an order that Go does not define: where it matters, the models take it.
use Prim.Native.String.{String}
use mathlib.Core.Path.{◌≡◌, refl}
use mathlib.Core.Option.{Option, none, some}
use mathlib.Core.List.{List, [], ◌∷◌, ◌++◌}
use native.Mathlib.Omega.{arith}
use text.Mathlib.Text.{◌==◌}
use text.Mathlib.TextEquality.{eq_iff}
use k8gb.Prelude.Tests.{if◌then◌else◌}

abbrev pub Dict {ℓ} : Type ℓ → Type ℓ
Dict V = List (String × V)

module _ {ℓ} {V : Type ℓ} where
  unfoldable pub lookup : String → Dict V → Option V
  lookup k [] = none
  lookup k ((j, v) ∷ d) = if j == k then some v else lookup k d

  -- `d[k] = v`
  unfoldable pub insert : String → V → Dict V → Dict V
  insert k v [] = (k, v) ∷ []
  insert k v ((j, w) ∷ d) = if j == k then (j, v) ∷ d else (j, w) ∷ insert k v d

  abbrev pub keys : Dict V → List String
  keys [] = []
  keys ((k, _) ∷ d) = k ∷ keys d

  -- No key is listed twice.
  abbrev pub NodupKeys : Dict V → Type ℓ
  NodupKeys [] = Unit
  NodupKeys ((k, _) ∷ d) = (lookup k d ≡ none) × NodupKeys d

  pub lookup-insert :
      (j k : String) (v : V) (d : Dict V)
      → lookup j (insert k v d) ≡ (if k == j then some v else lookup j d)
  unfolding lookup insert
  lookup-insert j k v [] = refl
  lookup-insert j k v ((i, w) ∷ d) =
      ground (arith, eq_iff k j, eq_iff i k, eq_iff i j, lookup-insert j k v d)

  pub insert-NodupKeys : (k : String) (v : V) (d : Dict V) → NodupKeys d → NodupKeys (insert k v d)
  unfolding insert lookup
  insert-NodupKeys k v [] _ = (refl, tt)
  insert-NodupKeys k v ((j, w) ∷ d) (fresh, u) =
      ground (arith, insert-NodupKeys k v d u, lookup-insert j k v d, eq_iff k j, eq_iff j k)

-- The entries of a map, in the order of a loop over it.
abbrev pub values {ℓ} : {V : Type ℓ} → Dict V → List V
values [] = []
values ((_, v) ∷ d) = v ∷ values d

pub insert_fresh {ℓ} :
    {V : Type ℓ} (k : String) (v : V) (d : Dict V)
    → lookup k d ≡ none
    → insert k v d ≡ d ++ (k, v) ∷ []
unfolding insert lookup
insert_fresh k v [] h = refl
insert_fresh k v ((j, w) ∷ d) h = ground (arith, insert_fresh k v d)

-- `d[k]` on a missing key is the zero value.
unfoldable pub lookup_or_zero : String → Dict String → String
lookup_or_zero k d = elim (lookup k d) [ none ↦ "" | some v ↦ v ]
