-- ===== src/Utils/Annotations/Laws.antt =====
-- Lemmas on `merge_annotations` (controllers/internal/utils/annotations.go).
use k8gb.Prelude.{
  ◌≡◌, refl, ap, ◌∙◌, arith, String, Option, none, some, [], ◌∷◌, ◌==◌, eq_iff, if◌then◌else◌,
}
use k8gb.Prelude.Dict.{Dict, lookup, lookup_or_zero, insert, lookup-insert, NodupKeys}
use k8gb.Utils.Annotations.{merge_annotations}

abbrev or_zero : Option String → String
or_zero o = elim o [ none ↦ "" | some v ↦ v ]

pub lookup_or_zero-insert :
    (j k v : String) (d : Dict String)
    → lookup_or_zero j (insert k v d) ≡ (if k == j then v else lookup_or_zero j d)
unfolding lookup_or_zero
lookup_or_zero-insert j k v d = ap or_zero (lookup-insert j k v d) ∙ ground arith

abbrev pub step : String → String → Dict String → Dict String
step k v target = if lookup_or_zero k target == v then target else insert k v target

pub lookup_or_zero-step :
    (j k v : String) (t : Dict String)
    → lookup_or_zero j (step k v t) ≡ (if k == j then v else lookup_or_zero j t)
lookup_or_zero-step j k v t =
    ground (arith, lookup_or_zero-insert j k v t, eq_iff k j, eq_iff (lookup_or_zero k t) v)

-- A key that the source lacks keeps its value.
pub merge_annotations_absent :
    (k : String) (target source : Dict String)
    → lookup k source ≡ none
    → lookup_or_zero k (merge_annotations target source) ≡ lookup_or_zero k target
unfolding merge_annotations lookup
merge_annotations_absent k target [] h = refl
merge_annotations_absent k target ((j, v) ∷ source) h =
    ground
      (arith, lookup_or_zero-step k j v target, merge_annotations_absent k (step j v target) source)

-- If the source lists no key twice, a merge gives every key the source's value where the source has
-- the key, and keeps the target's value elsewhere.
pub lookup_or_zero-merge_annotations :
    (k : String) (target source : Dict String)
    → NodupKeys source
    → lookup_or_zero k (merge_annotations target source)
      ≡ elim (lookup k source) [ none ↦ lookup_or_zero k target | some v ↦ v ]
unfolding merge_annotations lookup
lookup_or_zero-merge_annotations k target [] u = refl
lookup_or_zero-merge_annotations k target ((j, v) ∷ source) (fresh, u) = ground (
  arith,
  lookup_or_zero-step k j v target,
  eq_iff j k,
  merge_annotations_absent k (step j v target) source,
  lookup_or_zero-merge_annotations k (step j v target) source u,
)
