-- ===== src/Controller/Ingress/Laws.antt =====
-- Lemmas on `save_ingress` (controllers/ingress.go).
use mathlib.Core.Logic.{ite}
use k8gb.Prelude.{◌≡◌, refl, arith, String, true, false, [], ◌∷◌, eq_refl}
use k8gb.Prelude.Dict.{Dict, NodupKeys}
use k8gb.Effect.{ok}
use k8gb.Api.{Gslb, key_of}
use k8gb.Api.V1Beta1
use k8gb.Api.Equality.{IngressSpec-discrete}
use k8gb.Cluster.{Client, Ingress}
use k8gb.Controller.Ingress.{annotations_equal, ingress_equal, merged, save_ingress}
use k8gb.Utils.Annotations.{merge_annotations}
use k8gb.Utils.Annotations.Laws.{lookup_or_zero-step, step, merge_annotations_absent}

annotations_equal-merge_annotations :
    (target source : Dict String)
    → NodupKeys source
    → annotations_equal (merge_annotations target source) source ≡ true
unfolding annotations_equal merge_annotations
annotations_equal-merge_annotations target [] u = refl
annotations_equal-merge_annotations target ((k, v) ∷ source) (fresh, u) = ground (
  arith,
  annotations_equal-merge_annotations (step k v target) source u,
  eq_refl v,
  merge_annotations_absent k (step k v target) source fresh,
  lookup_or_zero-step k k v target,
  eq_refl k,
)

same_spec : (s : V1Beta1.IngressSpec) → ite (IngressSpec-discrete s s) true false ≡ true
same_spec s = elim (IngressSpec-discrete s s) as (λ d. ite d true false ≡ true) [
  | yes p ↦ refl
  | no n ↦ absurd (n refl)
]

-- If the annotations to save list no key twice, what a save writes over an existing Ingress equals,
-- to the test of the next save, what was to be saved.
pub ingress_equal-merged :
    (found i : Ingress) → NodupKeys i.meta.annotations → ingress_equal (merged found i) i ≡ true
unfolding ingress_equal merged
ingress_equal-merged found i u =
    rw (annotations_equal-merge_annotations found.meta.annotations i.meta.annotations u)
      (same_spec i.spec)

-- Where the server has what a save has written over `found`, and reading it changes nothing, the next
-- save of the same Ingress, whose annotations list no key twice, succeeds and changes nothing.
pub save_ingress-merged :
    {W : Type 0} (client : Client W) (gslb : Gslb) (found i : Ingress) (w : W)
    → NodupKeys i.meta.annotations
    → client.get_ingress (key_of gslb.meta) w ≡ (ok (merged found i), w)
    → save_ingress client gslb i w ≡ (ok tt, w)
unfolding save_ingress
save_ingress-merged client gslb found i w u h = rw (h, ingress_equal-merged found i u) refl
