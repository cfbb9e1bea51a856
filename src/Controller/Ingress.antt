-- ===== src/Controller/Ingress.antt =====
-- controllers/ingress.go: the Ingress of a Gslb. Log lines are left out.
pub mod Laws
use mathlib.Core.Logic.{ite}
use k8gb.Prelude.{String, Bool, true, false, ◌&&◌, none, List, [], ◌∷◌, ◌==◌, if◌then◌else◌}
use k8gb.Prelude.Dict.{Dict, lookup_or_zero}
use k8gb.Effect.{is_conflict, is_not_found, Run, pure, raise, lift, handle, ◌>>=◌}
use k8gb.Api.{Gslb, ObjectMeta, key_of}
use k8gb.Api.Conversion.{to_v1beta1_ingress_spec}
use k8gb.Api.Equality.{IngressSpec-discrete}
use k8gb.Cluster.{Client, Ingress}
use k8gb.Utils.Annotations.{merge_annotations}

unfoldable pub annotations_equal : Dict String → Dict String → Bool
annotations_equal annotations [] = true
annotations_equal annotations ((k, v) ∷ rest) =
    lookup_or_zero k annotations == v && annotations_equal annotations rest

unfoldable pub ingress_equal : Ingress → Ingress → Bool
unfolding annotations_equal
ingress_equal ing1 ing2 =
    if annotations_equal ing1.meta.annotations ing2.meta.annotations
    then ite (IngressSpec-discrete ing1.spec ing2.spec) true false
    else false

-- What the update of an existing Ingress writes.
unfoldable pub merged : Ingress → Ingress → Ingress
unfolding merge_annotations
merged found i = record found {
  spec = i.spec;
  meta = record found.meta {
    annotations = merge_annotations found.meta.annotations i.meta.annotations;
  };
}

module _ {W : Type 0} (client : Client W) where
  -- The annotations of the strategy, which the Gslb keeps too.
  unfoldable pub annotated : Gslb → ObjectMeta
  annotated gslb =
      let meta =
        client.set_meta_data_annotation gslb.meta "k8gb.io/strategy" gslb.spec.strategy.kind in
      if gslb.spec.strategy.primary_geo_tag == ""
      then meta
      else client.set_meta_data_annotation meta "k8gb.io/primary-geotag"
          gslb.spec.strategy.primary_geo_tag

  -- The Gslb that the call leaves is the one given, with the metadata `annotated`.
  unfoldable pub gslb_ingress : Gslb → Run W Ingress
  unfolding annotated to_v1beta1_ingress_spec
  gslb_ingress gslb = do
    meta ← lift (
        client.set_controller_reference (annotated gslb) (record {
          name = gslb.meta.name;
          namespace = gslb.meta.namespace;
          annotations = (annotated gslb).annotations;
          labels = [];
          finalizers = [];
          marked_for_deletion = false;
          owner = none;
        }))
    pure (record {
      meta = meta;
      spec = to_v1beta1_ingress_spec gslb.spec.ingress;
      load_balancer = [];
    })

  unfoldable pub save_ingress : Gslb → Ingress → Run W (Unit {0})
  unfolding ingress_equal merged
  save_ingress instance' i =
      handle (client.get_ingress (key_of instance'.meta))
        (λ found.
          if ingress_equal found i
          then pure tt
          else handle (client.update_ingress (merged found i)) (λ _. pure tt)
              (λ e. if is_conflict e then pure tt else raise e))
        (λ e. if is_not_found e then client.create_ingress i else raise e)
