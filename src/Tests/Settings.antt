-- ===== src/Tests/Settings.antt =====
-- Settings of the operator and of a Gslb, and the events that it watches.
use k8gb.Prelude.{
  ◌≡◌, ◌↔◌, refl, String, true, false, ◌&&◌, none, some, [], ◌∷◌, ◌==◌, if◌then◌else◌,
}
use k8gb.Prelude.Dict.{Dict, NodupKeys, lookup}
use k8gb.Prelude.Int.{pos, leb_ℤ, ltb_ℤ}
use k8gb.Prelude.Numbers.{atoi}
use k8gb.Effect.{Error, err, ok}
use k8gb.Api.{ObjectKey, ObjectMeta, Strategy}
use k8gb.Api.Conversion.{to_v1beta1_ingress_spec}
use k8gb.Cluster.{Client, Ingress}
use k8gb.Api.Equality.{GslbSpec-discrete}
use k8gb.Controller.Watch.{endpoint_map_handler, ingress_map_handler}
use k8gb.Controller.Watch.Created.{geo_tag_of, gslb_of, ingress_map_handler-created, strategy_of}
use k8gb.Controller.Watch.Laws.{IsRequest, endpoint_map_handler-IsRequest}
use k8gb.Depresolver.{LogLevel, new_dependency_resolver}
use k8gb.Depresolver.Resolve.{Environment}
use k8gb.Depresolver.Spec.{Resolved, resolve_gslb_spec, validate_spec, with_defaults}
use k8gb.Depresolver.Spec.Laws.{resolve_each, resolve_gslb_spec_again, validate_spec-with_defaults}
use k8gb.Tests.World.{
  World, app, app_key, app_meta, app_spec, failover, memory, running, settled_resolver, world,
}

-- What the environment gives where nothing is set, and with another zone.
abbrev defaults : Environment
defaults = record {
  as_int = λ key fallback. fallback;
  as_text = λ key fallback. fallback;
  as_texts = λ key fallback. fallback;
  as_bool = λ key fallback. fallback;
  parse_level = λ s. LogLevel.info_level;
}

abbrev changed : Environment
changed = record defaults { as_text = λ key fallback. "changed" }

abbrev first_resolved : Resolved
first_resolved = record { resolver = settled_resolver; gslb = running; error = none }

resolve_run :
    resolve_gslb_spec new_dependency_resolver running (some memory) world
    ≡ (ok first_resolved, world)
unfolding resolve_gslb_spec GslbSpec-discrete
resolve_run = refl

resolve_gslb_spec_again_example :
    resolve_each memory settled_resolver (app [] false ∷ running ∷ []) world
    ≡ (ok (settled_resolver, none ∷ none ∷ []), world)
resolve_gslb_spec_again_example =
    resolve_gslb_spec_again memory new_dependency_resolver running (app [] false ∷ running ∷ [])
      world world resolve_run (refl, (refl, tt))

abbrev unset : Strategy
unset = record failover { dns_ttl_seconds = pos 0 }

validate_spec-with_defaults_example :
    ((validate_spec (with_defaults unset) ≡ none) ↔ (
      (leb_ℤ (pos 0) unset.dns_ttl_seconds && leb_ℤ (pos 0) unset.split_brain_threshold_seconds)
      ≡ true))
    × (validate_spec (with_defaults unset) ≡ none
        → (ltb_ℤ (pos 0) (with_defaults unset).dns_ttl_seconds
            && ltb_ℤ (pos 0) (with_defaults unset).split_brain_threshold_seconds)
          ≡ true)
validate_spec-with_defaults_example = validate_spec-with_defaults unset

abbrev front_key : ObjectKey
front_key = record { name = "front"; namespace = "prod" }

request_run : endpoint_map_handler memory front_key world ≡ (ok (app_key ∷ []), world)
unfolding endpoint_map_handler
request_run = refl

endpoint_map_handler-IsRequest_example : IsRequest memory front_key world (app_key ∷ [])
endpoint_map_handler-IsRequest_example =
    endpoint_map_handler-IsRequest memory front_key world request_run

abbrev annotations : Dict String
annotations =
    ("k8gb.io/strategy", "failover")
    ∷ ("k8gb.io/primary-geotag", "eu")
    ∷ ("k8gb.io/dns-ttl-seconds", "30")
    ∷ ("k8gb.io/splitbrain-threshold-seconds", "300")
    ∷ []

-- An Ingress without a Gslb.
abbrev fresh_client : Client World
fresh_client = record memory { get_gslb = λ key w. (err Error.not_found, w) }

abbrev annotated_meta : ObjectMeta
annotated_meta = record (app_meta [] false) { annotations = annotations }

abbrev annotated_ingress : Ingress
annotated_ingress = record {
  meta = annotated_meta;
  spec = to_v1beta1_ingress_spec app_spec;
  load_balancer = [];
}

abbrev fresh_world : World
fresh_world = record world { ingress = some annotated_ingress }

each_once : NodupKeys annotations
unfolding lookup
each_once = (refl, (refl, (refl, (refl, tt))))

annotated_failover : lookup "k8gb.io/strategy" annotations ≡ some "failover"
unfolding lookup
annotated_failover = refl

ingress_map_handler-created_example :
    (ingress_map_handler fresh_client annotated_meta fresh_world).1 ≡ (
      if geo_tag_of annotations == ""
      then fresh_world
      else (fresh_client.create_gslb
          (gslb_of annotated_meta annotated_ingress "failover")
          fresh_world).1)
ingress_map_handler-created_example =
    ingress_map_handler-created fresh_client annotated_meta annotated_ingress Error.not_found
      fresh_world fresh_world fresh_world refl refl "failover" (λ owner object e. refl) each_once
      annotated_failover

-- The Gslb that is created.
annotated_run : strategy_of annotations "failover" ≡ failover
unfolding lookup atoi
annotated_run = refl
