-- ===== src/Controller/Watch.antt =====
-- controllers/gslb_controller.go: the functions of `SetupWithManager` that turn events on Endpoints
-- and Ingresses into requests and Gslbs. Log lines are left out.
pub mod Created
pub mod Laws
use k8gb.Prelude.{
  String, Bool, true, false, ◌&&◌, Option, none, some, List, [], ◌∷◌, ◌==◌, if◌then◌else◌,
}
use k8gb.Prelude.Dict.{Dict}
use k8gb.Prelude.Int.{ℤ, pos}
use k8gb.Prelude.Numbers.{atoi}
use k8gb.Effect.{Outcome, ok, err, panicked, Run, pure, crash, lift, handle, ◌>>=◌, ◌>>◌}
use k8gb.Api.{Gslb, HttpIngressPath, IngressRule, ObjectKey, ObjectMeta, Strategy, key_of}
use k8gb.Api.Conversion.{from_v1beta1_ingress_spec}
use k8gb.Cluster.{Client, Ingress}

-- The three loops of `endpointMapHandler`, with the variable `gslbName`.
unfoldable pub paths_scan : String → String → List HttpIngressPath → String → String
paths_scan service gslb [] gslb_name = gslb_name
paths_scan service gslb (path ∷ paths) gslb_name =
    paths_scan service gslb paths (if path.backend.service_name == service then gslb else gslb_name)

unfoldable pub rules_scan : String → String → List IngressRule → String → Outcome String
unfolding paths_scan
rules_scan service gslb [] gslb_name = ok gslb_name
rules_scan service gslb (rule ∷ rules) gslb_name = elim rule.http [
  | none ↦ panicked
  | some paths ↦ rules_scan service gslb rules (paths_scan service gslb paths gslb_name)
]

unfoldable pub gslbs_scan : String → List Gslb → String → Outcome String
unfolding rules_scan
gslbs_scan service [] gslb_name = ok gslb_name
gslbs_scan service (gslb ∷ gslbs) gslb_name =
    elim (rules_scan service gslb.meta.name gslb.spec.ingress.rules gslb_name) [
      | ok gslb_name' ↦ gslbs_scan service gslbs gslb_name'
      | _ ↦ panicked
    ]

-- The loops over the annotations for the numbers and for the primary geo tag. `strToInt` keeps the
-- value that `Atoi` returns beside an error.
unfoldable pub numbers_from : Dict String → Strategy → Strategy
unfolding atoi
numbers_from [] s = s
numbers_from ((k, v) ∷ rest) s = numbers_from rest (
    if k == "k8gb.io/dns-ttl-seconds"
    then record s { dns_ttl_seconds = (atoi v).0 }
    else if k == "k8gb.io/splitbrain-threshold-seconds"
    then record s { split_brain_threshold_seconds = (atoi v).0 }
    else s)

unfoldable pub geo_tag_from : Dict String → Strategy → Strategy
geo_tag_from [] s = s
geo_tag_from ((k, v) ∷ rest) s =
    geo_tag_from rest
      (if k == "k8gb.io/primary-geotag" then record s { primary_geo_tag = v } else s)

-- The strategy of the new Gslb, or none if it is not created.
unfoldable pub annotated_strategy : Dict String → String → Option Strategy
unfolding numbers_from geo_tag_from
annotated_strategy annotations kind =
    let s = numbers_from annotations (record {
      kind = kind;
      primary_geo_tag = "";
      dns_ttl_seconds = pos 0;
      split_brain_threshold_seconds = pos 0;
    }) in
    if kind == "failover"
    then (if (geo_tag_from annotations s).primary_geo_tag == ""
        then none
        else some (geo_tag_from annotations s))
    else some s

module _ {W : Type 0} (client : Client W) where
  -- The object is the Endpoints resource of a service.
  unfoldable pub endpoint_map_handler : ObjectKey → Run W (List ObjectKey)
  unfolding gslbs_scan
  endpoint_map_handler object =
      handle (client.list_gslbs object.namespace)
        (λ gslbs. do
          gslb_name ← lift (gslbs_scan object.name gslbs "")
          pure (
              if gslb_name == ""
              then []
              else record { name = gslb_name; namespace = object.namespace } ∷ []))
        (λ _. pure [])

  abbrev new_gslb : ObjectMeta → Ingress → Strategy → Gslb
  new_gslb a ingress strategy = record {
    meta = record {
      name = a.name;
      namespace = a.namespace;
      annotations = a.annotations;
      labels = [];
      finalizers = [];
      marked_for_deletion = false;
      owner = none;
    };
    spec = record { ingress = from_v1beta1_ingress_spec ingress.spec; strategy = strategy };
    status = record { service_health = []; healthy_records = []; geo_tag = "" };
  }

  -- The new Gslb with its owner; an error there is only logged.
  abbrev owned : Outcome ObjectMeta → Gslb → Run W Gslb
  owned (ok meta) gslb = pure (record gslb { meta = meta })
  owned (err e) gslb = pure gslb
  owned panicked gslb = crash

  unfoldable pub create_owned : ObjectMeta → Ingress → Option Strategy → Run W (Unit {0})
  create_owned a ingress none = pure tt
  create_owned a ingress (some strategy) = do
    let gslb = new_gslb a ingress strategy
    gslb' ← owned (client.set_controller_reference ingress.meta gslb.meta) gslb
    handle (client.create_gslb gslb') (λ _. pure tt) (λ _. pure tt)

  unfoldable pub create_gslb_from_ingress : ObjectMeta → String → Run W (Unit {0})
  unfolding create_owned annotated_strategy from_v1beta1_ingress_spec
  create_gslb_from_ingress a strategy =
      handle (client.get_ingress (key_of a))
        (λ ingress.
          handle (client.get_gslb (key_of a)) (λ _. pure tt)
            (λ _. create_owned a ingress (annotated_strategy a.annotations strategy)))
        (λ _. pure tt)

  -- The loop over the annotations; the handler asks for no reconciliation itself.
  unfoldable pub strategies_loop : ObjectMeta → Dict String → Run W (List ObjectKey)
  strategies_loop a [] = pure []
  strategies_loop a ((k, v) ∷ rest) = do
    (if k == "k8gb.io/strategy" && v == "roundRobin"
        then create_gslb_from_ingress a "roundRobin"
        else if k == "k8gb.io/strategy" && v == "failover"
        then create_gslb_from_ingress a "failover"
        else pure tt)
    strategies_loop a rest

  unfoldable pub ingress_map_handler : ObjectMeta → Run W (List ObjectKey)
  unfolding strategies_loop create_gslb_from_ingress
  ingress_map_handler a = strategies_loop a a.annotations
