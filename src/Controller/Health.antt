-- ===== src/Controller/Health.antt =====
-- controllers/status.go: `getServiceHealthStatus` and `getHealthyRecords`.
pub mod Probes
use k8gb.Prelude.{
  String, Bool, true, false, not, ◌&&◌, ◌||◌, Option, none, some, List, [], ◌∷◌, ◌==◌, is_empty,
  starts_with, if◌then◌else◌,
}
use k8gb.Prelude.Dict.{Dict, insert}
use k8gb.Effect.{is_not_found, Run, pure, raise, crash, handle, ◌>>=◌}
use k8gb.Api.{Gslb, HttpIngressPath, IngressRule, key_of}
use k8gb.Cluster.{Client, DnsEndpoint, Endpoint, Endpoints}

-- A subset with an address makes the service healthy.
unfoldable pub has_address : Endpoints → Bool
has_address [] = false
has_address (subset ∷ subsets) = not (is_empty subset) || has_address subsets

-- The loop over the records of the DNSEndpoint.
unfoldable pub records_loop : List Endpoint → Dict (List String) → Dict (List String)
unfolding insert
records_loop [] healthy_records = healthy_records
records_loop (e ∷ es) healthy_records = records_loop es (
    if not (starts_with e.dns_name "localtargets") && e.record_type == "A"
    then if is_empty e.targets then healthy_records else insert e.dns_name e.targets healthy_records
    else healthy_records)

module _ {W : Type 0} (client : Client W) where
  -- What the backend of a path is found to be.
  unfoldable pub probe : String → HttpIngressPath → Run W String
  unfolding has_address
  probe namespace path =
      handle
        (client.get_service (record { name = path.backend.service_name; namespace = namespace }))
        (λ _. do
          endpoints ←
              client.get_endpoints
                (record { name = path.backend.service_name; namespace = namespace })
          pure (if has_address endpoints then "Healthy" else "Unhealthy"))
        (λ e. if is_not_found e then pure "NotFound" else raise e)

  unfoldable pub paths_loop :
      String → String → List HttpIngressPath → Dict String → Run W (Dict String)
  unfolding probe
  paths_loop namespace host [] service_health = pure service_health
  paths_loop namespace host (path ∷ paths) service_health = do
    health ← probe namespace path
    paths_loop namespace host paths (insert host health service_health)

  -- `rule.HTTP.Paths` with a nil `HTTP` is a nil dereference.
  unfoldable pub rules_loop : String → List IngressRule → Dict String → Run W (Dict String)
  unfolding paths_loop
  rules_loop namespace [] service_health = pure service_health
  rules_loop namespace (rule ∷ rules) service_health = do
    service_health' ← (elim rule.http [
      | none ↦ crash
      | some paths ↦ paths_loop namespace rule.host paths service_health
    ])
    rules_loop namespace rules service_health'

  unfoldable pub get_service_health_status : Gslb → Run W (Dict String)
  unfolding rules_loop
  get_service_health_status gslb = rules_loop gslb.meta.namespace gslb.spec.ingress.rules []

  unfoldable pub get_healthy_records : Gslb → Run W (Dict (List String))
  unfolding records_loop
  get_healthy_records gslb = do
    dns_endpoint ← client.get_dns_endpoint (key_of gslb.meta)
    pure (records_loop dns_endpoint.endpoints [])
