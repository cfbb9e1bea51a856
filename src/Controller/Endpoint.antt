-- ===== src/Controller/Endpoint.antt =====
-- controllers/dnsupdate.go: the DNS records of a Gslb. Log lines are left out.
pub mod Targets
pub mod Agreement
pub mod Records
pub mod Report
pub mod Order
pub mod Served
pub mod Sites
use k8gb.Prelude.{
  String, ◌<>◌, Bool, true, false, ◌||◌, none, List, [], ◌∷◌, ◌++◌, ◌==◌, is_empty, if◌then◌else◌,
}
use k8gb.Prelude.Dict.{Dict}
use k8gb.Prelude.Int.{ℤ}
use k8gb.Prelude.Sort.{sort}
use k8gb.Prelude.Text.{contains_text, ltb_text}
use k8gb.Effect.{errorf, Run, pure, raise, lift, ◌>>=◌}
use k8gb.Api.{Gslb, ObjectMeta, Strategy}
use k8gb.Cluster.{Client, DnsEndpoint, Endpoint}
use k8gb.Controller.Health.{get_service_health_status}
use k8gb.Depresolver.{Config}
use k8gb.Dns.{Provider}

unfoldable pub sort_targets : List String → List String
sort_targets = sort ltb_text

-- The switch on the strategy, for a host with external targets. `targets` are those found so far,
-- and a strategy of no known type changes nothing.
unfoldable pub with_external : Strategy → String → Bool → List String → List String → List String
with_external strategy cluster_geo_tag healthy targets external =
    if strategy.kind == "roundRobin" || strategy.kind == "geoip"
    then targets ++ external
    else if strategy.kind == "failover"
    then if strategy.primary_geo_tag == cluster_geo_tag
      then if healthy then targets else external
      else external
    else targets

unfoldable pub final_targets : Strategy → String → Bool → List String → List String → List String
unfolding with_external
final_targets strategy cluster_geo_tag healthy local external =
    let own = if healthy then local else [] in
    if is_empty external then own else with_external strategy cluster_geo_tag healthy own external

-- The record under which other clusters ask for the targets of this one.
abbrev pub local_targets_record : ℤ → String → List String → Endpoint
local_targets_record ttl host local = record {
  dns_name = "localtargets-" <> host;
  record_ttl = ttl;
  record_type = "A";
  targets = local;
  labels = [];
}

abbrev pub host_record : Strategy → String → List String → Endpoint
host_record strategy host targets = record {
  dns_name = host;
  record_ttl = strategy.dns_ttl_seconds;
  record_type = "A";
  targets = targets;
  labels = ("strategy", strategy.kind) ∷ [];
}

-- The records that one host adds.
unfoldable pub host_records :
    Strategy → String → String → Bool → List String → List String → List Endpoint
unfolding final_targets
host_records strategy cluster_geo_tag host healthy local external =
    let final = final_targets strategy cluster_geo_tag healthy local external in
    (if healthy then local_targets_record strategy.dns_ttl_seconds host local ∷ [] else [])
    ++ (if is_empty final then [] else host_record strategy host final ∷ [])

abbrev pub record_set_meta : Gslb → ObjectMeta
record_set_meta gslb = record {
  name = gslb.meta.name;
  namespace = gslb.meta.namespace;
  annotations = ("k8gb.absa.oss/dnstype", "local") ∷ [];
  labels = ("k8gb.absa.oss/dnstype", "local") ∷ [];
  finalizers = [];
  marked_for_deletion = false;
  owner = none;
}

module _ {W : Type 0} (visit : Dict String → Dict String) (client : Client W) where
  module _ (config : Config) (provider : Provider W) where
    -- The loop over the hosts' health.
    unfoldable pub hosts_loop :
        Strategy → List String → Dict String → List Endpoint → Run W (List Endpoint)
    unfolding host_records sort_targets contains_text
    hosts_loop strategy local [] hosts = pure hosts
    hosts_loop strategy local ((host, health) ∷ rest) hosts =
        if contains_text host config.edge_dns_zone
        then (do
          external ← provider.get_external_targets host
          hosts_loop strategy local rest (
              hosts
              ++ host_records strategy config.cluster_geo_tag host (health == "Healthy") local
                  (sort_targets external)))
        else raise (
            errorf "ingress host %s does not match delegated zone %s"
              (host ∷ config.edge_dns_zone ∷ []))

    unfoldable pub gslb_dns_endpoint : Gslb → Run W DnsEndpoint
    unfolding hosts_loop get_service_health_status
    gslb_dns_endpoint gslb = do
      service_health ← get_service_health_status client gslb
      local ← provider.gslb_ingress_exposed_ips gslb
      hosts ← hosts_loop gslb.spec.strategy local (visit service_health) []
      meta ← lift (client.set_controller_reference gslb.meta (record_set_meta gslb))
      pure (record { meta = meta; endpoints = hosts })
