-- ===== src/Tests/Sites.antt =====
-- The records of the two clusters.
use mathlib.Core.List.{Perm}
use mathlib.Core.List.Perm
use k8gb.Prelude.{◌≢◌, refl, inr, arith, eq_iff, String, [], ◌∷◌, some}
use k8gb.Prelude.Dict.{insert, lookup}
use k8gb.Prelude.Int.{pos}
use k8gb.Prelude.Sort.{sort}
use k8gb.Effect.{ok}
use k8gb.Cluster.{DnsEndpoint}
use k8gb.Controller.Endpoint.{gslb_dns_endpoint, host_record, local_targets_record, record_set_meta}
use k8gb.Controller.Endpoint.Served.{local_name, served}
use k8gb.Controller.Endpoint.Sites.{Finds, Publishes, Site, clusters_serve}
use k8gb.Controller.Health.{get_service_health_status}
use k8gb.Tests.World.{World, eu_config, eu_provider, failover, in_order, memory, running, world}

abbrev site_host : String
site_host = "app.cloud.example.com"

-- The primary cluster's addresses are served everywhere.
abbrev published_by : String → DnsEndpoint
published_by address = record {
  meta = record (record_set_meta running) { owner = some "app" };
  endpoints =
      local_targets_record (pos 30) site_host (address ∷ [])
      ∷ host_record failover site_host ("10.0.0.1" ∷ [])
      ∷ [];
}

-- A cluster with its address, its geo tag and the other's records.
abbrev site : String → String → DnsEndpoint → Site World
site tag address other = record {
  visit = in_order;
  client = memory;
  config = record eu_config { cluster_geo_tag = tag };
  provider = record eu_provider {
    gslb_ingress_exposed_ips = λ gslb w. (ok (address ∷ []), w);
    get_external_targets = λ host w. (ok (served (local_name host) other.endpoints), w);
  };
  gslb = running;
  state = world;
}

abbrev eu_site : Site World
eu_site = site "eu" "10.0.0.1" (published_by "10.0.1.1")

abbrev us_site : Site World
us_site = site "us" "10.0.1.1" (published_by "10.0.0.1")

eu-Publishes : Publishes eu_site (published_by "10.0.0.1") world
unfolding gslb_dns_endpoint insert sort
eu-Publishes = refl

us-Publishes : Publishes us_site (published_by "10.0.1.1") world
unfolding gslb_dns_endpoint insert sort
us-Publishes = refl

eu-Finds : Finds eu_site site_host "Healthy" ("10.0.0.1" ∷ [])
unfolding get_service_health_status insert lookup
eu-Finds = ((site_host, "Healthy") ∷ [], world, refl, refl, refl, refl)

us-Finds : Finds us_site site_host "Healthy" ("10.0.1.1" ∷ [])
unfolding get_service_health_status insert lookup
us-Finds = ((site_host, "Healthy") ∷ [], world, refl, refl, refl, refl)

tags_differ : ◌≢◌ {A = String} "eu" "us"
tags_differ = λ e. ground (arith, eq_iff "eu" "us")

clusters_serve_example :
    Perm
      (served site_host (published_by "10.0.0.1").endpoints)
      (served site_host (published_by "10.0.1.1").endpoints)
clusters_serve_example =
    clusters_serve eu_site us_site site_host (λ d. Perm.refl d) (λ d. Perm.refl d) eu-Publishes
      us-Publishes (λ host w. refl) (λ host w. refl) eu-Finds us-Finds refl refl (inr (inr refl))
      refl tags_differ (λ e. cc)
