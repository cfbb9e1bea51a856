-- ===== src/Controller/Status.antt =====
-- controllers/status.go: `updateGslbStatus`.
pub mod Laws
use k8gb.Effect.{Run, ◌>>=◌, ◌>>◌}
use k8gb.Api.{Gslb}
use k8gb.Cluster.{Client, Gauges}
use k8gb.Controller.Health.{get_healthy_records, get_service_health_status}
use k8gb.Depresolver.{Config}
use k8gb.Metrics.{update_healthy_records_metric, update_ingress_hosts_per_status_metric}

module _ {W : Type 0} (client : Client W) (gauges : Gauges W) (config : Config) where
  unfoldable pub update_gslb_status : Gslb → Run W Gslb
  unfolding get_service_health_status get_healthy_records update_ingress_hosts_per_status_metric
      update_healthy_records_metric
  update_gslb_status gslb = do
    service_health ← get_service_health_status client gslb
    update_ingress_hosts_per_status_metric gauges gslb service_health
    healthy_records ← get_healthy_records client gslb
    update_healthy_records_metric gauges gslb healthy_records
    client.update_gslb_status (record gslb {
      status = record {
        service_health = service_health;
        healthy_records = healthy_records;
        geo_tag = config.cluster_geo_tag;
      };
    })
