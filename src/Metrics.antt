-- ===== src/Metrics.antt =====
-- controllers/providers/metrics/prometheus.go: the numbers that the two metrics are set to. Counters
-- are native numbers: no map has 2^63 entries.
pub mod Laws
pub mod Registry
pub mod Shown
use k8gb.Prelude.{ℕ, ◌+◌, String, List, [], ◌∷◌, ◌==◌, length, if◌then◌else◌}
use k8gb.Prelude.Dict.{Dict}
use k8gb.Effect.{Run, pure, ◌>>=◌, ◌>>◌}
use k8gb.Api.{Gslb}
use k8gb.Cluster.{Gauges}

pub record HostCounts : Type 0 where
  pub healthy : ℕ
  pub unhealthy : ℕ
  pub not_found : ℕ

-- The loop over the hosts' statuses.
unfoldable pub count_hosts : Dict String → HostCounts → HostCounts
count_hosts [] c = c
count_hosts ((host, hs) ∷ rest) c = count_hosts rest (
    if hs == "Healthy"
    then record c { healthy = c.healthy + 1 }
    else if hs == "Unhealthy"
    then record c { unhealthy = c.unhealthy + 1 }
    else record c { not_found = c.not_found + 1 })

unfoldable pub count_records : Dict (List String) → ℕ → ℕ
count_records [] n = n
count_records ((host, hrs) ∷ rest) n = count_records rest (n + length hrs)

abbrev no_hosts : HostCounts
no_hosts = record { healthy = 0; unhealthy = 0; not_found = 0 }

module _ {W : Type 0} (gauges : Gauges W) where
  abbrev set_hosts : Gslb → String → ℕ → Run W (Unit {0})
  set_hosts gslb status =
      gauges.set_gauge "ingress_hosts_per_status"
        (("namespace", gslb.meta.namespace) ∷ ("name", gslb.meta.name) ∷ ("status", status) ∷ [])

  unfoldable pub update_ingress_hosts_per_status_metric : Gslb → Dict String → Run W (Unit {0})
  unfolding count_hosts
  update_ingress_hosts_per_status_metric gslb service_health = do
    set_hosts gslb "Healthy" (count_hosts service_health no_hosts).healthy
    set_hosts gslb "Unhealthy" (count_hosts service_health no_hosts).unhealthy
    set_hosts gslb "NotFound" (count_hosts service_health no_hosts).not_found

  unfoldable pub update_healthy_records_metric : Gslb → Dict (List String) → Run W (Unit {0})
  unfolding count_records
  update_healthy_records_metric gslb healthy_records =
      gauges.set_gauge "healthy_records"
        (("namespace", gslb.meta.namespace) ∷ ("name", gslb.meta.name) ∷ [])
        (count_records healthy_records 0)
