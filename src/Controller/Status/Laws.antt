-- ===== src/Controller/Status/Laws.antt =====
-- Lemmas on `update_gslb_status` (controllers/status.go).
use k8gb.Prelude.{◌≡◌, refl, sym, ap, ◌∙◌, some, String}
use k8gb.Prelude.Dict.{Dict}
use k8gb.Effect.{ok}
use k8gb.Effect.Keeps.{Keeps, >>=-Keeps, pure-Keeps}
use k8gb.Effect.Laws.{>>=-eq-ok, run-eq-ok}
use k8gb.Api.{Gslb, GslbStatus, ObjectKey}
use k8gb.Cluster.{Client, Gauges}
use k8gb.Controller.Health.{get_healthy_records, get_service_health_status}
use k8gb.Controller.Status.{update_gslb_status}
use k8gb.Depresolver.{Config}
use k8gb.Metrics.{update_healthy_records_metric, update_ingress_hosts_per_status_metric}
use k8gb.Metrics.Laws.{total}
use k8gb.Metrics.Shown.{
  GaugeStore, ShowsHosts, hosts_shown, records_shown, update_hosts-ShowsHosts,
  update_records-hosts_shown, update_records-shown,
}

-- The API server's calls do not touch the gauges.
pub record QuietGauges {W : Type 0} (client : Client W) {gauges : Gauges W}
    (store : GaugeStore gauges) : Type 0 where
  pub get_quiet :
      (name : String) (labels : Dict String) (key : ObjectKey)
      → Keeps (store.value name labels) (client.get_dns_endpoint key)
  pub update_quiet :
      (name : String) (labels : Dict String) (gslb : Gslb)
      → Keeps (store.value name labels) (client.update_gslb_status gslb)

module _ {W : Type 0} (client : Client W) {gauges : Gauges W} (store : GaugeStore gauges)
    (quiet : QuietGauges client store) (config : Config) where
  records-Keeps :
      (name : String) (labels : Dict String) (gslb : Gslb)
      → Keeps (store.value name labels) (get_healthy_records client gslb)
  unfolding get_healthy_records
  records-Keeps name labels gslb =
      >>=-Keeps (client.get_dns_endpoint _) _ (quiet.get_quiet name labels _) (λ d. pure-Keeps _)

  -- If `update_gslb_status` succeeds, then it has found the health of the hosts and has stored a
  -- status with this health, with healthy records and with the cluster's geo tag. And if the gauges
  -- keep what they are set to, and the calls of the API server do not touch them, then they show
  -- how many hosts the stored status calls healthy, unhealthy and anything else, and how many
  -- addresses its healthy records have.
  pub update_gslb_status-shown :
      (gslb : Gslb) (w : W) {stored : Gslb} {w' : W}
      → update_gslb_status client gauges config gslb w ≡ (ok stored, w')
      → (status : GslbStatus) × (before : W) × ((get_service_health_status client gslb w).0
          ≡ ok status.service_health)
        × (status.geo_tag ≡ config.cluster_geo_tag)
        × (client.update_gslb_status (record gslb { status = status }) before ≡ (ok stored, w'))
        × ShowsHosts store gslb status.service_health w'
        × (records_shown store gslb w' ≡ some (total status.healthy_records))
  unfolding update_gslb_status
  update_gslb_status-shown gslb w {stored} {w'} h =
      let health_run = get_service_health_status client gslb in
      let (health, e1, h1) = >>=-eq-ok health_run _ w h in
      let w1 = (health_run w).1 in
      let hosts_run = update_ingress_hosts_per_status_metric gauges gslb health in
      let (_, e2, h2) = >>=-eq-ok hosts_run _ w1 h1 in
      let w2 = (hosts_run w1).1 in
      let records_run = get_healthy_records client gslb in
      let (records, e3, h3) = >>=-eq-ok records_run _ w2 h2 in
      let w3 = (records_run w2).1 in
      let sum_run = update_healthy_records_metric gauges gslb records in
      let (_, e4, h4) = >>=-eq-ok sum_run _ w3 h3 in
      let w4 = (sum_run w3).1 in
      let status : GslbStatus = record {
        service_health = health;
        healthy_records = records;
        geo_tag = config.cluster_geo_tag;
      } in
      let stored_run = client.update_gslb_status (record gslb { status = status }) in
      let last : w' ≡ (stored_run w4).1 = ap (λ r. r.1) (sym h4) in
      let (healthy, unhealthy, not_found) =
        update_hosts-ShowsHosts store gslb health w1 (run-eq-ok hosts_run w1 e2) in
      let carried : (s : String) → hosts_shown store gslb s w' ≡ hosts_shown store gslb s w2 = λ s.
        ap (hosts_shown store gslb s) last
        ∙ (quiet.update_quiet _ _ _).same w4
        ∙ update_records-hosts_shown store gslb records s w3
        ∙ (records-Keeps _ _ gslb).same w2 in
      (
        status,
        w4,
        e1,
        refl,
        h4,
        (
          carried "Healthy" ∙ healthy,
          carried "Unhealthy" ∙ unhealthy,
          carried "NotFound" ∙ not_found,
        ),
        ap (records_shown store gslb) last
            ∙ (quiet.update_quiet _ _ _).same w4
            ∙ update_records-shown store gslb records w3 (run-eq-ok sum_run w3 e4),
      )
