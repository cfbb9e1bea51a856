-- ===== src/Tests/Gauges.antt =====
-- A cluster with gauges that keep what they are set to.
use mathlib.Core.HLevel.{×_discrete}
use mathlib.Core.List.{List-discrete}
use mathlib.Core.Logic.{if_neg, if_pos, ite}
use k8gb.Prelude.{ℕ, ◌≡◌, refl, some, none, String, Option, List, [], ◌∷◌}
use k8gb.Prelude.Dict.{Dict, insert}
use k8gb.Prelude.Int.{pos}
use k8gb.Prelude.Text.{text_discrete}
use k8gb.Effect.{Run, ok}
use k8gb.Api.{Gslb, GslbStatus}
use k8gb.Cluster.{Client, DnsEndpoint, Gauges}
use k8gb.Controller.Endpoint.{host_record, local_targets_record, record_set_meta}
use k8gb.Controller.Health.{get_healthy_records, get_service_health_status, records_loop}
use k8gb.Controller.Status.{update_gslb_status}
use k8gb.Controller.Status.Laws.{QuietGauges, update_gslb_status-shown}
use k8gb.Metrics.{
  count_hosts, count_records, update_healthy_records_metric, update_ingress_hosts_per_status_metric,
}
use k8gb.Metrics.Laws.{total}
use k8gb.Metrics.Shown.{
  GaugeStore, ShowsHosts, gslb_labels, hosts_metric, records_metric, records_shown,
}
use k8gb.Tests.World.{World, eu_config, failover, memory, running, world}

abbrev Shown : Type 0
Shown = List ((String × Dict String) × ℕ)

abbrev same_key : (j k : String × Dict String) → Dec (j ≡ k)
same_key = ×_discrete text_discrete (List-discrete (×_discrete text_discrete text_discrete))

-- The last value that was set.
abbrev shown_value : (String × Dict String) → Shown → Option ℕ
shown_value k [] = none
shown_value k ((j, n) ∷ g) = ite (same_key j k) (some n) (shown_value k g)

abbrev through : {A : Type 0} → Run World A → Run (World × Shown) A
through m (w, g) = ((m w).0, ((m w).1, g))

abbrev watched : Client (World × Shown)
watched = record {
  get_gslb = λ key. through (memory.get_gslb key);
  list_gslbs = λ namespace. through (memory.list_gslbs namespace);
  create_gslb = λ g. through (memory.create_gslb g);
  update_gslb = λ g. through (memory.update_gslb g);
  update_gslb_status = λ g. through (memory.update_gslb_status g);
  get_service = λ key. through (memory.get_service key);
  get_endpoints = λ key. through (memory.get_endpoints key);
  get_ingress = λ key. through (memory.get_ingress key);
  create_ingress = λ i. through (memory.create_ingress i);
  update_ingress = λ i. through (memory.update_ingress i);
  get_dns_endpoint = λ key. through (memory.get_dns_endpoint key);
  create_dns_endpoint = λ d. through (memory.create_dns_endpoint d);
  update_dns_endpoint = λ d. through (memory.update_dns_endpoint d);
  delete_dns_endpoint = λ d. through (memory.delete_dns_endpoint d);
  set_meta_data_annotation = memory.set_meta_data_annotation;
  set_controller_reference = memory.set_controller_reference;
}

abbrev kept_gauges : Gauges (World × Shown)
kept_gauges = record { set_gauge = λ name labels n w. (ok tt, (w.0, ((name, labels), n) ∷ w.1)) }

abbrev kept_store : GaugeStore kept_gauges
kept_store = record {
  value = λ name labels w. shown_value (name, labels) w.1;
  set_own = λ name labels n w.
      if_pos (same_key (name, labels) (name, labels)) refl (some n)
        (shown_value (name, labels) w.1);
  set_other = λ name name' labels labels' n w d.
      if_neg (same_key (name, labels) (name', labels')) d (some n)
        (shown_value (name', labels') w.1);
}

watched-QuietGauges : QuietGauges watched kept_store
watched-QuietGauges = record {
  get_quiet = λ name labels key. record { same = λ w. refl };
  update_quiet = λ name labels gslb. record { same = λ w. refl };
}

abbrev app_set : DnsEndpoint
app_set = record {
  meta = record_set_meta running;
  endpoints =
      local_targets_record (pos 30) "app.cloud.example.com" ("10.0.0.1" ∷ [])
      ∷ host_record failover "app.cloud.example.com" ("10.0.0.1" ∷ [])
      ∷ [];
}

abbrev before : World × Shown
before = (record world { records = some app_set }, [])

abbrev app_status : GslbStatus
app_status = record {
  service_health = ("app.cloud.example.com", "Healthy") ∷ [];
  healthy_records = ("app.cloud.example.com", "10.0.0.1" ∷ []) ∷ [];
  geo_tag = "eu";
}

abbrev reported : Gslb
reported = record running { status = app_status }

abbrev after : World × Shown
after = (
  record world { gslb = reported; records = some app_set },
  ((records_metric, gslb_labels running []), 1)
      ∷ ((hosts_metric, gslb_labels running (("status", "NotFound") ∷ [])), 0)
      ∷ ((hosts_metric, gslb_labels running (("status", "Unhealthy") ∷ [])), 0)
      ∷ ((hosts_metric, gslb_labels running (("status", "Healthy") ∷ [])), 1)
      ∷ [],
)

status_run : update_gslb_status watched kept_gauges eu_config running before ≡ (ok reported, after)
unfolding update_gslb_status get_service_health_status get_healthy_records records_loop insert
    update_ingress_hosts_per_status_metric update_healthy_records_metric count_hosts count_records
status_run = refl

update_gslb_status-shown_example :
    (status : GslbStatus) × (w : World × Shown) × ((get_service_health_status watched running
        before).0
      ≡ ok status.service_health)
    × (status.geo_tag ≡ "eu")
    × (watched.update_gslb_status (record running { status = status }) w ≡ (ok reported, after))
    × ShowsHosts kept_store running status.service_health after
    × (records_shown kept_store running after ≡ some (total status.healthy_records))
update_gslb_status-shown_example =
    update_gslb_status-shown watched kept_store watched-QuietGauges eu_config running before
      status_run
