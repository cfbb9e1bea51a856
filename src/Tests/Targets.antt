-- ===== src/Tests/Targets.antt =====
-- The answers and records of the two clusters.
use k8gb.Prelude.{
  ◌≡◌, ◌≢◌, refl, starts_with, inr, arith, String, ◌<>◌, true, false, ◌&&◌, ◌||◌, List, [], ◌∷◌,
  ◌++◌, ◌==◌, eq_iff, is_empty, All, none, some, if◌then◌else◌, map,
}
use k8gb.Prelude.Dict.{Dict, insert, lookup}
use k8gb.Prelude.Int.{pos}
use k8gb.Prelude.Sort.{sort}
use k8gb.Effect.{ok}
use mathlib.Core.List.Perm
use k8gb.Assistant.{new_gslb_assistant, targets_loop}
use k8gb.Controller.Endpoint.Order.{Answered}
use k8gb.Dns.External.{external_ns1, new_external_dns}
use k8gb.Dns.External.Asking.{asked_of, new_external_dns-Answered}
use k8gb.Assistant.Targets.{Answers, collected, targets_loop-collected}
use k8gb.Cluster.{a_record, DnsClient, DnsEndpoint}
use k8gb.Controller.Endpoint.{
  final_targets, gslb_dns_endpoint, host_record, host_records, local_targets_record,
  record_set_meta,
}
use k8gb.Controller.Endpoint.Records.{AreFound, gslb_dns_endpoint-AreFound}
use k8gb.Controller.Endpoint.Report.{records_loop-host_records}
use k8gb.Controller.Endpoint.Targets.{
  contains-final_targets, final_targets-ne-nil, serves_external, serves_own,
}
use k8gb.Controller.Finalizers.{contains}
use k8gb.Controller.Health.{get_service_health_status, paths_loop, probe, records_loop}
use k8gb.Controller.Health.Probes.{IsReport, get_service_health_status-IsReport, paths_loop_last}
use k8gb.Tests.World.{
  World, app_rule, eu_config, eu_provider, failover, in_order, memory, path_to, running, world,
}

abbrev eu_ips : List String
eu_ips = "10.0.0.1" ∷ []

abbrev us_ips : List String
us_ips = "10.0.1.1" ∷ []

eu_ne_us : ◌≢◌ {A = String} "eu" "us"
eu_ne_us = λ e. ground (arith, eq_iff "eu" "us")

some_ips : eu_ips ≢ []
some_ips = λ e. cc

contains-final_targets_example :
    contains (final_targets failover "us" true us_ips eu_ips) "10.0.0.1" ≡ (
      serves_own failover "us" true eu_ips && contains us_ips "10.0.0.1"
      || serves_external failover "us" true && contains eu_ips "10.0.0.1")
contains-final_targets_example = contains-final_targets failover "us" true us_ips eu_ips "10.0.0.1"

final_targets-ne-nil_example : final_targets failover "eu" false eu_ips us_ips ≢ []
final_targets-ne-nil_example =
    final_targets-ne-nil failover "eu" false eu_ips us_ips (inr (inr refl)) some_ips (inr (λ e. cc))

abbrev app_host : String
app_host = "app.cloud.example.com"

abbrev eu_records : DnsEndpoint
eu_records = record {
  meta = record (record_set_meta running) { owner = some "app" };
  endpoints =
      local_targets_record (pos 30) app_host eu_ips ∷ host_record failover app_host eu_ips ∷ [];
}

published_run :
    gslb_dns_endpoint in_order memory eu_config eu_provider running world ≡ (ok eu_records, world)
unfolding gslb_dns_endpoint insert sort
published_run = refl

gslb_dns_endpoint-AreFound_example :
    AreFound in_order memory eu_config eu_provider running world eu_records.endpoints
gslb_dns_endpoint-AreFound_example =
    gslb_dns_endpoint-AreFound in_order memory eu_config eu_provider running world published_run

health_run :
    get_service_health_status memory running world ≡ (ok ((app_host, "Healthy") ∷ []), world)
unfolding get_service_health_status insert
health_run = refl

get_service_health_status-IsReport_example :
    IsReport (app_rule ∷ []) ((app_host, "Healthy") ∷ []) × All (λ r. r.http ≢ none) (app_rule ∷ [])
get_service_health_status-IsReport_example =
    get_service_health_status-IsReport memory running world health_run

paths_run :
    paths_loop memory "prod" app_host (path_to "front" ∷ path_to "back" ∷ []) [] world
    ≡ (ok ((app_host, "NotFound") ∷ []), world)
unfolding paths_loop insert
paths_run = refl

paths_loop_last_example :
    (health : String) × (before : World) × (probe memory "prod" (path_to "back") before
      ≡ (ok health, world))
    × (lookup app_host ((app_host, "NotFound") ∷ []) ≡ some health)
paths_loop_last_example =
    paths_loop_last memory "prod" app_host (path_to "front" ∷ []) (path_to "back") [] world
      paths_run

no_prefix : starts_with app_host "localtargets" ≡ false
no_prefix = refl

records_loop-host_records_example :
    records_loop (host_records failover "eu" app_host true eu_ips us_ips ++ []) []
    ≡ records_loop [] (
        if is_empty (final_targets failover "eu" true eu_ips us_ips)
        then []
        else insert app_host (final_targets failover "eu" true eu_ips us_ips) [])
records_loop-host_records_example =
    records_loop-host_records failover "eu" app_host true eu_ips us_ips [] [] no_prefix

-- Name servers that know no name but one.
abbrev table : String → String → List String
table name server = if name == "localtargets-app.cloud.example.com." then us_ips else []

abbrev table_dns : DnsClient World
table_dns = record {
  fqdn = λ s. s <> ".";
  exchange = λ name type server port w. (ok (map a_record (table name server)), w);
  set_dns = λ server w. (ok tt, w);
  dig_a = λ server name w. (ok [], w);
  parse_time = λ s. ok (pos 0);
  format_time = λ t. "";
  now = λ w. (ok (pos 0), w);
}

abbrev two_clusters : Dict String
two_clusters = ("us", "gslb-ns-us") ∷ ("za", "gslb-ns-za") ∷ []

table-Answers : Answers table_dns table (pos 53)
table-Answers = λ name server w. refl

targets_loop-collected_example :
    targets_loop in_order memory table_dns "k8gb" "1.1.1.1" (pos 53) two_clusters app_host [] world
    ≡ (ok ([] ++ collected table "1.1.1.1" two_clusters app_host), world)
targets_loop-collected_example =
    targets_loop-collected in_order memory table_dns "k8gb" "1.1.1.1" (pos 53) table two_clusters
      app_host [] world table-Answers

new_external_dns-Answered_example :
    Answered
      (new_external_dns external_ns1 eu_config
        (new_gslb_assistant in_order memory table_dns "k8gb" "1.1.1.1" (pos 53)))
      (asked_of eu_config "1.1.1.1" table "us")
new_external_dns-Answered_example =
    new_external_dns-Answered in_order memory table_dns external_ns1 eu_config "k8gb" "1.1.1.1"
      (pos 53) table "us" (λ d. Perm.refl d) refl table-Answers

-- A second cluster that has the same targets is asked for a name that it does not serve.
second_cluster : collected table "1.1.1.1" two_clusters app_host ≡ us_ips
second_cluster = refl
