-- ===== src/Tests/Zone.antt =====
-- The name servers of the two clusters, and the zone that holds them.
use mathlib.Core.List.{Perm}
use k8gb.Prelude.{◌≡◌, ◌≢◌, refl, arith, String, List, [], ◌∷◌, ◌==◌, eq_iff, filter}
use k8gb.Prelude.Int.{pos}
use k8gb.Effect.{Error, ok, err}
use k8gb.Assistant.{Assistant}
use k8gb.Cluster.{DnsClient}
use k8gb.Depresolver.Names.{get_cluster_ns_name}
use k8gb.Dns.Infoblox.{
  InfobloxClient, ObjectManager, ZoneDelegated, drop_stale, local_servers, refresh_zone,
}
use k8gb.Dns.Infoblox.Delegation.{drop_stale_keeps, refresh_zone_settled}
use k8gb.Dns.Zone.{NameServer, filter_out_delegate_to, sanitize_delegate_zone}
use k8gb.Dns.Zone.Converge.{sanitize_delegate_zone_comm}
use k8gb.Tests.World.{World, eu_config, in_order, running, world}

abbrev eu_server : NameServer
eu_server = record { address = "10.0.0.1"; name = "gslb-ns-eu" }

abbrev us_server : NameServer
us_server = record { address = "10.0.1.1"; name = "gslb-ns-us" }

abbrev stale_server : NameServer
stale_server = record { address = "10.0.0.9"; name = "gslb-ns-eu" }

eu_ne_us : ◌≢◌ {A = String} "gslb-ns-eu" "gslb-ns-us"
eu_ne_us = λ e. ground (arith, eq_iff "gslb-ns-eu" "gslb-ns-us")

us_ne_eu : ◌≢◌ {A = String} "gslb-ns-us" "gslb-ns-eu"
us_ne_eu = λ e. ground (arith, eq_iff "gslb-ns-us" "gslb-ns-eu")

abbrev zone_before : List NameServer
zone_before = us_server ∷ stale_server ∷ []

sanitize_delegate_zone_comm_example :
    Perm
      (sanitize_delegate_zone "gslb-ns-us"
        (us_server ∷ [])
        (sanitize_delegate_zone "gslb-ns-eu" (eu_server ∷ []) zone_before))
      (sanitize_delegate_zone "gslb-ns-eu"
        (eu_server ∷ [])
        (sanitize_delegate_zone "gslb-ns-us" (us_server ∷ []) zone_before))
sanitize_delegate_zone_comm_example =
    sanitize_delegate_zone_comm "gslb-ns-eu" "gslb-ns-us" (eu_server ∷ []) (us_server ∷ [])
      zone_before eu_ne_us (refl, tt) (refl, tt)

abbrev idle_dns : DnsClient World
idle_dns = record {
  fqdn = λ s. s;
  exchange = λ name type server port w. (ok [], w);
  set_dns = λ server w. (ok tt, w);
  dig_a = λ server name w. (ok [], w);
  parse_time = λ s. ok (pos 0);
  format_time = λ t. "";
  now = λ w. (ok (pos 0), w);
}

-- Every heartbeat has expired.
abbrev all_stale : Assistant World
all_stale = record {
  core_dns_exposed_ips = λ w. (ok [], w);
  gslb_ingress_exposed_ips = λ gslb w. (ok ("10.0.0.1" ∷ []), w);
  get_external_targets = λ host names w. (ok [], w);
  save_dns_endpoint = λ namespace i w. (ok tt, w);
  remove_endpoint = λ name w. (ok tt, w);
  inspect_txt_threshold = λ fqdn threshold w. (err Error.resource_expired, w);
}

abbrev refusing : ObjectManager World
refusing = record {
  get_zone_delegated = λ fqdn w. (err (Error.external "down"), w);
  create_zone_delegated = λ fqdn servers w. (err (Error.external "down"), w);
  update_zone_delegated = λ ref servers w. (err (Error.external "down"), w);
  delete_zone_delegated = λ ref w. (err (Error.external "down"), w);
  get_txt_record = λ name w. (err (Error.external "down"), w);
  create_txt_record = λ name time ttl view w. (err (Error.external "down"), w);
  update_txt_record = λ name time w. (err (Error.external "down"), w);
  delete_txt_record = λ ref w. (err (Error.external "down"), w);
}

abbrev refusing_client : InfobloxClient World
refusing_client = record {
  connect = λ settings w. (ok refusing, w);
  logout = λ w. (ok tt, w);
  fake = refusing;
}

abbrev eu_local : List NameServer
eu_local = local_servers in_order refusing_client idle_dns eu_config all_stale ("10.0.0.1" ∷ [])

abbrev held_zone : ZoneDelegated
held_zone = record {
  fqdn = "cloud.example.com";
  ref = "zone_delegated/1";
  delegate_to = sanitize_delegate_zone (get_cluster_ns_name eu_config) eu_local zone_before;
}

refresh_zone_settled_example :
    refresh_zone in_order refusing_client idle_dns eu_config all_stale refusing running eu_local
      held_zone world
    ≡ (ok tt, world)
refresh_zone_settled_example =
    refresh_zone_settled in_order refusing_client idle_dns eu_config all_stale refusing running
      ("10.0.0.1" ∷ []) zone_before held_zone world refl refl

stale_run :
    drop_stale in_order refusing_client idle_dns eu_config all_stale []
      (pos 300)
      (("us", "gslb-ns-us") ∷ [])
      (eu_server ∷ us_server ∷ [])
      world
    ≡ (ok (eu_server ∷ []), world)
unfolding drop_stale filter_out_delegate_to
stale_run = refl

drop_stale_keeps_example :
    filter (λ v. v.name == "gslb-ns-eu") (eu_server ∷ [])
    ≡ filter (λ v. v.name == "gslb-ns-eu") (eu_server ∷ us_server ∷ [])
drop_stale_keeps_example =
    drop_stale_keeps in_order refusing_client idle_dns eu_config all_stale "gslb-ns-eu" [] (pos 300)
      (("us", "gslb-ns-us") ∷ []) (eu_server ∷ us_server ∷ []) world (us_ne_eu, tt) stale_run
