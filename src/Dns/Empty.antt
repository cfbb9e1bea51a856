-- ===== src/Dns/Empty.antt =====
-- controllers/providers/dns/empty.go: the provider without an edge DNS.
use k8gb.Effect.{pure}
use k8gb.Assistant.{Assistant}
use k8gb.Depresolver.{Config}
use k8gb.Depresolver.Names.{get_external_cluster_ns_names}
use k8gb.Dns.{Provider}

unfoldable pub new_empty_dns : {W : Type 0} → Config → Assistant W → Provider W
unfolding get_external_cluster_ns_names
new_empty_dns config assistant = record {
  create_zone_delegation = λ gslb. pure tt;
  gslb_ingress_exposed_ips = assistant.gslb_ingress_exposed_ips;
  get_external_targets =
      λ host. assistant.get_external_targets host (get_external_cluster_ns_names config);
  save_dns_endpoint = λ gslb i. assistant.save_dns_endpoint gslb.meta.namespace i;
  finalize = λ gslb. assistant.remove_endpoint gslb.meta.name;
}
