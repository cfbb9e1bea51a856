-- ===== src/Dns/External.antt =====
-- controllers/providers/dns/external.go: the provider over external-dns (NS1, Route53), which
-- publishes the delegation as a DNSEndpoint of its own.
pub mod Asking
pub mod Delegation
use k8gb.Prelude.{String, ◌<>◌, none, List, [], ◌∷◌, false, if◌then◌else◌}
use k8gb.Prelude.Dict.{values}
use k8gb.Prelude.Sort.{sort}
use k8gb.Prelude.Text.{ltb_text}
use k8gb.Effect.{Run, ◌>>=◌}
use k8gb.Api.{Gslb}
use k8gb.Assistant.{Assistant}
use k8gb.Cluster.{DnsEndpoint}
use k8gb.Depresolver.{Config}
use k8gb.Depresolver.Names.{get_cluster_ns_name, get_external_cluster_ns_names}
use k8gb.Dns.{Provider}

pub data ExternalDnsType : Type 0 where
  external_ns1 external_route53 : ExternalDnsType

abbrev pub external_dns_text : ExternalDnsType → String
external_dns_text ExternalDnsType.external_ns1 = "ns1"
external_dns_text ExternalDnsType.external_route53 = "route53"

-- The names of all name servers, this cluster's and the others', sorted.
unfoldable pub ns_server_list : Config → List String
unfolding get_cluster_ns_name get_external_cluster_ns_names
ns_server_list config =
    sort ltb_text (get_cluster_ns_name config ∷ values (get_external_cluster_ns_names config))

module _ {W : Type 0} (dns_type : ExternalDnsType) (config : Config) (assistant : Assistant W) where
  abbrev endpoint_name : String
  endpoint_name = "k8gb-ns-" <> external_dns_text dns_type

  unfoldable pub ns_record : Gslb → List String → DnsEndpoint
  unfolding ns_server_list
  ns_record gslb ns_server_ips = record {
    meta = record {
      name = endpoint_name;
      namespace = config.k8gb_namespace;
      annotations = ("k8gb.absa.oss/dnstype", external_dns_text dns_type) ∷ [];
      labels = [];
      finalizers = [];
      marked_for_deletion = false;
      owner = none;
    };
    endpoints =
        record {
          dns_name = config.dns_zone;
          record_ttl = gslb.spec.strategy.dns_ttl_seconds;
          record_type = "NS";
          targets = ns_server_list config;
          labels = [];
        }
        ∷ record {
          dns_name = get_cluster_ns_name config;
          record_ttl = gslb.spec.strategy.dns_ttl_seconds;
          record_type = "A";
          targets = ns_server_ips;
          labels = [];
        }
        ∷ [];
  }

  unfoldable pub create_zone_delegation : Gslb → Run W (Unit {0})
  unfolding ns_record
  create_zone_delegation gslb = do
    ns_server_ips ←
        (if config.core_dns_exposed
          then assistant.core_dns_exposed_ips
          else assistant.gslb_ingress_exposed_ips gslb)
    assistant.save_dns_endpoint config.k8gb_namespace (ns_record gslb ns_server_ips)

  unfoldable pub new_external_dns : Provider W
  unfolding create_zone_delegation
  new_external_dns = record {
    create_zone_delegation = create_zone_delegation;
    gslb_ingress_exposed_ips = assistant.gslb_ingress_exposed_ips;
    get_external_targets =
        λ host. assistant.get_external_targets host (get_external_cluster_ns_names config);
    save_dns_endpoint = λ gslb i. assistant.save_dns_endpoint gslb.meta.namespace i;
    finalize = λ gslb. assistant.remove_endpoint endpoint_name;
  }
