-- ===== src/Dns/Factory.antt =====
-- controllers/providers/dns/factory.go: the provider for the configured edge DNS.
use k8gb.Prelude.{String}
use k8gb.Prelude.Dict.{Dict}
use k8gb.Assistant.{new_gslb_assistant}
use k8gb.Cluster.{Client, DnsClient}
use k8gb.Depresolver.{Config, EdgeDnsType}
use k8gb.Dns.{Provider}
use k8gb.Dns.Empty.{new_empty_dns}
use k8gb.Dns.External.{external_ns1, external_route53, new_external_dns}
use k8gb.Dns.Infoblox.{InfobloxClient, new_infoblox_dns}

module _ {W : Type 0} (visit : Dict String → Dict String) (infoblox : InfobloxClient W) where
  module _ (client : Client W) (dns : DnsClient W) (config : Config) where
    unfoldable pub provider : Provider W
    unfolding new_gslb_assistant new_empty_dns new_external_dns new_infoblox_dns
    provider =
        let a =
          new_gslb_assistant visit client dns config.k8gb_namespace config.edge_dns_server
            config.edge_dns_server_port in
        elim config.edge_dns_type [
          | EdgeDnsType.ns1_dns ↦ new_external_dns external_ns1 config a
          | EdgeDnsType.route53_dns ↦ new_external_dns external_route53 config a
          | EdgeDnsType.infoblox_dns ↦ new_infoblox_dns visit infoblox dns config a
          | _ ↦ new_empty_dns config a
        ]
