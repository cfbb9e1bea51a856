-- ===== src/Dns.antt =====
-- controllers/providers/dns: the provider interface (dns.go). Its implementations are the children.
pub mod Empty
pub mod External
pub mod Zone
pub mod Infoblox
pub mod Factory
use k8gb.Prelude.{String, List}
use k8gb.Effect.{Run}
use k8gb.Api.{Gslb}
use k8gb.Cluster.{DnsEndpoint}

pub record Provider (W : Type 0) : Type 0 where
  pub create_zone_delegation : Gslb → Run W (Unit {0})
  pub gslb_ingress_exposed_ips : Gslb → Run W (List String)
  pub get_external_targets : String → Run W (List String)
  pub save_dns_endpoint : Gslb → DnsEndpoint → Run W (Unit {0})
  pub finalize : Gslb → Run W (Unit {0})
