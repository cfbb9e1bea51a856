-- ===== src/Depresolver.antt =====
-- controllers/depresolver/depresolver.go: the operator's configuration and the resolver's state.
pub mod Patterns
pub mod Validator
pub mod Names
pub mod Validation
pub mod Resolve
pub mod Spec
use k8gb.Prelude.{String, Bool, Option, none, List, []}
use k8gb.Prelude.Int.{ℤ, pos}
use k8gb.Effect.{Error}
use k8gb.Api.{GslbSpec}

pub data LogFormat : Type 0 where
  json_format simple_format no_format : LogFormat

-- `String` of a log format
unfoldable pub log_format_text : LogFormat → String
log_format_text LogFormat.json_format = "json"
log_format_text LogFormat.simple_format = "simple"
log_format_text LogFormat.no_format = "noformat"

pub data EdgeDnsType : Type 0 where
  no_edge_dns infoblox_dns route53_dns ns1_dns multiple_providers : EdgeDnsType

unfoldable pub edge_dns_type_text : EdgeDnsType → String
edge_dns_type_text EdgeDnsType.no_edge_dns = "NoEdgeDNS"
edge_dns_type_text EdgeDnsType.infoblox_dns = "Infoblox"
edge_dns_type_text EdgeDnsType.route53_dns = "Route53"
edge_dns_type_text EdgeDnsType.ns1_dns = "NS1"
edge_dns_type_text EdgeDnsType.multiple_providers = "MultipleProviders"

-- zerolog's levels. `no_level` is what its parser gives for a text that it does not know.
pub data LogLevel : Type 0 where
  debug_level info_level warn_level error_level fatal_level panic_level : LogLevel
  no_level disabled trace_level : LogLevel

pub record Log : Type 0 where
  pub level : LogLevel
  pub format : LogFormat
  pub no_color : Bool

pub record Infoblox : Type 0 where
  pub host : String
  pub version : String
  pub port : ℤ
  pub username : String
  pub password : String
  pub http_request_timeout : ℤ
  pub http_pool_connections : ℤ

pub record Config : Type 0 where
  pub reconcile_requeue_seconds : ℤ
  pub cluster_geo_tag : String
  pub ext_clusters_geo_tags : List String
  pub edge_dns_type : EdgeDnsType
  pub edge_dns_server : String
  pub edge_dns_server_port : ℤ
  pub edge_dns_zone : String
  pub dns_zone : String
  pub k8gb_namespace : String
  pub infoblox : Infoblox
  pub fake_infoblox_enabled : Bool
  pub core_dns_exposed : Bool
  pub log : Log
  pub metrics_address : String
  pub route53_enabled : Bool
  pub ns1_enabled : Bool
  pub split_brain_check : Bool

-- `config` is `none` until `onceConfig` has run.
pub record DependencyResolver : Type 0 where
  pub config : Option Config
  pub error_config : Option Error
  pub error_spec : Option Error
  pub spec : GslbSpec

-- `NewDependencyResolver`: every field has its zero value.
abbrev pub new_dependency_resolver : DependencyResolver
new_dependency_resolver = record {
  config = none;
  error_config = none;
  error_spec = none;
  spec = record {
    ingress = record { ingress_class_name = none; backend = none; tls = []; rules = [] };
    strategy = record {
      kind = "";
      primary_geo_tag = "";
      dns_ttl_seconds = pos 0;
      split_brain_threshold_seconds = pos 0;
    };
  };
}
