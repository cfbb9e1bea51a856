-- ===== src/Depresolver/Resolve.antt =====
-- `ResolveOperatorConfig` of controllers/depresolver/depresolver_config.go: the configuration from
-- environment variables. Reading a variable (github.com/AbsaOSS/gopkg/env) and zerolog's
-- `ParseLevel` are parameters.
pub mod Laws
use k8gb.Prelude.{
  String, Bool, true, false, Option, none, some, List, [], ◌∷◌, ◌++◌, ◌==◌, if◌then◌else◌,
}
use k8gb.Prelude.Int.{ℤ, pos}
use k8gb.Prelude.Text.{to_lower}
use k8gb.Depresolver.{
  Config, DependencyResolver, EdgeDnsType, Infoblox, Log, LogFormat, LogLevel, log_format_text,
}
use k8gb.Depresolver.Validation.{validate_config}
use k8gb.Depresolver.Validator.{is_not_blank}

-- The `GetEnvAs…OrFallback` functions, by key and fallback, and `ParseLevel`.
pub record Environment : Type 0 where
  pub as_int : String → ℤ → ℤ
  pub as_text : String → String → String
  pub as_texts : String → List String → List String
  pub as_bool : String → Bool → Bool
  pub parse_level : String → LogLevel

abbrev pub when : Bool → EdgeDnsType → List EdgeDnsType
when true t = t ∷ []
when false t = []

unfoldable pub recognized : Config → List EdgeDnsType
recognized c =
    when c.ns1_enabled EdgeDnsType.ns1_dns
    ++ (when c.route53_enabled EdgeDnsType.route53_dns
        ++ when (is_not_blank c.infoblox.host) EdgeDnsType.infoblox_dns)

-- The switch on the number of types recognised.
abbrev edge_dns_type_of : List EdgeDnsType → EdgeDnsType
edge_dns_type_of [] = EdgeDnsType.no_edge_dns
edge_dns_type_of (t ∷ []) = t
edge_dns_type_of (t ∷ u ∷ ts) = EdgeDnsType.multiple_providers

unfoldable pub get_edge_dns_type : Config → EdgeDnsType
unfolding recognized
get_edge_dns_type c = edge_dns_type_of (recognized c)

unfoldable pub parse_log_output_format : String → LogFormat
parse_log_output_format value =
    if value == "json"
    then LogFormat.json_format
    else if value == "simple"
    then LogFormat.simple_format
    else LogFormat.no_format

module _ (env : Environment) where
  unfoldable pub read_infoblox : Infoblox
  read_infoblox = record {
    host = env.as_text "INFOBLOX_GRID_HOST" "";
    version = env.as_text "INFOBLOX_WAPI_VERSION" "";
    port = env.as_int "INFOBLOX_WAPI_PORT" (pos 0);
    username = env.as_text "EXTERNAL_DNS_INFOBLOX_WAPI_USERNAME" "";
    password = env.as_text "EXTERNAL_DNS_INFOBLOX_WAPI_PASSWORD" "";
    http_request_timeout = env.as_int "INFOBLOX_HTTP_REQUEST_TIMEOUT" (pos 20);
    http_pool_connections = env.as_int "INFOBLOX_HTTP_POOL_CONNECTIONS" (pos 10);
  }

  unfoldable pub read_log : Log
  unfolding log_format_text parse_log_output_format
  read_log = record {
    level = env.parse_level (to_lower (env.as_text "LOG_LEVEL" "info"));
    format =
        parse_log_output_format
          (to_lower (env.as_text "LOG_FORMAT" (log_format_text LogFormat.simple_format)));
    no_color = env.as_bool "NO_COLOR" false;
  }

  -- The fields before `EdgeDNSType` is set from them.
  unfoldable pub read_config : Config
  unfolding read_infoblox read_log
  read_config = record {
    reconcile_requeue_seconds = env.as_int "RECONCILE_REQUEUE_SECONDS" (pos 30);
    cluster_geo_tag = env.as_text "CLUSTER_GEO_TAG" "";
    ext_clusters_geo_tags = env.as_texts "EXT_GSLB_CLUSTERS_GEO_TAGS" [];
    edge_dns_type = EdgeDnsType.no_edge_dns;
    edge_dns_server = env.as_text "EDGE_DNS_SERVER" "";
    edge_dns_server_port = env.as_int "EDGE_DNS_SERVER_PORT" (pos 53);
    edge_dns_zone = env.as_text "EDGE_DNS_ZONE" "";
    dns_zone = env.as_text "DNS_ZONE" "";
    k8gb_namespace = env.as_text "POD_NAMESPACE" "";
    infoblox = read_infoblox;
    fake_infoblox_enabled = env.as_bool "FAKE_INFOBLOX" false;
    core_dns_exposed = env.as_bool "COREDNS_EXPOSED" false;
    log = read_log;
    metrics_address = env.as_text "METRICS_ADDRESS" "0.0.0.0:8080";
    route53_enabled = env.as_bool "ROUTE53_ENABLED" false;
    ns1_enabled = env.as_bool "NS1_ENABLED" false;
    split_brain_check = env.as_bool "SPLIT_BRAIN_CHECK" false;
  }

  unfoldable pub resolved_config : Config
  unfolding read_config get_edge_dns_type
  resolved_config = record read_config { edge_dns_type = get_edge_dns_type read_config }

  abbrev configure : Option Config → DependencyResolver → DependencyResolver
  configure (some c) dr = dr
  configure none dr = record dr {
    config = some resolved_config;
    error_config = validate_config resolved_config (recognized resolved_config);
  }

  -- The configuration and the error that it returns are fields of the resolver that it leaves.
  unfoldable pub resolve_operator_config : DependencyResolver → DependencyResolver
  resolve_operator_config dr = configure dr.config dr
