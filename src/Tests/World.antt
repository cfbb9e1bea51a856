-- ===== src/Tests/World.antt =====
-- Two clusters, "eu" and "us", that share the zone "cloud.example.com", and an API server in memory.
use k8gb.Prelude.{String, Bool, false, ◌&&◌, Option, none, some, List, [], ◌∷◌, ◌==◌, if◌then◌else◌}
use k8gb.Prelude.Dict.{Dict}
use k8gb.Prelude.Int.{pos}
use k8gb.Effect.{Error, ok, err, Outcome}
use k8gb.Api.{Gslb, HttpIngressPath, IngressRule, IngressSpec, ObjectKey, ObjectMeta, Strategy}
use k8gb.Cluster.{Client, DnsEndpoint, Gauges, Ingress}
use k8gb.Depresolver.{
  Config, DependencyResolver, EdgeDnsType, LogFormat, LogLevel, new_dependency_resolver,
}
use k8gb.Dns.{Provider}

pub record World : Type 0 where
  pub gslb : Gslb
  pub ingress : Option Ingress
  pub records : Option DnsEndpoint

abbrev pub failover : Strategy
failover = record {
  kind = "failover";
  primary_geo_tag = "eu";
  dns_ttl_seconds = pos 30;
  split_brain_threshold_seconds = pos 300;
}

abbrev pub path_to : String → HttpIngressPath
path_to service = record {
  path = "/";
  backend = record { service_name = service; service_port = "80" };
}

abbrev pub app_rule : IngressRule
app_rule = record { host = "app.cloud.example.com"; http = some (path_to "front" ∷ []) }

abbrev pub app_spec : IngressSpec
app_spec = record { ingress_class_name = none; backend = none; tls = []; rules = app_rule ∷ [] }

abbrev pub app_meta : List String → Bool → ObjectMeta
app_meta finalizers marked = record {
  name = "app";
  namespace = "prod";
  annotations = [];
  labels = [];
  finalizers = finalizers;
  marked_for_deletion = marked;
  owner = none;
}

abbrev pub app : List String → Bool → Gslb
app finalizers marked = record {
  meta = app_meta finalizers marked;
  spec = record { ingress = app_spec; strategy = failover };
  status = record { service_health = []; healthy_records = []; geo_tag = "" };
}

abbrev pub running : Gslb
running = app ("k8gb.absa.oss/finalizer" ∷ []) false

abbrev pub world : World
world = record { gslb = running; ingress = none; records = none }

abbrev found_or_missing : {A : Type 0} → Option A → Outcome A
found_or_missing none = err Error.not_found
found_or_missing (some a) = ok a

abbrev pub named : ObjectKey → Option DnsEndpoint → Outcome DnsEndpoint
named key none = err Error.not_found
named key (some d) =
    if d.meta.name == key.name && d.meta.namespace == key.namespace
    then ok d
    else err Error.not_found

abbrev pub memory : Client World
memory = record {
  get_gslb = λ key w. (ok w.gslb, w);
  list_gslbs = λ namespace w. (ok (w.gslb ∷ []), w);
  create_gslb = λ g w. (ok tt, record w { gslb = g });
  update_gslb = λ g w. (ok g, record w { gslb = g });
  update_gslb_status = λ g w. (ok g, record w { gslb = g });
  get_service = λ key w. (if key.name == "front" then ok [] else err Error.not_found, w);
  get_endpoints = λ key w. (ok (("10.1.0.1" ∷ []) ∷ []), w);
  get_ingress = λ key w. (found_or_missing w.ingress, w);
  create_ingress = λ i w. (ok tt, record w { ingress = some i });
  update_ingress = λ i w. (ok tt, record w { ingress = some i });
  get_dns_endpoint = λ key w. (named key w.records, w);
  create_dns_endpoint = λ d w. (ok tt, record w { records = some d });
  update_dns_endpoint = λ d w. (ok tt, record w { records = some d });
  delete_dns_endpoint = λ d w. (ok tt, record w { records = none });
  set_meta_data_annotation = λ m k v. m;
  set_controller_reference = λ owner object. ok (record object { owner = some owner.name });
}

-- The gauges' values are not kept.
abbrev pub no_gauges : Gauges World
no_gauges = record { set_gauge = λ name labels n w. (ok tt, w) }

abbrev pub eu_provider : Provider World
eu_provider = record {
  create_zone_delegation = λ g w. (ok tt, w);
  gslb_ingress_exposed_ips = λ g w. (ok ("10.0.0.1" ∷ []), w);
  get_external_targets = λ host w. (ok ("10.0.1.1" ∷ []), w);
  save_dns_endpoint = λ g d w. (ok tt, record w { records = some d });
  finalize = λ g w. (ok tt, w);
}

abbrev pub eu_config : Config
eu_config = record {
  reconcile_requeue_seconds = pos 30;
  cluster_geo_tag = "eu";
  ext_clusters_geo_tags = "us" ∷ [];
  edge_dns_type = EdgeDnsType.infoblox_dns;
  edge_dns_server = "1.1.1.1";
  edge_dns_server_port = pos 53;
  edge_dns_zone = "example.com";
  dns_zone = "cloud.example.com";
  k8gb_namespace = "k8gb";
  infoblox = record {
    host = "10.9.9.9";
    version = "2.10";
    port = pos 443;
    username = "u";
    password = "p";
    http_request_timeout = pos 20;
    http_pool_connections = pos 10;
  };
  fake_infoblox_enabled = false;
  core_dns_exposed = false;
  log = record { level = LogLevel.info_level; format = LogFormat.json_format; no_color = false };
  metrics_address = "0.0.0.0:8080";
  route53_enabled = false;
  ns1_enabled = false;
  split_brain_check = false;
}

abbrev pub in_order : Dict String → Dict String
in_order d = d

abbrev pub app_key : ObjectKey
app_key = record { name = "app"; namespace = "prod" }

-- The resolver has settled the running Gslb's specification before.
abbrev pub settled_resolver : DependencyResolver
settled_resolver = record new_dependency_resolver { spec = running.spec }
