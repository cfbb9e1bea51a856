-- ===== src/Cluster.antt =====
-- What the operator calls outside the repository: the API server through controller-runtime's
-- client, DNS, and Prometheus' gauges. Each is a record of actions on a world of any type, so that a
-- call may fail, and may answer differently each time. The Infoblox client is in Dns/Infoblox.antt.
use k8gb.Prelude.{ℕ, String, List}
use k8gb.Prelude.Int.{ℤ}
use k8gb.Prelude.Dict.{Dict}
use k8gb.Effect.{Outcome, Run}
use k8gb.Api.{Gslb, ObjectKey, ObjectMeta}
use k8gb.Api.V1Beta1

-- An entry of `Status.LoadBalancer.Ingress`.
pub record LoadBalancerIngress : Type 0 where
  pub ip : String
  pub hostname : String

pub record Ingress : Type 0 where
  pub meta : ObjectMeta
  pub spec : V1Beta1.IngressSpec
  pub load_balancer : List LoadBalancerIngress

-- A service: the entries of its load balancer.
abbrev pub Service : Type 0
Service = List LoadBalancerIngress

-- Endpoints: for each subset its addresses.
abbrev pub Endpoints : Type 0
Endpoints = List (List String)

-- external-dns' record, and its custom resource.
pub record Endpoint : Type 0 where
  pub dns_name : String
  pub record_ttl : ℤ
  pub record_type : String
  pub targets : List String
  pub labels : Dict String

pub record DnsEndpoint : Type 0 where
  pub meta : ObjectMeta
  pub endpoints : List Endpoint

-- `update_gslb` and `update_gslb_status` return the object as the server has it after the update.
-- `set_meta_data_annotation` is metav1's, and `set_controller_reference` controllerutil's: owner, object, the object with its owner set.
pub record Client (W : Type 0) : Type 0 where
  pub get_gslb : ObjectKey → Run W Gslb
  pub list_gslbs : String → Run W (List Gslb)
  pub create_gslb : Gslb → Run W (Unit {0})
  pub update_gslb : Gslb → Run W Gslb
  pub update_gslb_status : Gslb → Run W Gslb
  pub get_service : ObjectKey → Run W Service
  pub get_endpoints : ObjectKey → Run W Endpoints
  pub get_ingress : ObjectKey → Run W Ingress
  pub create_ingress : Ingress → Run W (Unit {0})
  pub update_ingress : Ingress → Run W (Unit {0})
  pub get_dns_endpoint : ObjectKey → Run W DnsEndpoint
  pub create_dns_endpoint : DnsEndpoint → Run W (Unit {0})
  pub update_dns_endpoint : DnsEndpoint → Run W (Unit {0})
  pub delete_dns_endpoint : DnsEndpoint → Run W (Unit {0})
  pub set_meta_data_annotation : ObjectMeta → String → String → ObjectMeta
  pub set_controller_reference : ObjectMeta → ObjectMeta → Outcome ObjectMeta

-- A resource record of an answer: an address, a text as miekg/dns prints the record, or another.
pub data Answer : Type 0 where
  a_record : String → Answer
  txt_record : String → Answer
  other_record : Answer

pub data QueryType : Type 0 where
  type_a type_txt : QueryType

-- `fqdn` is `dns.Fqdn`. `exchange`: the question's name, its type, and the server's host and port. `dig_a` is dnsutil's
-- query of A records: server and name. `parse_time` reads a time in the layout of the heartbeat
-- records, and times are in nanoseconds.
pub record DnsClient (W : Type 0) : Type 0 where
  pub fqdn : String → String
  pub exchange : String → QueryType → String → ℤ → Run W (List Answer)
  pub set_dns : String → Run W (Unit {0})
  pub dig_a : String → String → Run W (List String)
  pub parse_time : String → Outcome ℤ
  pub format_time : ℤ → String
  pub now : Run W ℤ

-- Setting a gauge: the metric, its labels, the value.
pub record Gauges (W : Type 0) : Type 0 where
  pub set_gauge : String → Dict String → ℕ → Run W (Unit {0})
