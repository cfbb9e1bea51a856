-- ===== src/Tests/Orders.antt =====
-- The hosts of a Gslb, visited in two orders.
use mathlib.Core.List.{Perm, reverse, reverse_perm}
use mathlib.Core.List.Perm
use k8gb.Prelude.{◌≡◌, refl, [], ◌∷◌, some}
use k8gb.Prelude.Dict.{insert}
use k8gb.Prelude.Int.{pos}
use k8gb.Prelude.Sort.{sort}
use k8gb.Effect.{ok}
use k8gb.Api.{Gslb, IngressRule}
use k8gb.Cluster.{DnsEndpoint}
use k8gb.Controller.Endpoint.{gslb_dns_endpoint, host_record, local_targets_record, record_set_meta}
use k8gb.Controller.Endpoint.Order.{Answered, gslb_dns_endpoint_order}
use k8gb.Tests.World.{
  app_rule, app_spec, eu_config, eu_provider, failover, in_order, memory, path_to, running, world,
}

-- A second host, whose service does not exist.
abbrev web_rule : IngressRule
web_rule = record { host = "web.cloud.example.com"; http = some (path_to "back" ∷ []) }

abbrev both : Gslb
both = record running {
  spec = record running.spec { ingress = record app_spec { rules = app_rule ∷ web_rule ∷ [] } };
}

abbrev both_records : DnsEndpoint
both_records = record {
  meta = record (record_set_meta both) { owner = some "app" };
  endpoints =
      local_targets_record (pos 30) "app.cloud.example.com" ("10.0.0.1" ∷ [])
      ∷ host_record failover "app.cloud.example.com" ("10.0.0.1" ∷ [])
      ∷ host_record failover "web.cloud.example.com" ("10.0.1.1" ∷ [])
      ∷ [];
}

both_run :
    gslb_dns_endpoint in_order memory eu_config eu_provider both world ≡ (ok both_records, world)
unfolding gslb_dns_endpoint insert sort
both_run = refl

eu_Answered : Answered eu_provider (λ host. "10.0.1.1" ∷ [])
eu_Answered = λ host w. refl

gslb_dns_endpoint_order_example :
    (record_set' : DnsEndpoint) × (gslb_dns_endpoint reverse memory eu_config eu_provider both world
      ≡ (ok record_set', world))
    × (record_set'.meta ≡ both_records.meta)
    × Perm record_set'.endpoints both_records.endpoints
gslb_dns_endpoint_order_example =
    gslb_dns_endpoint_order memory eu_config eu_provider (λ host. "10.0.1.1" ∷ []) eu_Answered
      in_order reverse (λ d. Perm.symm (reverse_perm d)) both world both_run
