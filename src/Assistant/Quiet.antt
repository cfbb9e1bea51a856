-- ===== src/Assistant/Quiet.antt =====
-- The calls of the assistant (controllers/providers/assistant/gslb.go) that leave alone what is
-- observed of the world.
use k8gb.Prelude.{String, Option, none, some, List, [], ◌∷◌}
use k8gb.Prelude.Dict.{Dict}
use k8gb.Prelude.Int.{ℤ}
use k8gb.Prelude.Text.{split_char}
use k8gb.Effect.Keeps.{
  Keeps, crash-Keeps, handle-Keeps, if-Keeps, lift-Keeps, pure-Keeps, raise-Keeps, >>=-Keeps,
}
use k8gb.Api.{Gslb, ObjectKey}
use k8gb.Assistant.{
  Assistant, core_dns_exposed_ips, core_lb_ips, new_gslb_assistant, entry_ips, exposed_ips_loop,
  get_external_targets, gslb_ingress_exposed_ips, inspect_txt_threshold, inspect_answer,
  inspect_quoted, inspect_text, dns_query, fifth, save_dns_endpoint, targets_loop,
}
use k8gb.Cluster.{
  Answer, Client, DnsClient, DnsEndpoint, LoadBalancerIngress, QueryType, a_record, other_record,
  txt_record,
}
use k8gb.Utils.{dig}

-- Queries, and the choice of the server that `dig` queries.
pub record QuietDns {W O : Type 0} (observe : W → O) (dns : DnsClient W) : Type 0 where
  pub exchange :
      (name : String) (t : QueryType) (server : String) (port : ℤ)
      → Keeps observe (dns.exchange name t server port)
  pub set_dns : (server : String) → Keeps observe (dns.set_dns server)
  pub dig_a : (server name : String) → Keeps observe (dns.dig_a server name)
  pub now : Keeps observe dns.now

-- What is read from the API server.
pub record QuietReads {W O : Type 0} (observe : W → O) (client : Client W) : Type 0 where
  pub get_service : (k : ObjectKey) → Keeps observe (client.get_service k)
  pub get_ingress : (k : ObjectKey) → Keeps observe (client.get_ingress k)
  pub get_dns_endpoint : (k : ObjectKey) → Keeps observe (client.get_dns_endpoint k)

-- Access to the record sets.
pub record QuietRecords {W O : Type 0} (observe : W → O) (client : Client W) : Type 0 where
  pub reads : QuietReads observe client
  pub create_dns_endpoint : (d : DnsEndpoint) → Keeps observe (client.create_dns_endpoint d)
  pub update_dns_endpoint : (d : DnsEndpoint) → Keeps observe (client.update_dns_endpoint d)

-- An assistant that leaves alone what is observed, but for `RemoveEndpoint`.
pub record QuietAssistant {W O : Type 0} (observe : W → O) (assistant : Assistant W) : Type 0 where
  pub exposed_ips : (g : Gslb) → Keeps observe (assistant.gslb_ingress_exposed_ips g)
  pub external_targets :
      (host : String) (names : Dict String)
      → Keeps observe (assistant.get_external_targets host names)
  pub save_dns_endpoint :
      (ns : String) (d : DnsEndpoint) → Keeps observe (assistant.save_dns_endpoint ns d)
  pub inspect_txt_threshold :
      (fqdn : String) (threshold : ℤ)
      → Keeps observe (assistant.inspect_txt_threshold fqdn threshold)

module _ {W O : Type 0} {observe : W → O} (visit : Dict String → Dict String) (client : Client W)
    (dns : DnsClient W) (quiet : QuietDns observe dns) (reads : QuietReads observe client) where
  module _ (namespace server : String) (port : ℤ) where
    dig-Keeps : (fqdn : String) → Keeps observe (dig dns server fqdn)
    unfolding dig
    dig-Keeps fqdn = if-Keeps _ _ _ (raise-Keeps _) (
        handle-Keeps _ _ _ (quiet.set_dns server)
          (λ _.
            handle-Keeps _ _ _ (quiet.dig_a server fqdn) (λ _. pure-Keeps _) (λ _. raise-Keeps _))
          (λ _. raise-Keeps _))

    entry_ips-Keeps :
        (lb : LoadBalancerIngress)
        → Keeps observe (entry_ips visit client dns namespace server port lb)
    unfolding entry_ips
    entry_ips-Keeps lb =
        if-Keeps _ _ _ (pure-Keeps _) (>>=-Keeps _ _ (dig-Keeps lb.hostname) (λ _. pure-Keeps _))

    exposed_ips_loop-Keeps :
        (lbs : List LoadBalancerIngress) (ips : List String)
        → Keeps observe (exposed_ips_loop visit client dns namespace server port lbs ips)
    unfolding exposed_ips_loop
    exposed_ips_loop-Keeps [] ips = pure-Keeps ips
    exposed_ips_loop-Keeps (lb ∷ rest) ips =
        >>=-Keeps _ _ (entry_ips-Keeps lb) (λ _. exposed_ips_loop-Keeps rest _)

    pub gslb_ingress_exposed_ips-Keeps :
        (g : Gslb)
        → Keeps observe (gslb_ingress_exposed_ips visit client dns namespace server port g)
    unfolding gslb_ingress_exposed_ips
    gslb_ingress_exposed_ips-Keeps g =
        >>=-Keeps _ _ (reads.get_ingress _) (λ i. exposed_ips_loop-Keeps i.load_balancer [])

    core_lb_ips-Keeps :
        (lbs : List LoadBalancerIngress)
        → Keeps observe (core_lb_ips visit client dns namespace server port lbs)
    unfolding core_lb_ips
    core_lb_ips-Keeps [] = raise-Keeps _
    core_lb_ips-Keeps (lb ∷ rest) = dig-Keeps lb.hostname

    pub core_dns_exposed_ips-Keeps :
        Keeps observe (core_dns_exposed_ips visit client dns namespace server port)
    unfolding core_dns_exposed_ips
    core_dns_exposed_ips-Keeps = >>=-Keeps _ _ (reads.get_service _) core_lb_ips-Keeps

    targets_loop-Keeps :
        (names : Dict String) (host : String) (targets : List String)
        → Keeps observe (targets_loop visit client dns namespace server port names host targets)
    unfolding targets_loop dns_query
    targets_loop-Keeps [] host targets = pure-Keeps targets
    targets_loop-Keeps ((tag, cluster) ∷ rest) host targets =
        handle-Keeps _ _ _ (quiet.exchange _ _ _ _)
          (λ _. >>=-Keeps _ _ (lift-Keeps _) (λ _.
            handle-Keeps _ _ _ (quiet.exchange _ _ _ _)
              (λ _. >>=-Keeps _ _ (lift-Keeps _) (λ _. targets_loop-Keeps rest _ _))
              (λ _. pure-Keeps _)))
          (λ _. pure-Keeps _)

    pub get_external_targets-Keeps :
        (host : String) (names : Dict String)
        → Keeps observe (get_external_targets visit client dns namespace server port host names)
    unfolding get_external_targets
    get_external_targets-Keeps host names = targets_loop-Keeps (visit names) host []

    text-Keeps :
        (quoted : Option String) (threshold : ℤ)
        → Keeps observe (inspect_quoted visit client dns namespace server port quoted threshold)
    unfolding inspect_quoted
    text-Keeps none threshold = crash-Keeps
    text-Keeps (some q) threshold =
        >>=-Keeps _ _ (lift-Keeps _)
          (λ _. >>=-Keeps _ _ quiet.now (λ _. if-Keeps _ _ _ (raise-Keeps _) (pure-Keeps _)))

    answer-Keeps :
        (answers : List Answer) (threshold : ℤ)
        → Keeps observe (inspect_answer visit client dns namespace server port answers threshold)
    unfolding inspect_answer inspect_text
    answer-Keeps [] threshold = raise-Keeps _
    answer-Keeps (a_record ip ∷ rest) threshold = raise-Keeps _
    answer-Keeps (txt_record printed ∷ rest) threshold =
        text-Keeps (fifth (split_char 9 printed)) threshold
    answer-Keeps (other_record ∷ rest) threshold = raise-Keeps _

    pub inspect_txt_threshold-Keeps :
        (fqdn : String) (threshold : ℤ)
        → Keeps observe
            (inspect_txt_threshold visit client dns namespace server port fqdn threshold)
    unfolding inspect_txt_threshold
    inspect_txt_threshold-Keeps fqdn threshold =
        >>=-Keeps _ _ (quiet.exchange _ _ _ _) (λ answers. answer-Keeps answers threshold)

module _ {W O : Type 0} {observe : W → O} (visit : Dict String → Dict String) (client : Client W)
    (dns : DnsClient W) (quiet : QuietDns observe dns) (records : QuietRecords observe client) where
  module _ (namespace server : String) (port : ℤ) where
    save_dns_endpoint-Keeps :
        (ns : String) (d : DnsEndpoint)
        → Keeps observe (save_dns_endpoint visit client dns namespace server port ns d)
    unfolding save_dns_endpoint
    save_dns_endpoint-Keeps ns d =
        handle-Keeps _ _ _ (records.reads.get_dns_endpoint _) (λ _. records.update_dns_endpoint _)
          (λ e. if-Keeps _ _ _ (records.create_dns_endpoint d) (raise-Keeps e))

    pub new_gslb_assistant-Quiet :
        QuietAssistant observe (new_gslb_assistant visit client dns namespace server port)
    unfolding new_gslb_assistant
    new_gslb_assistant-Quiet = record {
      exposed_ips =
          gslb_ingress_exposed_ips-Keeps visit client dns quiet records.reads namespace server port;
      external_targets =
          get_external_targets-Keeps visit client dns quiet records.reads namespace server port;
      save_dns_endpoint = save_dns_endpoint-Keeps;
      inspect_txt_threshold =
          inspect_txt_threshold-Keeps visit client dns quiet records.reads namespace server port;
    }
