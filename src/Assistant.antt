-- ===== src/Assistant.antt =====
-- controllers/providers/assistant: the interface (assistant.go) and its implementation over the API
-- server and DNS (gslb.go). Log lines are left out. `visit` gives the entries of a map in the order
-- in which a loop visits them, which Go leaves open.
pub mod Targets
pub mod Store
pub mod Quiet
pub mod Heartbeat
use k8gb.Prelude.{String, ◌<>◌, Bool, Option, none, some, List, [], ◌∷◌, ◌++◌, ◌==◌, if◌then◌else◌}
use k8gb.Prelude.Dict.{Dict}
use k8gb.Prelude.Int.{ℤ, ltb_ℤ, ◌-ℤ◌}
use k8gb.Prelude.Text.{split_char, trim_left, trim_right}
use k8gb.Effect.{
  Outcome, ok, panicked, resource_expired, errorf, is_not_found, Run, pure, raise, crash, lift,
  handle, ◌>>=◌, ◌>>◌,
}
use k8gb.Api.{Gslb, key_of}
use k8gb.Cluster.{
  Client, DnsClient, DnsEndpoint, LoadBalancerIngress, Answer, a_record, txt_record, type_a,
  type_txt,
}
use k8gb.Utils.{dig}

pub record Assistant (W : Type 0) : Type 0 where
  pub core_dns_exposed_ips : Run W (List String)
  pub gslb_ingress_exposed_ips : Gslb → Run W (List String)
  pub get_external_targets : String → Dict String → Run W (List String)
  pub save_dns_endpoint : String → DnsEndpoint → Run W (Unit {0})
  pub remove_endpoint : String → Run W (Unit {0})
  pub inspect_txt_threshold : String → ℤ → Run W (Unit {0})

-- `nsA.(*dns.A)` panics on any other record.
unfoldable pub get_a_records : List Answer → Outcome (List String)
get_a_records [] = ok []
get_a_records (a_record ip ∷ answers) = elim (get_a_records answers) [
  | ok ips ↦ ok (ip ∷ ips)
  | _ ↦ panicked
]
get_a_records (_ ∷ answers) = panicked

-- The fifth field of a printed record.
abbrev pub fifth : List String → Option String
fifth (a ∷ b ∷ c ∷ d ∷ e ∷ rest) = some e
fifth _ = none

abbrev pub first_or : String → List String → String
first_or d [] = d
first_or d (x ∷ xs) = x

module _ {W : Type 0} (visit : Dict String → Dict String) (client : Client W)
    (dns : DnsClient W) where
  module _ (k8gb_namespace edge_dns_server : String) (edge_dns_server_port : ℤ) where
    unfoldable pub core_lb_ips : List LoadBalancerIngress → Run W (List String)
    unfolding dig
    core_lb_ips [] =
        raise
          (errorf "no Ingress LoadBalancer entries found for %s serice" ("k8gb-coredns-lb" ∷ []))
    core_lb_ips (lb ∷ rest) = dig dns edge_dns_server lb.hostname

    unfoldable pub core_dns_exposed_ips : Run W (List String)
    unfolding core_lb_ips
    core_dns_exposed_ips = do
      service ← client.get_service (record { name = "k8gb-coredns-lb"; namespace = k8gb_namespace })
      core_lb_ips service

    -- The addresses that one entry adds: its own, and those of its host name.
    unfoldable pub entry_ips : LoadBalancerIngress → Run W (List String)
    unfolding dig
    entry_ips lb =
        let own = if lb.ip == "" then [] else lb.ip ∷ [] in
        if lb.hostname == ""
        then pure own
        else do ips ← dig dns edge_dns_server lb.hostname; pure (own ++ ips)

    unfoldable pub exposed_ips_loop : List LoadBalancerIngress → List String → Run W (List String)
    unfolding entry_ips
    exposed_ips_loop [] ips = pure ips
    exposed_ips_loop (lb ∷ rest) ips = do more ← entry_ips lb; exposed_ips_loop rest (ips ++ more)

    unfoldable pub gslb_ingress_exposed_ips : Gslb → Run W (List String)
    unfolding exposed_ips_loop
    gslb_ingress_exposed_ips gslb = do
      ingress ← client.get_ingress (key_of gslb.meta)
      exposed_ips_loop ingress.load_balancer []

    unfoldable pub save_dns_endpoint : String → DnsEndpoint → Run W (Unit {0})
    save_dns_endpoint namespace i =
        handle (client.get_dns_endpoint (record { name = i.meta.name; namespace = namespace }))
          (λ found. client.update_dns_endpoint (record {
            endpoints = i.endpoints;
            meta = record found.meta { annotations = i.meta.annotations; labels = i.meta.labels };
          }))
          (λ e. if is_not_found e then client.create_dns_endpoint i else raise e)

    unfoldable pub remove_endpoint : String → Run W (Unit {0})
    remove_endpoint endpoint_name =
        handle
          (client.get_dns_endpoint (record { name = endpoint_name; namespace = k8gb_namespace }))
          (λ found. client.delete_dns_endpoint found)
          (λ e. if is_not_found e then pure tt else raise e)

    -- The age of the heartbeat that a printed record's fifth field holds, against the threshold.
    unfoldable pub inspect_quoted : Option String → ℤ → Run W (Unit {0})
    inspect_quoted none threshold = crash
    inspect_quoted (some quoted) threshold = do
      written ← lift (dns.parse_time (trim_right b'"' (trim_left b'"' quoted)))
      now ← dns.now
      if ltb_ℤ threshold (now -ℤ written) then raise resource_expired else pure tt

    unfoldable pub inspect_text : String → ℤ → Run W (Unit {0})
    unfolding inspect_quoted
    inspect_text printed threshold = inspect_quoted (fifth (split_char 9 printed)) threshold

    -- Only the first record of the answer counts, and only if it is a text.
    unfoldable pub inspect_answer : List Answer → ℤ → Run W (Unit {0})
    unfolding inspect_text
    inspect_answer (txt_record printed ∷ rest) threshold = inspect_text printed threshold
    inspect_answer _ threshold = raise resource_expired

    unfoldable pub inspect_txt_threshold : String → ℤ → Run W (Unit {0})
    unfolding inspect_answer
    inspect_txt_threshold fqdn threshold = do
      answers ← dns.exchange (dns.fqdn fqdn) type_txt edge_dns_server edge_dns_server_port
      inspect_answer answers threshold

    unfoldable pub dns_query : String → String → Run W (List Answer)
    dns_query host nameserver = dns.exchange (host <> ".") type_a nameserver edge_dns_server_port

    -- The loop over the clusters' name servers, with the variables `host` and `targets`: a failed
    -- query returns the targets so far.
    unfoldable pub targets_loop : Dict String → String → List String → Run W (List String)
    unfolding dns_query get_a_records
    targets_loop [] host targets = pure targets
    targets_loop ((geo_tag, cluster) ∷ rest) host targets =
        let host' = "localtargets-" <> host in
        handle (dns_query cluster edge_dns_server)
          (λ glue. do
            glue_records ← lift (get_a_records glue)
            handle (dns_query host' (first_or cluster glue_records))
                (λ a. do
                  cluster_targets ← lift (get_a_records a)
                  targets_loop rest host' (targets ++ cluster_targets))
                (λ _. pure targets))
          (λ _. pure targets)

    unfoldable pub get_external_targets : String → Dict String → Run W (List String)
    unfolding targets_loop
    get_external_targets host ext_cluster_ns_names =
        targets_loop (visit ext_cluster_ns_names) host []

    unfoldable pub new_gslb_assistant : Assistant W
    unfolding core_dns_exposed_ips gslb_ingress_exposed_ips get_external_targets save_dns_endpoint
        remove_endpoint inspect_txt_threshold
    new_gslb_assistant = record {
      core_dns_exposed_ips = core_dns_exposed_ips;
      gslb_ingress_exposed_ips = gslb_ingress_exposed_ips;
      get_external_targets = get_external_targets;
      save_dns_endpoint = save_dns_endpoint;
      remove_endpoint = remove_endpoint;
      inspect_txt_threshold = inspect_txt_threshold;
    }
