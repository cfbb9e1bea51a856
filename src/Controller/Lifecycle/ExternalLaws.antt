-- ===== src/Controller/Lifecycle/ExternalLaws.antt =====
-- The External DNS provider (controllers/providers/dns/external.go) over the assistant of
-- controllers/providers/assistant/gslb.go. The delegation is the record set that external-dns
-- publishes from.
use k8gb.Prelude.{◌≡◌, ◌≢◌, sym, ap, ◌∙◌, String, ◌<>◌, false, Option, List, if◌then◌else◌}
use k8gb.Prelude.Dict.{Dict}
use k8gb.Prelude.Int.{ℤ}
use k8gb.Effect.{Error, Outcome, ok, err, panicked, is_not_found, Run, pure, raise, settle}
use k8gb.Effect.Keeps.{
  Keeps, handle-Keeps, handle-Keeps_of, if-Keeps, pure-Keeps, raise-Keeps, >>=-Keeps,
}
use k8gb.Api.{key_of, ObjectKey}
use k8gb.Assistant.{new_gslb_assistant, remove_endpoint, save_dns_endpoint}
use k8gb.Assistant.Quiet.{
  QuietDns, QuietReads, core_dns_exposed_ips-Keeps, get_external_targets-Keeps,
  gslb_ingress_exposed_ips-Keeps,
}
use k8gb.Cluster.{Client, DnsClient, DnsEndpoint}
use k8gb.Controller.Lifecycle.{IsFinalization, LawfulProvider, Observed}
use k8gb.Depresolver.{Config}
use k8gb.Depresolver.Names.{get_external_cluster_ns_names}
use k8gb.Dns.External.{ExternalDnsType, create_zone_delegation, external_dns_text, new_external_dns}

-- What a read of the delegation's record set tells. One that is found has the key asked for.
abbrev pub IsLookup : ObjectKey → Observed → Outcome DnsEndpoint → Type 0
IsLookup edge o (ok d) = key_of d.meta ≡ edge
IsLookup edge o (err Error.not_found) = o.delegated ≡ false
IsLookup edge o _ = Unit

-- What the provider relies on from the API server: the zone is delegated while the record set `edge`
-- is there, and no access to record sets changes the Gslb. Any call may fail.
pub record LawfulRecords {W : Type 0} (edge : ObjectKey) (observe : W → Observed)
    (client : Client W) : Type 0 where
  pub reads : QuietReads observe client
  pub found :
      (k : ObjectKey) (w : W) {d : DnsEndpoint}
      → (client.get_dns_endpoint k w).0 ≡ ok d
      → key_of d.meta ≡ k
  pub get_edge : (w : W) → IsLookup edge (observe w) (client.get_dns_endpoint edge w).0
  pub create_other :
      (d : DnsEndpoint) → key_of d.meta ≢ edge → Keeps observe (client.create_dns_endpoint d)
  pub update_other :
      (d : DnsEndpoint) → key_of d.meta ≢ edge → Keeps observe (client.update_dns_endpoint d)
  pub create_object :
      (d : DnsEndpoint) → Keeps (λ w. (observe w).object) (client.create_dns_endpoint d)
  pub update_object :
      (d : DnsEndpoint) → Keeps (λ w. (observe w).object) (client.update_dns_endpoint d)
  pub delete_object :
      (d : DnsEndpoint) → Keeps (λ w. (observe w).object) (client.delete_dns_endpoint d)
  pub delete_edge :
      (d : DnsEndpoint) (w : W)
      → key_of d.meta ≡ edge
      → IsFinalization
          (observe w)
          (client.delete_dns_endpoint d w).0
          (observe (client.delete_dns_endpoint d w).1)

-- The record set that holds the delegation.
abbrev pub edge_key : ExternalDnsType → Config → ObjectKey
edge_key dns_type config = record {
  name = "k8gb-ns-" <> external_dns_text dns_type;
  namespace = config.k8gb_namespace;
}

finalized :
    {W : Type 0} {observe : W → Observed} (client : Client W) (edge : ObjectKey)
    (laws : LawfulRecords edge observe client) (o : Observed) (r : Outcome DnsEndpoint) (v : W)
    → observe v ≡ o
    → IsLookup edge o r
    → IsFinalization o
        (settle r
          (λ found. client.delete_dns_endpoint found)
          (λ e. if is_not_found e then pure tt else raise e)
          v).0
        (observe
          (settle r
            (λ found. client.delete_dns_endpoint found)
            (λ e. if is_not_found e then pure tt else raise e)
            v).1)
finalized client edge laws o (ok d) v s k = rw s at (laws.delete_edge d v k)
finalized client edge laws o (err Error.not_found) v s n = rw s n
finalized client edge laws o (err Error.conflict) v s _ = λ t. rw s at t
finalized client edge laws o (err Error.resource_expired) v s _ = λ t. rw s at t
finalized client edge laws o (err (Error.errorf x xs)) v s _ = λ t. rw s at t
finalized client edge laws o (err (Error.external x)) v s _ = λ t. rw s at t
finalized client edge laws o panicked v s _ = λ t. rw s at t

module _ {W : Type 0} {observe : W → Observed} (visit : Dict String → Dict String)
    (client : Client W) (dns : DnsClient W) (config : Config) (dns_type : ExternalDnsType)
    (laws : LawfulRecords (edge_key dns_type config) observe client)
    (quiet : QuietDns observe dns) where
  abbrev object : W → Option (List String)
  object w = (observe w).object

  object-Keeps : {A : Type 0} (m : Run W A) → Keeps observe m → Keeps object m
  object-Keeps m k = record { same = λ w. ap (λ o. o.object) (k.same w) }

  module _ (namespace server : String) (port : ℤ) where
    -- A record set other than the delegation's.
    other-Keeps :
        (ns : String) (d : DnsEndpoint)
        → key_of d.meta ≡ record { name = d.meta.name; namespace = ns }
        → key_of d.meta ≢ edge_key dns_type config
        → Keeps observe (save_dns_endpoint visit client dns namespace server port ns d)
    unfolding save_dns_endpoint
    other-Keeps ns d named other =
        handle-Keeps_of _ _ _ (laws.reads.get_dns_endpoint _)
          (λ found w e. laws.update_other _ (λ h. other (named ∙ sym (laws.found _ w e) ∙ h)))
          (λ e. if-Keeps _ _ _ (laws.create_other d other) (raise-Keeps e))

    any_object-Keeps :
        (ns : String) (d : DnsEndpoint)
        → Keeps object (save_dns_endpoint visit client dns namespace server port ns d)
    unfolding save_dns_endpoint
    any_object-Keeps ns d =
        handle-Keeps _ _ _ (object-Keeps _ (laws.reads.get_dns_endpoint _))
          (λ found. laws.update_object _)
          (λ e. if-Keeps _ _ _ (laws.create_object d) (raise-Keeps e))

    remove_object-Keeps :
        (name : String) → Keeps object (remove_endpoint visit client dns namespace server port name)
    unfolding remove_endpoint
    remove_object-Keeps name =
        handle-Keeps _ _ _ (object-Keeps _ (laws.reads.get_dns_endpoint _))
          (λ found. laws.delete_object _) (λ e. if-Keeps _ _ _ (pure-Keeps tt) (raise-Keeps e))

  -- Take an API server where no access to record sets changes the Gslb, and none to other record sets
  -- the delegation's, and a DNS that changes nothing. For a Gslb that has not the name and the
  -- namespace of that record set, the External DNS provider over the assistant is then a lawful one: a
  -- finalization that succeeds ends the delegation, one that fails does not begin it, both it and the
  -- delegation leave the Gslb alone, and the other operations leave all that is observed.
  pub new_external_dns-Lawful :
      (key : ObjectKey)
      → key ≢ edge_key dns_type config
      → LawfulProvider key observe (
          new_external_dns dns_type config (
            new_gslb_assistant visit client dns config.k8gb_namespace config.edge_dns_server
              config.edge_dns_server_port))
  unfolding new_external_dns new_gslb_assistant create_zone_delegation remove_endpoint
  new_external_dns-Lawful key other =
      let ns = config.k8gb_namespace in
      let server = config.edge_dns_server in
      let port = config.edge_dns_server_port in
      record {
        exposed_ips =
            gslb_ingress_exposed_ips-Keeps visit client dns quiet laws.reads ns server port;
        external_targets = λ host.
            get_external_targets-Keeps visit client dns quiet laws.reads ns server port host
              (get_external_cluster_ns_names config);
        save_dns_endpoint = λ g d n m.
            other-Keeps ns server port g.meta.namespace d
              (λ i. record { name = d.meta.name; namespace = ((m ∙ sym n) i).namespace })
              (λ h. other (sym m ∙ h));
        delegation_object = λ g. Keeps.same (
            >>=-Keeps _ _
              (if-Keeps config.core_dns_exposed _ _
                (object-Keeps _
                  (core_dns_exposed_ips-Keeps visit client dns quiet laws.reads ns server port))
                (object-Keeps _ (
                  gslb_ingress_exposed_ips-Keeps visit client dns quiet laws.reads ns server port
                    g)))
              (λ ips. any_object-Keeps ns server port ns _));
        finalize_object = λ g. Keeps.same (remove_object-Keeps ns server port _);
        finalize_IsFinalization = λ g w.
            finalized client (edge_key dns_type config) laws (observe w) _ _
              ((laws.reads.get_dns_endpoint _).same w) (laws.get_edge w);
      }
