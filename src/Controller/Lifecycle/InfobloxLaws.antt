-- ===== src/Controller/Lifecycle/InfobloxLaws.antt =====
-- The Infoblox provider (controllers/providers/dns/infoblox.go) over the assistant of
-- controllers/providers/assistant/gslb.go.
use k8gb.Prelude.{◌≡◌, refl, String, Bool, true, false, Option, List}
use k8gb.Prelude.Dict.{Dict}
use k8gb.Effect.{Outcome, ok, err, panicked}
use k8gb.Effect.Hoare.{Post}
use k8gb.Api.{ObjectKey}
use k8gb.Assistant.{new_gslb_assistant}
use k8gb.Assistant.Quiet.{QuietDns, QuietRecords, new_gslb_assistant-Quiet}
use k8gb.Cluster.{Client, DnsClient}
use k8gb.Controller.Lifecycle.{IsFinalization, LawfulProvider, Observed}
use k8gb.Controller.Lifecycle.InfobloxBegin.{create-Triple}
use k8gb.Controller.Lifecycle.InfobloxEnd.{finalize-Triple}
use k8gb.Controller.Lifecycle.InfobloxZone.{LawfulInfoblox}
use k8gb.Depresolver.{Config}
use k8gb.Depresolver.Names.{get_external_cluster_ns_names}
use k8gb.Dns.Infoblox.{InfobloxClient, new_infoblox_dns}

abbrev IsUnderway : Option (List String) → Bool → Observed → Type 0
IsUnderway fs d o = (o.object ≡ fs) × (o.delegated ≡ true → d ≡ true)

abbrev IsFinished : Option (List String) → Observed → Type 0
IsFinished fs o = (o.object ≡ fs) × (o.delegated ≡ false)

IsFinished-object :
    {A : Type 0} (fs : Option (List String)) (d : Bool) (r : Outcome A) (o : Observed)
    → Post (IsUnderway fs d) (λ (_ : A). IsFinished fs) r o
    → o.object ≡ fs
IsFinished-object fs d (ok a) o p = p.0
IsFinished-object fs d (err e) o p = p.0
IsFinished-object fs d panicked o p = p.0

IsFinished-IsFinalization :
    {A : Type 0} (start : Observed) (r : Outcome A) (o : Observed)
    → Post (IsUnderway start.object start.delegated) (λ (_ : A). IsFinished start.object) r o
    → IsFinalization start r o
IsFinished-IsFinalization start (ok a) o p = p.1
IsFinished-IsFinalization start (err e) o p = p.1
IsFinished-IsFinalization start panicked o p = p.1

same_object :
    {A : Type 0} (fs : Option (List String)) (r : Outcome A) (o : Observed)
    → Post (λ x. x.object ≡ fs) (λ (_ : A) x. x.object ≡ fs) r o
    → o.object ≡ fs
same_object fs (ok a) o p = p
same_object fs (err e) o p = p
same_object fs panicked o p = p

module _ {W : Type 0} {observe : W → Observed} (visit : Dict String → Dict String)
    (infoblox : InfobloxClient W) (client : Client W) (dns : DnsClient W) (config : Config)
    (key : ObjectKey) where
  -- Take an Infoblox whose sessions leave the delegation alone but for the operations on zones, and a
  -- DNS and an API server that never touch it. Then the Infoblox provider over the assistant, with
  -- real sessions, is a lawful one: a finalization that succeeds ends the delegation, one that fails
  -- does not begin it, both it and the delegation leave the Gslb alone, and the other operations leave
  -- all that is observed.
  pub new_infoblox_dns-Lawful :
      LawfulInfoblox observe config infoblox
      → QuietDns observe dns
      → QuietRecords observe client
      → config.fake_infoblox_enabled ≡ false
      → LawfulProvider key observe (
          new_infoblox_dns visit infoblox dns config (
            new_gslb_assistant visit client dns config.k8gb_namespace config.edge_dns_server
              config.edge_dns_server_port))
  unfolding new_infoblox_dns
  new_infoblox_dns-Lawful laws quiet_dns records real =
      let a =
        new_gslb_assistant visit client dns config.k8gb_namespace config.edge_dns_server
          config.edge_dns_server_port in
      let quiet =
        new_gslb_assistant-Quiet visit client dns quiet_dns records config.k8gb_namespace
          config.edge_dns_server config.edge_dns_server_port in
      record {
        exposed_ips = quiet.exposed_ips;
        external_targets =
            λ host. quiet.external_targets host (get_external_cluster_ns_names config);
        save_dns_endpoint = λ g d _ _. quiet.save_dns_endpoint g.meta.namespace d;
        delegation_object = λ g w. same_object (observe w).object _ _ (
            (create-Triple visit infoblox dns config a laws quiet_dns quiet (observe w).object g
                real).holds
              w refl);
        finalize_object = λ g w. IsFinished-object (observe w).object (observe w).delegated _ _ (
            (finalize-Triple visit infoblox dns config a laws (observe w).object
                (observe w).delegated g real).holds
              w (refl, λ t. t));
        finalize_IsFinalization = λ g w. IsFinished-IsFinalization (observe w) _ _ (
            (finalize-Triple visit infoblox dns config a laws (observe w).object
                (observe w).delegated g real).holds
              w (refl, λ t. t));
      }
