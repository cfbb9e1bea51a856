-- ===== src/Controller/Lifecycle/InfobloxBegin.antt =====
-- The delegation in Infoblox (`CreateZoneDelegationForExternalDNS` of
-- controllers/providers/dns/infoblox.go), and the provider as a whole.
use k8gb.Prelude.{◌≡◌, ap, ◌∙◌, String, false, Option, none, some, List, [], ◌∷◌, ◌==◌}
use k8gb.Prelude.Dict.{Dict}
use k8gb.Prelude.Int.{ℤ}
use k8gb.Effect.{Outcome, ok, err, panicked, Run}
use k8gb.Effect.Hoare.{Post, Triple, given-Triple, >>=-Triple}
use k8gb.Effect.Keeps.{Keeps, handle-Keeps, if-Keeps, pure-Keeps, raise-Keeps, >>=-Keeps}
use k8gb.Api.{Gslb}
use k8gb.Assistant.{Assistant}
use k8gb.Assistant.Quiet.{QuietAssistant, QuietDns}
use k8gb.Cluster.{DnsClient}
use k8gb.Controller.Lifecycle.{Observed}
use k8gb.Controller.Lifecycle.InfobloxZone.{LawfulInfoblox, LawfulManager, connection-Triple}
use k8gb.Depresolver.{Config}
use k8gb.Dns.Infoblox.{
  InfobloxClient, ObjectManager, RecordTxt, ZoneDelegated, check_zone_delegated,
  create_zone_delegation, current_list, drop_stale, refresh_zone, save_heartbeat_txt_record,
  save_zone, update_zone, write_heartbeat,
}
use k8gb.Dns.Zone.{NameServer}

module _ {W : Type 0} {observe : W → Observed} (visit : Dict String → Dict String)
    (infoblox : InfobloxClient W) (dns : DnsClient W) (config : Config) (assistant : Assistant W)
    (laws : LawfulInfoblox observe config infoblox) (quiet_dns : QuietDns observe dns)
    (quiet : QuietAssistant observe assistant) where
  abbrev object : W → Option (List String)
  object w = (observe w).object

  object-Keeps : {A : Type 0} (m : Run W A) → Keeps observe m → Keeps object m
  object-Keeps m k = record { same = λ w. ap (λ o. o.object) (k.same w) }

  drop_stale-Keeps :
      (heartbeats : Dict String) (threshold : ℤ) (names : Dict String) (current : List NameServer)
      → Keeps object
          (drop_stale visit infoblox dns config assistant heartbeats threshold names current)
  unfolding drop_stale
  drop_stale-Keeps heartbeats threshold [] current = pure-Keeps current
  drop_stale-Keeps heartbeats threshold ((tag, ns) ∷ rest) current =
      handle-Keeps _ _ _ (object-Keeps _ (quiet.inspect_txt_threshold _ _))
        (λ _. drop_stale-Keeps heartbeats threshold rest _)
        (λ _. drop_stale-Keeps heartbeats threshold rest _)

  current_list-Keeps :
      (g : Gslb) (local upstream : List NameServer)
      → Keeps object (current_list visit infoblox dns config assistant g local upstream)
  unfolding current_list
  current_list-Keeps g local upstream = if-Keeps _ _ _ (drop_stale-Keeps _ _ _ _) (pure-Keeps _)

  module _ (m : ObjectManager W) (lawful : LawfulManager observe config.dns_zone m) where
    check_zone_delegated-Keeps :
        (zone : ZoneDelegated)
        → Keeps object (check_zone_delegated visit infoblox dns config assistant zone)
    unfolding check_zone_delegated
    check_zone_delegated-Keeps zone =
        if-Keeps (zone.fqdn == config.dns_zone) _ _ (pure-Keeps tt) (raise-Keeps _)

    refresh_zone-Keeps :
        (g : Gslb) (local : List NameServer) (zone : ZoneDelegated)
        → Keeps object (refresh_zone visit infoblox dns config assistant m g local zone)
    unfolding refresh_zone
    refresh_zone-Keeps g local zone =
        >>=-Keeps _ _ (current_list-Keeps g local _)
          (λ _. if-Keeps _ _ _ (pure-Keeps tt) (lawful.update_zone _ _))

    update_zone-Keeps :
        (g : Gslb) (local : List NameServer) (zone : ZoneDelegated)
        → Keeps object (update_zone visit infoblox dns config assistant m g local zone)
    unfolding update_zone
    update_zone-Keeps g local zone =
        >>=-Keeps _ _ (check_zone_delegated-Keeps zone)
          (λ _. if-Keeps _ _ _ (pure-Keeps tt) (refresh_zone-Keeps g local zone))

    save_zone-Keeps :
        (g : Gslb) (local : List NameServer) (found : Option ZoneDelegated)
        → Keeps object (save_zone visit infoblox dns config assistant m g local found)
    unfolding save_zone
    save_zone-Keeps g local none = lawful.create_zone _
    save_zone-Keeps g local (some zone) = update_zone-Keeps g local zone

    write_heartbeat-Keeps :
        (g : Gslb) (name time : String) (found : Option RecordTxt)
        → Keeps object (write_heartbeat visit infoblox dns config assistant m g name time found)
    unfolding write_heartbeat
    write_heartbeat-Keeps g name time none = object-Keeps _ (lawful.create_txt _ _ _ _)
    write_heartbeat-Keeps g name time (some ref) = object-Keeps _ (lawful.update_txt _ _)

    save_heartbeat-Keeps :
        (g : Gslb)
        → Keeps object (save_heartbeat_txt_record visit infoblox dns config assistant m g)
    unfolding save_heartbeat_txt_record
    save_heartbeat-Keeps g = >>=-Keeps _ _ (object-Keeps _ quiet_dns.now) (λ _.
        >>=-Keeps _ _ (object-Keeps _ (lawful.get_txt _))
          (λ found. write_heartbeat-Keeps g _ _ found))

  abbrev IsSame : Option (List String) → Observed → Type 0
  IsSame fs o = o.object ≡ fs

  IsSame-holds :
      {A : Type 0} (fs : Option (List String)) (r : Outcome A) (o : Observed)
      → IsSame fs o
      → Post (IsSame fs) (λ _. IsSame fs) r o
  IsSame-holds fs (ok a) o e = e
  IsSame-holds fs (err x) o e = e
  IsSame-holds fs panicked o e = e

  object-Triple :
      {A : Type 0} (fs : Option (List String)) (m : Run W A)
      → Keeps object m
      → Triple observe (IsSame fs) (IsSame fs) m (λ _. IsSame fs)
  object-Triple fs m k = record { holds = λ w e. IsSame-holds fs (m w).0 _ (k.same w ∙ e) }

  pub create-Triple :
      (fs : Option (List String)) (g : Gslb)
      → config.fake_infoblox_enabled ≡ false
      → Triple observe
          (IsSame fs)
          (IsSame fs)
          (create_zone_delegation visit infoblox dns config assistant g)
          (λ _. IsSame fs)
  unfolding create_zone_delegation
  create-Triple fs g real =
      >>=-Triple _ _ _ (connection-Triple visit infoblox dns config assistant laws (IsSame fs) real)
        (λ m. given-Triple _ _ (λ lawful. object-Triple fs _ (
          >>=-Keeps _ _ (object-Keeps _ (quiet.exposed_ips g)) (λ ips.
            >>=-Keeps _ _ (object-Keeps _ lawful.get_zone) (λ found.
              >>=-Keeps _ _ (save_zone-Keeps m lawful g _ found)
                (λ _. if-Keeps _ _ _ (save_heartbeat-Keeps m lawful g) (pure-Keeps tt)))))))
