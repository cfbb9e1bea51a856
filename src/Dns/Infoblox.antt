-- ===== src/Dns/Infoblox.antt =====
-- controllers/providers/dns/infoblox.go, infoblox-ibclient.go and infoblox-sort.go: the provider that
-- keeps a delegated zone in Infoblox. infobloxopen's client is the record `ObjectManager`.
pub mod Delegation
use k8gb.Prelude.{
  String, Bool, true, false, Option, none, some, List, [], ◌∷◌, map, ◌==◌, if◌then◌else◌,
}
use k8gb.Prelude.Dict.{Dict, lookup_or_zero}
use k8gb.Prelude.Int.{ℤ, seconds}
use k8gb.Effect.{errorf, Run, pure, raise, handle, ◌>>=◌, ◌>>◌}
use k8gb.Api.{Gslb}
use k8gb.Assistant.{Assistant}
use k8gb.Cluster.{DnsClient}
use k8gb.Depresolver.{Config, Infoblox}
use k8gb.Depresolver.Names.{
  get_cluster_ns_name, get_cluster_heartbeat_fqdn, get_external_cluster_heartbeat_fqdns,
  get_external_cluster_ns_names,
}
use k8gb.Dns.{Provider}
use k8gb.Dns.Zone.{
  NameServer, filter_out_delegate_to, sanitize_delegate_zone, sort_zones, same_servers,
}

pub record ZoneDelegated : Type 0 where
  pub fqdn : String
  pub ref : String
  pub delegate_to : List NameServer

-- A text record in Infoblox: its reference.
abbrev pub RecordTxt : Type 0
RecordTxt = String

-- The operations by zone name, reference or record name.
pub record ObjectManager (W : Type 0) : Type 0 where
  pub get_zone_delegated : String → Run W (Option ZoneDelegated)
  pub create_zone_delegated : String → List NameServer → Run W (Unit {0})
  pub update_zone_delegated : String → List NameServer → Run W (Unit {0})
  pub delete_zone_delegated : String → Run W (Unit {0})
  pub get_txt_record : String → Run W (Option RecordTxt)
  pub create_txt_record : String → String → ℤ → String → Run W (Unit {0})
  pub update_txt_record : String → String → Run W (Unit {0})
  pub delete_txt_record : String → Run W (Unit {0})

-- `connect` makes a connector and a manager over it, `logout` ends the session, and `fake` is the
-- manager over the connector of infoblox-fake.go.
pub record InfobloxClient (W : Type 0) : Type 0 where
  pub connect : Infoblox → Run W (ObjectManager W)
  pub logout : Run W (Unit {0})
  pub fake : ObjectManager W

module _ {W : Type 0} (visit : Dict String → Dict String) (infoblox : InfobloxClient W) where
  module _ (dns : DnsClient W) (config : Config) (assistant : Assistant W) where
    -- The deferred `Logout` runs when this function returns, and its error is logged.
    unfoldable pub infoblox_connection : Run W (ObjectManager W)
    infoblox_connection = if config.fake_infoblox_enabled then pure infoblox.fake else do
      obj_mgr ← infoblox.connect config.infoblox
      handle infoblox.logout (λ _. pure obj_mgr) (λ _. pure obj_mgr)

    unfoldable pub check_zone_delegated : ZoneDelegated → Run W (Unit {0})
    check_zone_delegated zone =
        if zone.fqdn == config.dns_zone
        then pure tt
        else raise (
            errorf
              "delegated zone returned from infoblox(%s) does not match requested gslb zone(%s)"
              (zone.fqdn ∷ config.dns_zone ∷ []))

    -- The loop over the external clusters: one that fails the check of its heartbeat is dropped.
    unfoldable pub drop_stale :
        Dict String → ℤ → Dict String → List NameServer → Run W (List NameServer)
    drop_stale heartbeats threshold [] current = pure current
    drop_stale heartbeats threshold ((geo_tag, ns_name) ∷ rest) current =
        handle (assistant.inspect_txt_threshold (lookup_or_zero geo_tag heartbeats) threshold)
          (λ _. drop_stale heartbeats threshold rest current)
          (λ _. drop_stale heartbeats threshold rest (filter_out_delegate_to current ns_name))

    -- The list to delegate to, from the local servers and the sorted list of the zone.
    unfoldable pub current_list : Gslb → List NameServer → List NameServer → Run W (List NameServer)
    unfolding drop_stale
    current_list gslb delegate_to upstream =
        let sanitized = sanitize_delegate_zone (get_cluster_ns_name config) delegate_to upstream in
        if config.split_brain_check
        then drop_stale (get_external_cluster_heartbeat_fqdns config gslb.meta.name)
            (seconds gslb.spec.strategy.split_brain_threshold_seconds)
            (visit (get_external_cluster_ns_names config)) sanitized
        else pure sanitized

    -- The zone is written only if its list changes. Its own list has been sorted in place.
    unfoldable pub refresh_zone :
        ObjectManager W → Gslb → List NameServer → ZoneDelegated → Run W (Unit {0})
    unfolding current_list
    refresh_zone obj_mgr gslb delegate_to zone = do
      current ← current_list gslb delegate_to (sort_zones zone.delegate_to)
      (if same_servers (sort_zones zone.delegate_to) current
          then pure tt
          else obj_mgr.update_zone_delegated zone.ref current)

    unfoldable pub update_zone :
        ObjectManager W → Gslb → List NameServer → ZoneDelegated → Run W (Unit {0})
    unfolding check_zone_delegated refresh_zone
    update_zone obj_mgr gslb delegate_to zone = do
      check_zone_delegated zone
      if zone.ref == "" then pure tt else refresh_zone obj_mgr gslb delegate_to zone

    unfoldable pub save_zone :
        ObjectManager W → Gslb → List NameServer → Option ZoneDelegated → Run W (Unit {0})
    unfolding update_zone
    save_zone obj_mgr gslb delegate_to none =
        obj_mgr.create_zone_delegated config.dns_zone (sort_zones delegate_to)
    save_zone obj_mgr gslb delegate_to (some zone) = update_zone obj_mgr gslb delegate_to zone

    unfoldable pub write_heartbeat :
        ObjectManager W → Gslb → String → String → Option RecordTxt → Run W (Unit {0})
    write_heartbeat obj_mgr gslb heartbeat time none =
        obj_mgr.create_txt_record heartbeat time gslb.spec.strategy.dns_ttl_seconds "default"
    write_heartbeat obj_mgr gslb heartbeat time (some ref) =
        obj_mgr.update_txt_record heartbeat time

    unfoldable pub save_heartbeat_txt_record : ObjectManager W → Gslb → Run W (Unit {0})
    unfolding write_heartbeat
    save_heartbeat_txt_record obj_mgr gslb = do
      now ← dns.now
      let heartbeat = get_cluster_heartbeat_fqdn config gslb.meta.name
      found ← obj_mgr.get_txt_record heartbeat
      write_heartbeat obj_mgr gslb heartbeat (dns.format_time now) found

    -- The name servers of this cluster: one for each address.
    abbrev pub local_servers : List String → List NameServer
    local_servers addresses =
        map (λ a. record { address = a; name = get_cluster_ns_name config }) addresses

    unfoldable pub create_zone_delegation : Gslb → Run W (Unit {0})
    unfolding infoblox_connection save_zone save_heartbeat_txt_record
    create_zone_delegation gslb = do
      obj_mgr ← infoblox_connection
      addresses ← assistant.gslb_ingress_exposed_ips gslb
      found ← obj_mgr.get_zone_delegated config.dns_zone
      save_zone obj_mgr gslb (local_servers addresses) found
      if config.split_brain_check then save_heartbeat_txt_record obj_mgr gslb else pure tt

    unfoldable pub delete_zone : ObjectManager W → Option ZoneDelegated → Run W (Unit {0})
    unfolding check_zone_delegated
    delete_zone obj_mgr none = pure tt
    delete_zone obj_mgr (some zone) = do
      check_zone_delegated zone
      if zone.ref == "" then pure tt else obj_mgr.delete_zone_delegated zone.ref

    unfoldable pub delete_heartbeat : ObjectManager W → Option RecordTxt → Run W (Unit {0})
    delete_heartbeat obj_mgr none = pure tt
    delete_heartbeat obj_mgr (some ref) =
        if ref == "" then pure tt else obj_mgr.delete_txt_record ref

    unfoldable pub finalize : Gslb → Run W (Unit {0})
    unfolding infoblox_connection delete_zone delete_heartbeat
    finalize gslb = do
      obj_mgr ← infoblox_connection
      found ← obj_mgr.get_zone_delegated config.dns_zone
      delete_zone obj_mgr found
      text ← obj_mgr.get_txt_record (get_cluster_heartbeat_fqdn config gslb.meta.name)
      delete_heartbeat obj_mgr text

    unfoldable pub new_infoblox_dns : Provider W
    unfolding create_zone_delegation finalize
    new_infoblox_dns = record {
      create_zone_delegation = create_zone_delegation;
      gslb_ingress_exposed_ips = assistant.gslb_ingress_exposed_ips;
      get_external_targets =
          λ host. assistant.get_external_targets host (get_external_cluster_ns_names config);
      save_dns_endpoint = λ gslb i. assistant.save_dns_endpoint gslb.meta.namespace i;
      finalize = finalize;
    }
