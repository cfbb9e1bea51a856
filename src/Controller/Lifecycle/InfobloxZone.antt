-- ===== src/Controller/Lifecycle/InfobloxZone.antt =====
-- The Infoblox provider (controllers/providers/dns/infoblox.go) as a provider of the Gslb's life: the
-- delegation is the zone that Infoblox holds.
use k8gb.Prelude.{◌≡◌, ◌≢◌, arith, String, false, Option, none, some, List}
use k8gb.Prelude.Int.{ℤ}
use k8gb.Prelude.Dict.{Dict}
use k8gb.Effect.Hoare.{
  Triple, given-Triple, handle-Triple, if-Triple, keeps-Triple, pure-Triple, returns-Triple,
  >>=-Triple,
}
use k8gb.Effect.{Outcome, ok}
use k8gb.Effect.Keeps.{Keeps}
use k8gb.Assistant.{Assistant}
use k8gb.Cluster.{DnsClient}
use k8gb.Controller.Lifecycle.{IsFinalization, Observed}
use k8gb.Depresolver.{Config}
use k8gb.Dns.Infoblox.{InfobloxClient, ObjectManager, ZoneDelegated, infoblox_connection}
use k8gb.Dns.Zone.{NameServer}

-- No zone is found only if there is none, and a zone that is found has a reference.
abbrev pub IsSearch : Observed → Outcome (Option ZoneDelegated) → Type 0
IsSearch o (ok none) = o.delegated ≡ false
IsSearch o (ok (some zone)) = zone.ref ≢ ""
IsSearch o _ = Unit

-- What a session with Infoblox promises: only the operations on zones touch the delegation, and the
-- deletion of the zone that was found ends it.
pub record LawfulManager {W : Type 0} (observe : W → Observed) (dns_zone : String)
    (m : ObjectManager W) : Type 0 where
  pub get_zone : Keeps observe (m.get_zone_delegated dns_zone)
  pub get_zone_IsSearch : (w : W) → IsSearch (observe w) (m.get_zone_delegated dns_zone w).0
  pub create_zone :
      (s : List NameServer) → Keeps (λ w. (observe w).object) (m.create_zone_delegated dns_zone s)
  pub update_zone :
      (ref : String) (s : List NameServer)
      → Keeps (λ w. (observe w).object) (m.update_zone_delegated ref s)
  pub delete_zone_object :
      (ref : String) → Keeps (λ w. (observe w).object) (m.delete_zone_delegated ref)
  pub delete_zone_IsFinalization :
      (zone : ZoneDelegated) (v w : W)
      → (m.get_zone_delegated dns_zone v).0 ≡ ok (some zone)
      → IsFinalization
          (observe w)
          (m.delete_zone_delegated zone.ref w).0
          (observe (m.delete_zone_delegated zone.ref w).1)
  pub get_txt : (name : String) → Keeps observe (m.get_txt_record name)
  pub create_txt :
      (name text : String) (ttl : ℤ) (view : String)
      → Keeps observe (m.create_txt_record name text ttl view)
  pub update_txt : (name text : String) → Keeps observe (m.update_txt_record name text)
  pub delete_txt : (ref : String) → Keeps observe (m.delete_txt_record ref)

-- Every session that is opened is a lawful one.
pub record LawfulInfoblox {W : Type 0} (observe : W → Observed) (config : Config)
    (infoblox : InfobloxClient W) : Type 0 where
  pub connect : Keeps observe (infoblox.connect config.infoblox)
  pub manager :
      (w : W) (m : ObjectManager W)
      → (infoblox.connect config.infoblox w).0 ≡ ok m
      → LawfulManager observe config.dns_zone m
  pub logout : Keeps observe infoblox.logout

module _ {W : Type 0} {observe : W → Observed} (visit : Dict String → Dict String)
    (infoblox : InfobloxClient W) (dns : DnsClient W) (config : Config) (assistant : Assistant W)
    (laws : LawfulInfoblox observe config infoblox) (P : Observed → Type 0) where
  -- Connecting leaves everything as it is, and opens a lawful session.
  pub connection-Triple :
      config.fake_infoblox_enabled ≡ false
      → Triple observe P P
          (infoblox_connection visit infoblox dns config assistant)
          (λ m o. P o × LawfulManager observe config.dns_zone m)
  unfolding infoblox_connection
  connection-Triple real =
      if-Triple config.fake_infoblox_enabled _ _ (λ f. absurd (ground (arith, real, f)))
        (λ _.
          >>=-Triple (λ m o. P o × LawfulManager observe config.dns_zone m) _ _
            (returns-Triple (infoblox.connect config.infoblox) (λ o u. u) laws.connect
              (λ m w e u. (u, laws.manager w m e)))
            (λ m. given-Triple _ _ (λ lawful.
              handle-Triple (λ _. P) _ _ _ (keeps-Triple P _ (λ o u. u) laws.logout)
                (λ _. pure-Triple _ (λ o u. (u, lawful)))
                (λ _. pure-Triple _ (λ o u. (u, lawful))))))
