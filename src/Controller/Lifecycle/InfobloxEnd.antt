-- ===== src/Controller/Lifecycle/InfobloxEnd.antt =====
-- The end of a delegation in Infoblox (`Finalize` of controllers/providers/dns/infoblox.go).
use k8gb.Prelude.{
  ◌≡◌, ◌≢◌, ◌∙◌, arith, String, Bool, true, false, Option, none, some, List, ◌==◌, eq_iff,
}
use k8gb.Prelude.Dict.{Dict}
use k8gb.Effect.{Outcome, ok, err, panicked}
use k8gb.Effect.Hoare.{
  Post, Triple, given-Triple, if-Triple, keeps-Triple, pure-Triple, raise-Triple, returns-Triple,
  >>=-Triple,
}
use k8gb.Effect.Keeps.{if-Keeps, pure-Keeps}
use k8gb.Api.{Gslb}
use k8gb.Assistant.{Assistant}
use k8gb.Cluster.{DnsClient}
use k8gb.Controller.Lifecycle.{IsFinalization, Observed}
use k8gb.Controller.Lifecycle.InfobloxZone.{
  IsSearch, LawfulInfoblox, LawfulManager, connection-Triple,
}
use k8gb.Depresolver.{Config}
use k8gb.Dns.Infoblox.{
  InfobloxClient, ObjectManager, RecordTxt, ZoneDelegated, check_zone_delegated, delete_heartbeat,
  delete_zone, finalize,
}

module _ {W : Type 0} {observe : W → Observed} (visit : Dict String → Dict String)
    (infoblox : InfobloxClient W) (dns : DnsClient W) (config : Config) (assistant : Assistant W)
    (laws : LawfulInfoblox observe config infoblox) (fs : Option (List String)) (d : Bool) where
  -- The finalization that began with the object `fs` and the delegation `d` has not begun a delegation.
  abbrev pub IsUnderway : Observed → Type 0
  IsUnderway o = (o.object ≡ fs) × (o.delegated ≡ true → d ≡ true)

  abbrev pub IsFinished : Observed → Type 0
  IsFinished o = (o.object ≡ fs) × (o.delegated ≡ false)

  finished : (o : Observed) → IsFinished o → IsUnderway o
  finished o (s, e) = (s, λ t. absurd (ground (arith, e, t)))

  -- What a search for the zone has found.
  abbrev IsFound : ObjectManager W → Option ZoneDelegated → Observed → Type 0
  IsFound m none o = IsFinished o
  IsFound m (some zone) o =
      IsUnderway o
      × ((zone.ref ≢ "") × (v : W) × ((m.get_zone_delegated config.dns_zone v).0 ≡ ok (some zone)))

  IsFound-in :
      (m : ObjectManager W) (r : Option ZoneDelegated) (w : W)
      → (m.get_zone_delegated config.dns_zone w).0 ≡ ok r
      → IsSearch (observe w) (ok r)
      → IsUnderway (observe w)
      → IsFound m r (observe w)
  IsFound-in m none w e s u = (u.0, s)
  IsFound-in m (some zone) w e s u = (u, (s, w, e))

  search-Triple :
      (m : ObjectManager W)
      → LawfulManager observe config.dns_zone m
      → Triple observe IsUnderway IsUnderway (m.get_zone_delegated config.dns_zone) (IsFound m)
  search-Triple m lawful =
      returns-Triple _ (λ o u. u) lawful.get_zone
        (λ r w e u. IsFound-in m r w e (rw e at (lawful.get_zone_IsSearch w)) u)

  deletion_done :
      (o o' : Observed) (r : Outcome (Unit {0}))
      → IsUnderway o
      → o'.object ≡ o.object
      → IsFinalization o r o'
      → Post IsUnderway (λ _. IsFinished) r o'
  deletion_done o o' (ok a) u s f = (s ∙ u.0, f)
  deletion_done o o' (err e) u s f = (s ∙ u.0, λ t. u.1 (f t))
  deletion_done o o' panicked u s f = (s ∙ u.0, λ t. u.1 (f t))

  deletion-Triple :
      (m : ObjectManager W) (zone : ZoneDelegated) (v : W)
      → LawfulManager observe config.dns_zone m
      → (m.get_zone_delegated config.dns_zone v).0 ≡ ok (some zone)
      → Triple observe IsUnderway IsUnderway (m.delete_zone_delegated zone.ref) (λ _. IsFinished)
  deletion-Triple m zone v lawful e = record {
    holds = λ w u.
        deletion_done (observe w) _ (m.delete_zone_delegated zone.ref w).0 u
          ((lawful.delete_zone_object zone.ref).same w)
          (lawful.delete_zone_IsFinalization zone v w e);
  }

  delete_zone-Triple :
      (m : ObjectManager W) (found : Option ZoneDelegated)
      → LawfulManager observe config.dns_zone m
      → Triple observe IsUnderway
          (IsFound m found)
          (delete_zone visit infoblox dns config assistant m found)
          (λ _. IsFinished)
  unfolding delete_zone check_zone_delegated
  delete_zone-Triple m none lawful = pure-Triple tt (λ o f. f)
  delete_zone-Triple m (some zone) lawful = given-Triple _ _ (λ (given, v, e).
      >>=-Triple (λ _. IsUnderway) _ _
        (if-Triple (zone.fqdn == config.dns_zone) _ _ (λ _. pure-Triple tt (λ o u. u))
          (λ _. raise-Triple _ (λ o u. u)))
        (λ _.
          if-Triple (zone.ref == "") _ _ (λ b. absurd (given ((eq_iff zone.ref "").0 b)))
            (λ _. deletion-Triple m zone v lawful e)))

  delete_heartbeat-Triple :
      (m : ObjectManager W) (text : Option RecordTxt)
      → LawfulManager observe config.dns_zone m
      → Triple observe IsUnderway IsFinished
          (delete_heartbeat visit infoblox dns config assistant m text)
          (λ _. IsFinished)
  unfolding delete_heartbeat
  delete_heartbeat-Triple m none lawful = pure-Triple tt (λ o f. f)
  delete_heartbeat-Triple m (some ref) lawful =
      keeps-Triple IsFinished _ finished (if-Keeps _ _ _ (pure-Keeps tt) (lawful.delete_txt ref))

  pub finalize-Triple :
      (g : Gslb)
      → config.fake_infoblox_enabled ≡ false
      → Triple observe IsUnderway IsUnderway
          (finalize visit infoblox dns config assistant g)
          (λ _. IsFinished)
  unfolding finalize
  finalize-Triple g real =
      >>=-Triple _ _ _ (connection-Triple visit infoblox dns config assistant laws IsUnderway real)
        (λ m. given-Triple _ _ (λ lawful.
          >>=-Triple (IsFound m) _ _ (search-Triple m lawful) (λ found.
            >>=-Triple (λ _. IsFinished) _ _ (delete_zone-Triple m found lawful)
              (λ _.
                >>=-Triple (λ _. IsFinished) _ _
                  (keeps-Triple IsFinished _ finished (lawful.get_txt _))
                  (λ text. delete_heartbeat-Triple m text lawful)))))
