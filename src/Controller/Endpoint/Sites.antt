-- ===== src/Controller/Endpoint/Sites.antt =====
-- Lemmas on the records of two clusters with the same Gslb (controllers/dnsupdate.go).
use mathlib.Core.List.{flat_map, Perm}
use mathlib.Core.List.Perm
use k8gb.Prelude.{◌≡◌, ◌≢◌, sym, ap, ◌∙◌, String, false, List, [], ◌==◌, starts_with, some, none}
use k8gb.Prelude.Dict.{Dict, lookup}
use k8gb.Prelude.Permuted.{entries-perm}
use k8gb.Effect.{ok, Run, lift}
use k8gb.Effect.Laws.{>>=-eq-ok, >>=-after_ok, pure-eq-ok, run-eq-ok}
use k8gb.Api.{Gslb, ObjectMeta}
use k8gb.Cluster.{Client, DnsEndpoint}
use k8gb.Controller.Endpoint.{
  final_targets, gslb_dns_endpoint, hosts_loop, record_set_meta, sort_targets,
}
use k8gb.Controller.Endpoint.Agreement.{clusters_agree}
use k8gb.Controller.Endpoint.Order.{Answered, hosts_loop-eq-flat_map}
use k8gb.Controller.Endpoint.Records.{hosts_loop-ArePublished}
use k8gb.Controller.Endpoint.Served.{local_name, records, served, served-local_name, served_host}
use k8gb.Controller.Endpoint.Targets.{IsKnown, published}
use k8gb.Controller.Health.{get_service_health_status}
use k8gb.Controller.Health.Probes.{get_service_health_status-IsReport}
use k8gb.Depresolver.{Config}
use k8gb.Dns.{Provider}

-- A cluster with a Gslb: how its loops over maps go, its API server, its operator and its state.
pub record Site (W : Type 0) : Type 0 where
  pub visit : Dict String → Dict String
  pub client : Client W
  pub config : Config
  pub provider : Provider W
  pub gslb : Gslb
  pub state : W

-- The records that a cluster makes from its state.
abbrev pub Publishes : {W : Type 0} → Site W → DnsEndpoint → W → Type 0
Publishes a records after =
    gslb_dns_endpoint a.visit a.client a.config a.provider a.gslb a.state ≡ (ok records, after)

-- The external targets that a cluster finds are the answers of these records.
abbrev pub Asks : {W : Type 0} → Site W → DnsEndpoint → Type 0
Asks a other = Answered a.provider (λ host. served (local_name host) other.endpoints)

-- What a cluster finds for a host: its status, and the addresses of the cluster. No host of the
-- Gslb has the name under which the host's local targets are published.
abbrev pub Finds : {W : Type 0} → Site W → String → String → List String → Type 0
Finds {W} a host status local =
    (health : Dict String) × (probed : W) × (get_service_health_status a.client a.gslb a.state
      ≡ (ok health, probed))
    × (lookup host health ≡ some status)
    × (lookup (local_name host) health ≡ none)
    × ((a.provider.gslb_ingress_exposed_ips a.gslb probed).0 ≡ ok local)

abbrev pub Reorders : {W : Type 0} → Site W → Type 0
Reorders a = (d : Dict String) → Perm (a.visit d) d

module _ {W : Type 0} (a : Site W) (table : String → List String)
    (answered : Answered a.provider table) where
  -- The records that a run publishes are those of the hosts that it found.
  endpoints-eq :
      {result : DnsEndpoint} {after : W} {health : Dict String} {probed : W} {local : List String}
      → Publishes a result after
      → get_service_health_status a.client a.gslb a.state ≡ (ok health, probed)
      → (a.provider.gslb_ingress_exposed_ips a.gslb probed).0 ≡ ok local
      → result.endpoints
        ≡ flat_map
            (records a.gslb.spec.strategy a.config.cluster_geo_tag table local)
            (a.visit health)
  unfolding gslb_dns_endpoint
  endpoints-eq {result} {after} {health} {probed} {local} run reported exposed_eq =
      let exposed = a.provider.gslb_ingress_exposed_ips a.gslb in
      let owned : Run W ObjectMeta =
        lift (a.client.set_controller_reference a.gslb.meta (record_set_meta a.gslb)) in
      let w2 = (exposed probed).1 in
      let s = a.gslb.spec.strategy in
      let loop = hosts_loop a.visit a.client a.config a.provider s local (a.visit health) [] in
      let h1 = >>=-after_ok (get_service_health_status a.client a.gslb) _ a.state reported run in
      let h2 = >>=-after_ok exposed _ probed (run-eq-ok exposed probed exposed_eq) h1 in
      let (hosts, e3, h3) = >>=-eq-ok loop _ w2 h2 in
      let (meta, e4, h4) = >>=-eq-ok owned _ (loop w2).1 h3 in
      let (_, _, (_, _, _, zones)) =
        hosts_loop-ArePublished a.visit a.client a.config a.provider s local (a.visit health) [] w2
          (run-eq-ok loop w2 e3) in
      let shape =
        hosts_loop-eq-flat_map a.client a.config a.provider table answered a.visit s local
          (a.visit health) [] w2 zones in
      sym (ap (λ (d : DnsEndpoint). d.endpoints) (pure-eq-ok _ _ h4))
      ∙ sym (pure-eq-ok _ w2 (sym shape ∙ run-eq-ok loop w2 e3))

  -- What the records of a run answer for a host, and for the name of its local targets.
  answers_of_run :
      {result : DnsEndpoint} {after : W} {status : String} {local : List String} (host : String)
      → Reorders a
      → Publishes a result after
      → Finds a host status local
      → starts_with host "localtargets" ≡ false
      → (served host result.endpoints
          ≡ final_targets a.gslb.spec.strategy a.config.cluster_geo_tag
              (status == "Healthy")
              local
              (sort_targets (table host)))
        × (served (local_name host) result.endpoints ≡ published (status == "Healthy") local)
  answers_of_run {local = local} host reorders run (health, probed, reported, found, apart, exposed)
        h =
      let s = a.gslb.spec.strategy in
      let (n, same) =
        entries-perm (Perm.symm (reorders health))
          (get_service_health_status-IsReport a.client a.gslb a.state reported).0.0.0 in
      let eq = endpoints-eq run reported exposed in
      let own = same host ∙ found in
      let none' = same (local_name host) ∙ apart in
      (
        rw eq (
            rw own at
              (served_host s a.config.cluster_geo_tag table local host (a.visit health) n h)),
        rw eq (
            rw own at (
              served-local_name s a.config.cluster_geo_tag table local host (a.visit health) n
                none')),
      )

-- Take two clusters of different geo tags that have a Gslb of one known strategy, the first being
-- its primary cluster. Each asks the other's published records for the external targets of a host,
-- and visits its maps in an order of its own. Both make their records, find a status of the host and
-- the addresses of their own, of which the primary cluster has one. The host's name does not begin
-- with "localtargets", and no host of the Gslb has the name of its local targets. Then both publish
-- the same targets for the host, up to their order, whatever the two statuses are.
pub clusters_serve :
    {V W : Type 0} (a : Site V) (b : Site W) (host : String) {ra rb : DnsEndpoint} {va : V} {wb : W}
    {sa sb : String} {la lb : List String}
    → Reorders a
    → Reorders b
    → Publishes a ra va
    → Publishes b rb wb
    → Asks a rb
    → Asks b ra
    → Finds a host sa la
    → Finds b host sb lb
    → starts_with host "localtargets" ≡ false
    → b.gslb.spec.strategy ≡ a.gslb.spec.strategy
    → IsKnown a.gslb.spec.strategy
    → a.gslb.spec.strategy.primary_geo_tag ≡ a.config.cluster_geo_tag
    → a.config.cluster_geo_tag ≢ b.config.cluster_geo_tag
    → la ≢ []
    → Perm (served host ra.endpoints) (served host rb.endpoints)
clusters_serve a b host {ra} {rb} {sa = sa} {sb = sb} {la = la} {lb = lb} oa ob pa pb qa qb fa fb h
      same known primary tags some_local =
    let (ma, xa) = answers_of_run a (λ x. served (local_name x) rb.endpoints) qa host oa pa fa h in
    let (mb, xb) = answers_of_run b (λ x. served (local_name x) ra.endpoints) qb host ob pb fb h in
    let agree =
      clusters_agree a.gslb.spec.strategy a.config.cluster_geo_tag b.config.cluster_geo_tag
        (sa == "Healthy") (sb == "Healthy") la lb known primary tags some_local in
    rw (ma, mb, xa, xb, same) agree
