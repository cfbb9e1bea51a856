-- ===== src/Controller/Endpoint/Order.antt =====
-- Lemmas on the order of the hosts in `gslb_dns_endpoint` (controllers/dnsupdate.go).
use mathlib.Core.List.{append_assoc, append-nil, flat_map, Perm}
use mathlib.Core.List.Perm
use mathlib.Core.Path.{subst}
use k8gb.Prelude.{◌≡◌, sym, ap, ◌∙◌, String, true, List, [], ◌∷◌, ◌++◌, All}
use k8gb.Prelude.Dict.{Dict}
use k8gb.Prelude.Permuted.{All-perm, flat_map-perm}
use k8gb.Prelude.Text.{contains_text}
use k8gb.Effect.{lift, ok, Run}
use k8gb.Effect.Laws.{>>=-eq-ok, >>=-of_ok, pure-eq-ok, run-eq-ok}
use k8gb.Api.{Gslb, ObjectMeta, Strategy}
use k8gb.Cluster.{Client, DnsEndpoint, Endpoint}
use k8gb.Controller.Endpoint.{gslb_dns_endpoint, hosts_loop, record_set_meta}
use k8gb.Controller.Endpoint.Records.{hosts_loop-ArePublished}
use k8gb.Controller.Endpoint.Served.{records}
use k8gb.Controller.Health.{get_service_health_status}
use k8gb.Depresolver.{Config}
use k8gb.Dns.{Provider}

-- A provider whose external targets do not change while the hosts are visited.
abbrev pub Answered : {W : Type 0} → Provider W → (String → List String) → Type 0
Answered {W} provider table =
    (host : String) (w : W) → provider.get_external_targets host w ≡ (ok (table host), w)

module _ {W : Type 0} (client : Client W) (config : Config) (provider : Provider W)
    (table : String → List String) (answered : Answered provider table) where
  abbrev pub InZone : (String × String) → Type 0
  InZone e = contains_text e.0 config.edge_dns_zone ≡ true

  pub hosts_loop-eq-flat_map :
      (visit : Dict String → Dict String) (s : Strategy) (local : List String)
      (entries : Dict String) (hosts : List Endpoint) (w : W)
      → All InZone entries
      → hosts_loop visit client config provider s local entries hosts w
        ≡ (ok (hosts ++ flat_map (records s config.cluster_geo_tag table local) entries), w)
  unfolding hosts_loop flat_map
  hosts_loop-eq-flat_map visit s local [] hosts w _ = ap (λ t. (ok t, w)) (sym (append-nil hosts))
  hosts_loop-eq-flat_map visit s local ((host, health) ∷ rest) hosts w (z, zs) =
      rw (z, answered host w)
        (hosts_loop-eq-flat_map visit s local rest _ w zs
          ∙ ap (λ t. (ok t, w))
              (append_assoc hosts (records s config.cluster_geo_tag table local (host, health))
                (flat_map (records s config.cluster_geo_tag table local) rest)))

  -- Two orders of the hosts.
  module _ (visit visit' : Dict String → Dict String) (s : Strategy) (local : List String)
      (service_health : Dict String) (w : W)
      (same : Perm (visit service_health) (visit' service_health)) where
    hosts_loop_order :
        {hosts : List Endpoint} {w' : W}
        → hosts_loop visit client config provider s local (visit service_health) [] w
          ≡ (ok hosts, w')
        → (hosts' : List Endpoint) × (hosts_loop visit' client config provider s local
              (visit' service_health)
              []
              w
            ≡ (ok hosts', w'))
          × Perm hosts' hosts
    hosts_loop_order {hosts} {w'} h =
        let (_, _, (_, _, _, zones)) =
          hosts_loop-ArePublished visit client config provider s local (visit service_health) [] w
            h in
        let run = hosts_loop-eq-flat_map visit s local (visit service_health) [] w zones in
        (
          flat_map (records s config.cluster_geo_tag table local) (visit' service_health),
          hosts_loop-eq-flat_map visit' s local (visit' service_health) [] w
                (All-perm InZone (λ e. hlevel) same zones)
              ∙ ap
                  (λ v. (
                    ok (
                        flat_map (records s config.cluster_geo_tag table local)
                          (visit' service_health)),
                    v,
                  ))
                  (ap (λ r. r.1) (sym run ∙ h)),
          rw (pure-eq-ok _ w (sym run ∙ h)) at
              (Perm.symm (flat_map-perm (records s config.cluster_geo_tag table local) same)),
        )

  -- If the external targets of the hosts do not change meanwhile, then the order in which the loop
  -- visits them does not matter: where `gslb_dns_endpoint` succeeds with one order, it succeeds with
  -- any other, leaves the same world, and gives the same records, up to their order, under the same
  -- name.
  pub gslb_dns_endpoint_order :
      (visit visit' : Dict String → Dict String)
      → ((d : Dict String) → Perm (visit d) (visit' d))
      → (gslb : Gslb) (w : W) {record_set : DnsEndpoint} {w' : W}
      → gslb_dns_endpoint visit client config provider gslb w ≡ (ok record_set, w')
      → (record_set' : DnsEndpoint) × (gslb_dns_endpoint visit' client config provider gslb w
          ≡ (ok record_set', w'))
        × (record_set'.meta ≡ record_set.meta)
        × Perm record_set'.endpoints record_set.endpoints
  unfolding gslb_dns_endpoint
  gslb_dns_endpoint_order visit visit' same gslb w {record_set} {w'} h =
      let status = get_service_health_status client gslb in
      let exposed = provider.gslb_ingress_exposed_ips gslb in
      let owned : Run W ObjectMeta =
        lift (client.set_controller_reference gslb.meta (record_set_meta gslb)) in
      let (health, e1, h1) = >>=-eq-ok status _ w h in
      let w1 = (status w).1 in
      let (local, e2, h2) = >>=-eq-ok exposed _ w1 h1 in
      let w2 = (exposed w1).1 in
      let loop =
        hosts_loop visit client config provider gslb.spec.strategy local (visit health) [] in
      let loop' =
        hosts_loop visit' client config provider gslb.spec.strategy local (visit' health) [] in
      let (hosts, e3, h3) = >>=-eq-ok loop _ w2 h2 in
      let w3 = (loop w2).1 in
      let (meta, e4, h4) = >>=-eq-ok owned _ w3 h3 in
      let (hosts', run, p) =
        hosts_loop_order visit visit' gslb.spec.strategy local health w2 (same health)
          (run-eq-ok loop w2 e3) in
      let e5 : record { meta = meta; endpoints = hosts } ≡ record_set = pure-eq-ok _ _ h4 in
      (
        record { meta = meta; endpoints = hosts' },
        >>=-of_ok status _ w (run-eq-ok status w e1) (
            >>=-of_ok exposed _ w1 (run-eq-ok exposed w1 e2) (
              >>=-of_ok loop' _ w2 run (
                >>=-of_ok owned _ w3 (run-eq-ok owned w3 e4)
                  (ap (λ r. (ok (record { meta = meta; endpoints = hosts' }), r.1)) h4)))),
        ap (λ d. d.meta) e5,
        subst (λ (d : DnsEndpoint). Perm hosts' d.endpoints) e5 p,
      )
