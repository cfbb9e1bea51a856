-- ===== src/Controller/Lifecycle/Quiet.antt =====
-- The calls of a reconciliation that leave the Gslb's finalizers and the delegation alone
-- (controllers/gslb_controller.go, status.go, dnsupdate.go, ingress.go).
use k8gb.Prelude.{
  ◌≡◌, inl, inr, sym, ap, ◌∙◌, Option, none, some, String, List, [], ◌∷◌, ◌==◌, Bool-cases,
}
use k8gb.Prelude.Dict.{Dict}
use k8gb.Effect.{crash, lift, ok}
use k8gb.Effect.Laws.{>>=-eq-ok, pure-eq-ok, run-eq-ok}
use k8gb.Effect.Keeps.{
  Keeps, crash-Keeps, pure-Keeps, raise-Keeps, lift-Keeps, if-Keeps, >>=-Keeps, handle-Keeps,
}
use k8gb.Api.{Gslb, HttpIngressPath, IngressRule, key_of, ObjectKey}
use k8gb.Cluster.{Client, DnsEndpoint, Endpoint, Gauges, Ingress}
use k8gb.Controller.Endpoint.{gslb_dns_endpoint, hosts_loop, record_set_meta}
use k8gb.Controller.Health.{
  get_healthy_records, get_service_health_status, paths_loop, probe, rules_loop,
}
use k8gb.Controller.Ingress.{annotated, gslb_ingress, save_ingress}
use k8gb.Controller.Lifecycle.{Lawful, Observed}
use k8gb.Controller.Status.{update_gslb_status}
use k8gb.Depresolver.{Config}
use k8gb.Dns.{Provider}
use k8gb.Metrics.{update_healthy_records_metric, update_ingress_hosts_per_status_metric}
use k8gb.Api.{Strategy}

module _ {W : Type 0} {key : ObjectKey} {observe : W → Observed} {client : Client W}
    {gauges : Gauges W} {provider : Provider W}
    (laws : Lawful key observe client gauges provider) where
  probe-Keeps :
      (namespace : String) (path : HttpIngressPath) → Keeps observe (probe client namespace path)
  unfolding probe
  probe-Keeps namespace path =
      handle-Keeps _ _ _ (laws.server.get_service _)
        (λ _. >>=-Keeps _ _ (laws.server.get_endpoints _) (λ _. pure-Keeps _))
        (λ e. if-Keeps _ _ _ (pure-Keeps _) (raise-Keeps e))

  paths_loop-Keeps :
      (namespace host : String) (paths : List HttpIngressPath) (health : Dict String)
      → Keeps observe (paths_loop client namespace host paths health)
  unfolding paths_loop
  paths_loop-Keeps namespace host [] health = pure-Keeps _
  paths_loop-Keeps namespace host (path ∷ paths) health =
      >>=-Keeps _ _ (probe-Keeps namespace path) (λ _. paths_loop-Keeps namespace host paths _)

  rule-Keeps :
      (namespace host : String) (http : Option (List HttpIngressPath)) (health : Dict String)
      → Keeps {A = Dict String} observe
          (elim http [ none ↦ crash | some paths ↦ paths_loop client namespace host paths health ])
  rule-Keeps namespace host none health = crash-Keeps
  rule-Keeps namespace host (some paths) health = paths_loop-Keeps namespace host paths health

  rules_loop-Keeps :
      (namespace : String) (rules : List IngressRule) (health : Dict String)
      → Keeps observe (rules_loop client namespace rules health)
  unfolding rules_loop
  rules_loop-Keeps namespace [] health = pure-Keeps _
  rules_loop-Keeps namespace (rule ∷ rules) health =
      >>=-Keeps _ _ (rule-Keeps namespace rule.host rule.http health)
        (λ _. rules_loop-Keeps namespace rules _)

  get_service_health_status-Keeps : (g : Gslb) → Keeps observe (get_service_health_status client g)
  unfolding get_service_health_status
  get_service_health_status-Keeps g = rules_loop-Keeps g.meta.namespace g.spec.ingress.rules []

  hosts_loop-Keeps :
      (visit : Dict String → Dict String) (config : Config) (s : Strategy) (local : List String)
      (health : Dict String) (hosts : List Endpoint)
      → Keeps observe (hosts_loop visit client config provider s local health hosts)
  unfolding hosts_loop
  hosts_loop-Keeps visit config s local [] hosts = pure-Keeps _
  hosts_loop-Keeps visit config s local ((host, health) ∷ rest) hosts =
      if-Keeps _ _ _
        (>>=-Keeps _ _ (laws.edge.external_targets host)
          (λ _. hosts_loop-Keeps visit config s local rest _))
        (raise-Keeps _)

  pub gslb_dns_endpoint-Keeps :
      (visit : Dict String → Dict String) (config : Config) (g : Gslb)
      → Keeps observe (gslb_dns_endpoint visit client config provider g)
  unfolding gslb_dns_endpoint
  gslb_dns_endpoint-Keeps visit config g =
      >>=-Keeps _ _ (get_service_health_status-Keeps g) (λ health.
        >>=-Keeps _ _ (laws.edge.exposed_ips g) (λ local.
          >>=-Keeps _ _ (hosts_loop-Keeps visit config g.spec.strategy local (visit health) [])
            (λ _. >>=-Keeps _ _ (lift-Keeps _) (λ _. pure-Keeps _))))

  pub gslb_ingress-Keeps : (g : Gslb) → Keeps observe (gslb_ingress client g)
  unfolding gslb_ingress
  gslb_ingress-Keeps g = >>=-Keeps _ _ (lift-Keeps _) (λ _. pure-Keeps _)

  pub save_ingress-Keeps : (g : Gslb) (i : Ingress) → Keeps observe (save_ingress client g i)
  unfolding save_ingress
  save_ingress-Keeps g i =
      handle-Keeps _ _ _ (laws.server.get_ingress _)
        (λ _. if-Keeps _ _ _ (pure-Keeps _) (
          handle-Keeps _ _ _ (laws.server.update_ingress _) (λ _. pure-Keeps _)
            (λ e. if-Keeps _ _ _ (pure-Keeps _) (raise-Keeps e))))
        (λ e. if-Keeps _ _ _ (laws.server.create_ingress i) (raise-Keeps e))

  pub update_gslb_status-Keeps :
      (config : Config) (g : Gslb) → Keeps observe (update_gslb_status client gauges config g)
  unfolding update_gslb_status update_ingress_hosts_per_status_metric update_healthy_records_metric
      get_healthy_records
  update_gslb_status-Keeps config g = >>=-Keeps _ _ (get_service_health_status-Keeps g) (λ _.
      >>=-Keeps _ _
        (>>=-Keeps _ _ (laws.server.set_gauge _ _ _)
          (λ _. >>=-Keeps _ _ (laws.server.set_gauge _ _ _) (λ _. laws.server.set_gauge _ _ _)))
        (λ _.
          >>=-Keeps _ _ (>>=-Keeps _ _ (laws.server.get_dns_endpoint _) (λ _. pure-Keeps _)) (λ _.
            >>=-Keeps _ _ (laws.server.set_gauge _ _ _) (λ _. laws.server.update_gslb_status _))))

  -- The annotations of the strategy leave the name and the namespace.
  pub annotated-key : (g : Gslb) → key_of (annotated client g) ≡ key_of g.meta
  unfolding annotated
  annotated-key g = elim (Bool-cases (g.spec.strategy.primary_geo_tag == "")) [
    | inl e ↦ rw e (laws.server.set_annotation g.meta _ _)
    | inr e ↦ rw e (laws.server.set_annotation _ _ _ ∙ laws.server.set_annotation g.meta _ _)
  ]

  -- The records of a Gslb have its name and namespace.
  pub gslb_dns_endpoint-key :
      (visit : Dict String → Dict String) (config : Config) (g : Gslb) (w : W) {d : DnsEndpoint}
      → (gslb_dns_endpoint visit client config provider g w).0 ≡ ok d
      → key_of d.meta ≡ key_of g.meta
  unfolding gslb_dns_endpoint
  gslb_dns_endpoint-key visit config g w e =
      let run = run-eq-ok (gslb_dns_endpoint visit client config provider g) w e in
      let (health, _, h1) = >>=-eq-ok (get_service_health_status client g) _ w run in
      let (local, _, h2) = >>=-eq-ok (provider.gslb_ingress_exposed_ips g) _ _ h1 in
      let (hosts, _, h3) =
        >>=-eq-ok (hosts_loop visit client config provider g.spec.strategy local (visit health) [])
          _ _ h2 in
      let (meta, owned, h4) =
        >>=-eq-ok (lift (client.set_controller_reference g.meta (record_set_meta g))) _ _ h3 in
      ap (λ d. key_of d.meta) (sym (pure-eq-ok _ _ h4)) ∙ laws.server.set_owner _ _ owned
