-- ===== src/Start/Order.antt =====
-- Lemmas on the order of the operator's start (main.go).
use k8gb.Prelude.{String, ◌≡◌, true, inl, inr, refl, sym, ap, ◌∙◌, arith, Option, none, some}
use k8gb.Prelude.Dict.{Dict}
use k8gb.Effect.{Error, Outcome, ok, Run}
use k8gb.Effect.Laws.{>>=-eq-ok, handle-eq-ok, pure-eq-ok, raise-ne-ok, run-eq-ok}
use k8gb.Cluster.{Client, DnsClient}
use k8gb.Depresolver.{Config, DependencyResolver, new_dependency_resolver}
use k8gb.Depresolver.Resolve.{recognized, resolve_operator_config, resolved_config}
use k8gb.Depresolver.Validation.{validate_config}
use k8gb.Dns.Factory.{provider}
use k8gb.Dns.Infoblox.{InfobloxClient}
use k8gb.Metrics.Registry.{
  PrometheusMetrics, new_prometheus_metrics, register, register_both, unregister,
}
use k8gb.Start.{
  start_if_valid, Exit, GslbReconciler, Runtime, main, manage, register_metrics,
  new_dns_provider_factory, no_error, or_exit, run_with, serve,
}

module _ {W : Type 0} where
  exit-ne-returned :
      {w w' : W} → ◌≡◌ {A = Outcome Exit × W} (ok (Exit.exited 1), w) (ok Exit.returned, w') → ⊥
  exit-ne-returned h = ground arith

  -- A call before `main` returned had no error.
  or_exit-returned :
      {A : Type 0} (m : Run W A) (f : A → Run W Exit) (w : W) {w' : W}
      → or_exit m f w ≡ (ok Exit.returned, w')
      → (a : A) × ((m w).0 ≡ ok a) × (f a (m w).1 ≡ (ok Exit.returned, w'))
  or_exit-returned m f w h = elim (handle-eq-ok m f _ w h) [
    | inl r ↦ r
    | inr (e, _, h') ↦ absurd (exit-ne-returned h')
  ]

  no_error-ok :
      {A : Type 0} (a : A) (e : Option Error) (w : W) {b : A} {w' : W}
      → no_error a e w ≡ (ok b, w')
      → (e ≡ none) × (a ≡ b) × (w ≡ w')
  no_error-ok a none w h = (refl, pure-eq-ok a w h, ap (λ r. r.1) h)
  no_error-ok a (some e) w h = absurd (raise-ne-ok e w h)

  registered :
      (runtime : Runtime W) (m : PrometheusMetrics) (w : W) {w' : W}
      → register_both runtime.registry m w ≡ (ok none, w')
      → (u : W) × (runtime.registry.register m.healthy_records_metric w ≡ (ok tt, u))
        × (runtime.registry.register m.ingress_hosts_per_status_metric u ≡ (ok tt, w'))
  unfolding register_both
  registered runtime m w h =
      elim (handle-eq-ok (runtime.registry.register m.healthy_records_metric) _ _ w h) [
        | inl (_, e, h1) ↦
            elim (handle-eq-ok (runtime.registry.register m.ingress_hosts_per_status_metric) _ _ _
              h1) [
                | inl (_, e2, h2) ↦ (
                  (runtime.registry.register m.healthy_records_metric w).1,
                  run-eq-ok (runtime.registry.register m.healthy_records_metric) w e,
                  run-eq-ok (runtime.registry.register m.ingress_hosts_per_status_metric) _ e2
                      ∙ ap (λ v. (ok tt, v)) (ap (λ r. r.1) h2),
                )
                | inr (_, _, h2) ↦ absurd (ground (arith, h2))
              ]
        | inr (_, _, h1) ↦ absurd (ground (arith, h1))
      ]

  module _ (visit : Dict String → Dict String) (infoblox : InfobloxClient W) (dns : DnsClient W)
      (runtime : Runtime W) where
    abbrev pub metrics_of : Config → PrometheusMetrics
    metrics_of config = record (new_prometheus_metrics config) { once = true }

    abbrev pub reconciler_of : DependencyResolver → Config → Client W → GslbReconciler W
    reconciler_of resolver config client = record {
      config = config;
      client = client;
      dep_resolver = resolver;
      dns_provider = provider visit infoblox client dns config;
      metrics = metrics_of config;
    }

    -- Both metrics are registered, then the watches, with a reconciler of this configuration and its
    -- provider, then the manager runs to its end, and last the metrics are unregistered.
    pub record Served (resolver : DependencyResolver) (config : Config) (last : W) : Type 0 where
      pub client : Client W
      pub before : W
      pub after_first : W
      pub after_both : W
      pub after_watches : W
      pub after_manager : W
      pub first :
          runtime.registry.register (metrics_of config).healthy_records_metric before
          ≡ (ok tt, after_first)
      pub second :
          runtime.registry.register (metrics_of config).ingress_hosts_per_status_metric after_first
          ≡ (ok tt, after_both)
      pub watches :
          runtime.complete (reconciler_of resolver config client) after_both
          ≡ (ok tt, after_watches)
      pub manager : runtime.start after_watches ≡ (ok tt, after_manager)
      pub ended : last ≡ unregister runtime.registry (metrics_of config) after_manager

    factory-ok :
        (config : Config) (got : Option (Client W)) (w : W) {client : Client W} {c : Config}
        → (new_dns_provider_factory got config w).0 ≡ ok (client, c)
        → (c ≡ config) × ((new_dns_provider_factory got config w).1 ≡ w)
    unfolding new_dns_provider_factory
    factory-ok config none w h = absurd (ground (arith, h))
    factory-ok config (some client) w h = (ground (arith, h), refl)

    registration :
        (config : Config) (w : W) {m : PrometheusMetrics} {w' : W}
        → register_metrics visit infoblox dns runtime config w ≡ (ok m, w')
        → (m ≡ metrics_of config)
          × (register_both runtime.registry (new_prometheus_metrics config) w ≡ (ok none, w'))
    unfolding register_metrics register new_prometheus_metrics
    registration config w h =
        let ((m, e), e1, h1) =
          >>=-eq-ok (register runtime.registry (new_prometheus_metrics config)) _ w h in
        let (e', e2, h2) =
          >>=-eq-ok (register_both runtime.registry (new_prometheus_metrics config)) _ w
            (run-eq-ok (register runtime.registry (new_prometheus_metrics config)) w e1) in
        let (n, s, l) = no_error-ok m e _ h1 in
        let pair = pure-eq-ok _ _ h2 in
        (
          sym s ∙ sym (ap (λ p. p.0) pair),
          run-eq-ok (register_both runtime.registry (new_prometheus_metrics config)) w
                (e2 ∙ ap ok (ap (λ p. p.1) pair ∙ n))
              ∙ ap (λ v. (ok none, v)) (ap (λ r. r.1) h2 ∙ l),
        )

    manage-returned :
        (r : GslbReconciler W) (w : W) {w' : W}
        → manage visit infoblox dns runtime r w ≡ (ok Exit.returned, w')
        → (u : W) × (v : W) × (runtime.complete r w ≡ (ok tt, u))
          × (runtime.start u ≡ (ok tt, v))
          × (w' ≡ unregister runtime.registry r.metrics v)
    unfolding manage
    manage-returned r w h =
        let (_, e1, h1) = or_exit-returned (runtime.complete r) _ w h in
        let (_, e2, h2) = or_exit-returned runtime.start _ _ h1 in
        (
          _,
          _,
          run-eq-ok (runtime.complete r) w e1,
          run-eq-ok runtime.start _ e2,
          sym (ap (λ x. x.1) h2),
        )

    served :
        (resolver : DependencyResolver) (config c : Config) (client : Client W)
        (m : PrometheusMetrics) (w u : W) {w' : W}
        → c ≡ config
        → m ≡ metrics_of config
        → register_both runtime.registry (new_prometheus_metrics config) w ≡ (ok none, u)
        → manage visit infoblox dns runtime
            (record (reconciler_of resolver config client) {
              dns_provider = provider visit infoblox client dns c;
              metrics = m;
            })
            u
          ≡ (ok Exit.returned, w')
        → Served resolver config w'
    served resolver config c client m w u same made both h =
        let (a, r1, r2) = registered runtime (new_prometheus_metrics config) w both in
        let (b, d, r3, r4, r5) =
          manage-returned (reconciler_of resolver config client) u (rw (same, made) at h) in
        record {
          client = client;
          before = w;
          after_first = a;
          after_both = u;
          after_watches = b;
          after_manager = d;
          first = r1;
          second = r2;
          watches = r3;
          manager = r4;
          ended = r5;
        }

    serve-Served :
        (resolver : DependencyResolver) (config : Config) (got : Option (Client W)) (w : W) {w' : W}
        → serve visit infoblox dns runtime resolver config got w ≡ (ok Exit.returned, w')
        → Served resolver config w'
    unfolding serve
    serve-Served resolver config got w h =
        let (f, e1, h1) = or_exit-returned (new_dns_provider_factory got config) _ w h in
        let (m, e2, h2) =
          or_exit-returned (register_metrics visit infoblox dns runtime config) _ _ h1 in
        let (s, both) =
          registration config _
            (run-eq-ok (register_metrics visit infoblox dns runtime config) _ e2) in
        served resolver config f.1 f.0 m _ _ (factory-ok config got w e1).0 s both h2

    run_with-Served :
        (resolver : DependencyResolver) (config : Config) (w : W) {w' : W}
        → run_with visit infoblox dns runtime resolver config w ≡ (ok Exit.returned, w')
        → Served resolver config w'
    unfolding run_with
    run_with-Served resolver config w h =
        let (_, _, h1) = or_exit-returned runtime.get_config_or_die _ w h in
        let (_, _, h2) = or_exit-returned (runtime.new_manager config.metrics_address) _ _ h1 in
        let (_, _, h3) = or_exit-returned runtime.add_dns_endpoints _ _ h2 in
        serve-Served resolver config _ _ h3

    checked :
        (resolver : DependencyResolver) (config : Config) (e : Option Error) (w : W) {w' : W}
        → start_if_valid visit infoblox dns runtime resolver config e w ≡ (ok Exit.returned, w')
        → (e ≡ none) × Served resolver config w'
    unfolding start_if_valid
    checked resolver config none w h = (refl, run_with-Served resolver config _ h)
    checked resolver config (some x) w h = absurd (exit-ne-returned h)

    -- Where `main` returns, instead of exiting, the configuration that it has read is valid; both
    -- metrics were registered, then the watches, for a reconciler with that configuration and the
    -- provider that the factory picks for it, then the manager ran to its end; and last the metrics
    -- were unregistered.
    pub main-Served :
        (w : W) {w' : W}
        → main visit infoblox dns runtime w ≡ (ok Exit.returned, w')
        → let config = resolved_config runtime.environment in
          (validate_config config (recognized config) ≡ none)
          × Served (resolve_operator_config runtime.environment new_dependency_resolver) config w'
    unfolding main resolve_operator_config
    main-Served w h = checked _ (resolved_config runtime.environment) _ _ h
