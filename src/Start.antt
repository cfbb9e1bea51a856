-- ===== src/Start.antt =====
-- main.go: the start of the operator. What it calls outside the repository (controller-runtime's
-- manager, the scheme, the environment, the registry) are actions on a world. Log lines are left
-- out, but for those of `logging.Init`.
pub mod Order
use k8gb.Prelude.{ℕ, String, Bool, true, false, Option, none, some, List, [], ◌∷◌}
use k8gb.Prelude.Dict.{Dict}
use k8gb.Effect.{Error, errorf, ok, Run, pure, raise, crash, handle, ◌>>=◌, ◌>>◌}
use k8gb.Cluster.{Client, DnsClient}
use k8gb.Depresolver.{Config, DependencyResolver, new_dependency_resolver}
use k8gb.Depresolver.Resolve.{Environment, resolve_operator_config}
use k8gb.Dns.{Provider}
use k8gb.Dns.Factory.{provider}
use k8gb.Dns.Infoblox.{InfobloxClient}
use k8gb.Logging.{Event, LogrAdapter, fresh_singleton, init, new_logr_adapter}
use k8gb.Metrics.Registry.{
  PrometheusMetrics, Registry, new_prometheus_metrics, register, unregister,
}

-- The reconciler that is built up before it is given to the manager. Its `Config` and its
-- `DepResolver` are those of the start.
pub record GslbReconciler (W : Type 0) : Type 0 where
  pub config : Config
  pub client : Client W
  pub dep_resolver : DependencyResolver
  pub dns_provider : Provider W
  pub metrics : PrometheusMetrics

-- `get_config_or_die` reads the cluster's configuration, and exits where it cannot. `new_manager`
-- takes the address of the metrics; `get_client` is the client of its manager, which may be nil.
-- `add_dns_endpoints` adds external-dns' types to its scheme, `complete` registers the watches, and
-- `start` runs the manager until it is stopped.
pub record Runtime (W : Type 0) : Type 0 where
  pub environment : Environment
  pub write : Event → W → W
  pub set_logger : LogrAdapter → W → W
  pub get_config_or_die : Run W (Unit {0})
  pub new_manager : String → Run W (Unit {0})
  pub get_client : W → Option (Client W) × W
  pub add_dns_endpoints : Run W (Unit {0})
  pub registry : Registry W
  pub complete : GslbReconciler W → Run W (Unit {0})
  pub start : Run W (Unit {0})

-- How the process ends: `main` returns, or calls `os.Exit`.
pub data Exit : Type 0 where
  returned : Exit
  exited : ℕ → Exit

module _ {W : Type 0} where
  -- `NewDNSProviderFactory`: a nil client is an error.
  unfoldable pub new_dns_provider_factory : Option (Client W) → Config → Run W (Client W × Config)
  new_dns_provider_factory none config = raise (errorf "nil client" [])
  new_dns_provider_factory (some client) config = pure (client, config)

  -- `if err != nil { log.Err(err)…; os.Exit(1) }` after a call
  abbrev pub or_exit : {A : Type 0} → Run W A → (A → Run W Exit) → Run W Exit
  or_exit m f = handle m f (λ e. pure (exited 1))

  -- A call that returns no error.
  abbrev pub act : (W → W) → Run W (Unit {0})
  act f w = (ok tt, f w)

  abbrev pub ask : {A : Type 0} → (W → A × W) → Run W A
  ask f w = (ok (f w).0, (f w).1)

  abbrev pub no_error : {A : Type 0} → A → Option Error → Run W A
  no_error a none = pure a
  no_error a (some e) = raise e

  module _ (visit : Dict String → Dict String) (infoblox : InfobloxClient W) (dns : DnsClient W)
      (runtime : Runtime W) where
    unfoldable pub write_all : List Event → W → W
    write_all [] w = w
    write_all (e ∷ es) w = write_all es (runtime.write e w)

    -- From the watches on.
    unfoldable pub manage : GslbReconciler W → Run W Exit
    unfolding unregister
    manage reconciler = or_exit (runtime.complete reconciler) (λ _.
        or_exit runtime.start
          (λ _. do act (unregister runtime.registry reconciler.metrics); pure returned))

    unfoldable pub register_metrics : Config → Run W PrometheusMetrics
    unfolding new_prometheus_metrics register
    register_metrics config = do
      (m, e) ← register runtime.registry (new_prometheus_metrics config)
      no_error m e

    -- From the client on.
    unfoldable pub serve : DependencyResolver → Config → Option (Client W) → Run W Exit
    unfolding new_dns_provider_factory provider register_metrics manage
    serve resolver config got = or_exit (new_dns_provider_factory got config) (λ (client, c).
        or_exit (register_metrics config) (λ m. manage (record {
          config = config;
          client = client;
          dep_resolver = resolver;
          dns_provider = provider visit infoblox client dns c;
          metrics = m;
        })))

    unfoldable pub run_with : DependencyResolver → Config → Run W Exit
    unfolding serve
    run_with resolver config = or_exit runtime.get_config_or_die (λ _.
        or_exit (runtime.new_manager config.metrics_address) (λ _.
          or_exit runtime.add_dns_endpoints
            (λ _. do got ← ask runtime.get_client; serve resolver config got)))

    -- After the configuration was read, with its error.
    unfoldable pub start_if_valid : DependencyResolver → Config → Option Error → Run W Exit
    unfolding run_with init new_logr_adapter
    start_if_valid resolver config (some e) = pure (exited 1)
    start_if_valid resolver config none = do
      act (runtime.set_logger (new_logr_adapter (init (some config) fresh_singleton).0.log))
      run_with resolver config

    -- The resolver holds the configuration and the error of `ResolveOperatorConfig`.
    abbrev configured : DependencyResolver → Run W Exit
    configured resolver = elim resolver.config [
      | none ↦ crash
      | some config ↦ do
        act (write_all (init (some config) fresh_singleton).1)
        start_if_valid resolver config resolver.error_config
    ]

    unfoldable pub main : Run W Exit
    unfolding write_all start_if_valid init resolve_operator_config
    main = configured (resolve_operator_config runtime.environment new_dependency_resolver)
