-- ===== src/Metrics/Registry.antt =====
-- controllers/providers/metrics/prometheus.go: the registration of the two metrics. Prometheus'
-- registry is a record of actions.
use k8gb.Prelude.{String, Bool, true, false, Option, none, some, List, [], ◌∷◌}
use k8gb.Effect.{Error, errorf, Run, pure, handle, ◌>>=◌}
use k8gb.Depresolver.{Config}

-- The options of a gauge, and the names of its labels.
pub record GaugeVec : Type 0 where
  pub namespace : String
  pub subsystem : String
  pub name : String
  pub help : String
  pub labels : List String

pub record Registry (W : Type 0) : Type 0 where
  pub register : GaugeVec → Run W (Unit {0})
  pub unregister : GaugeVec → W → Bool × W

pub record PrometheusMetrics : Type 0 where
  pub healthy_records_metric : GaugeVec
  pub ingress_hosts_per_status_metric : GaugeVec
  pub once : Bool

unfoldable pub new_prometheus_metrics : Config → PrometheusMetrics
new_prometheus_metrics config = record {
  healthy_records_metric = record {
    namespace = config.k8gb_namespace;
    subsystem = "gslb";
    name = "healthy_records";
    help = "Number of healthy records observed by K8GB.";
    labels = "namespace" ∷ "name" ∷ [];
  };
  ingress_hosts_per_status_metric = record {
    namespace = config.k8gb_namespace;
    subsystem = "gslb";
    name = "ingress_hosts_per_status";
    help = "Number of managed hosts observed by K8GB.";
    labels = "namespace" ∷ "name" ∷ "status" ∷ [];
  };
  once = false;
}

module _ {W : Type 0} (registry : Registry W) where
  abbrev register_error : Error
  register_error = errorf "can't register prometheus metrics: %s" []

  -- What `once.Do` runs: the error, if there is one.
  unfoldable pub register_both : PrometheusMetrics → Run W (Option Error)
  register_both m =
      handle (registry.register m.healthy_records_metric)
        (λ _.
          handle (registry.register m.ingress_hosts_per_status_metric) (λ _. pure none)
            (λ e. pure (some register_error)))
        (λ e. pure (some register_error))

  -- The metrics that the call leaves, and its error.
  unfoldable pub register : PrometheusMetrics → Run W (PrometheusMetrics × Option Error)
  unfolding register_both
  register m = elim m.once [
    | true ↦ pure (m, none)
    | false ↦ do e ← register_both m; pure (record m { once = true }, e)
  ]

  unfoldable pub unregister : PrometheusMetrics → W → W
  unregister m w =
      (registry.unregister m.ingress_hosts_per_status_metric
        (registry.unregister m.healthy_records_metric w).1).1
