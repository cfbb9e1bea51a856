-- ===== src/Metrics/Shown.antt =====
-- Gauges that keep what they are set to, and what the updates of controllers/providers/metrics leave
-- in them.
use k8gb.Prelude.{
  ℕ, ◌≡◌, ◌≢◌, sym, ap, ◌∙◌, arith, eq_iff, some, String, Option, List, [], ◌∷◌, ◌==◌,
}
use native.Mathlib.Nat.{zero-add}
use k8gb.Prelude.Dict.{Dict}
use k8gb.Effect.{Run, ok}
use k8gb.Effect.Laws.{>>=-eq-ok}
use k8gb.Api.{Gslb}
use k8gb.Cluster.{Gauges}
use k8gb.Metrics.{
  count_hosts, count_records, update_healthy_records_metric, update_ingress_hosts_per_status_metric,
}
use k8gb.Metrics.Laws.{count_hosts_lem, count_records_lem, hosts_with, total, unknown}

-- Prometheus keeps one value for a metric and its labels.
pub record GaugeStore {W : Type 0} (gauges : Gauges W) : Type 0 where
  pub value : String → Dict String → W → Option ℕ
  pub set_own :
      (name : String) (labels : Dict String) (n : ℕ) (w : W)
      → value name labels (gauges.set_gauge name labels n w).1 ≡ some n
  pub set_other :
      (name name' : String) (labels labels' : Dict String) (n : ℕ) (w : W)
      → ◌≢◌ {A = String × Dict String} (name, labels) (name', labels')
      → value name' labels' (gauges.set_gauge name labels n w).1 ≡ value name' labels' w

abbrev pub gslb_labels : Gslb → Dict String → Dict String
gslb_labels gslb rest = ("namespace", gslb.meta.namespace) ∷ ("name", gslb.meta.name) ∷ rest

abbrev pub hosts_metric : String
hosts_metric = "ingress_hosts_per_status"

abbrev pub records_metric : String
records_metric = "healthy_records"

module _ {W : Type 0} {gauges : Gauges W} (store : GaugeStore gauges) (gslb : Gslb) where
  abbrev pub hosts_shown : String → W → Option ℕ
  hosts_shown status = store.value hosts_metric (gslb_labels gslb (("status", status) ∷ []))

  abbrev pub records_shown : W → Option ℕ
  records_shown = store.value records_metric (gslb_labels gslb [])

  -- The gauges show the numbers of hosts of each status.
  abbrev pub ShowsHosts : Dict String → W → Type 0
  ShowsHosts health w =
      (hosts_shown "Healthy" w ≡ some (hosts_with (λ s. s == "Healthy") health))
      × (hosts_shown "Unhealthy" w ≡ some (hosts_with (λ s. s == "Unhealthy") health))
      × (hosts_shown "NotFound" w ≡ some (hosts_with unknown health))

  status_apart :
      (a b : String) (n : ℕ) (w : W)
      → a ≢ b
      → hosts_shown b (gauges.set_gauge hosts_metric (gslb_labels gslb (("status", a) ∷ [])) n w).1
        ≡ hosts_shown b w
  status_apart a b n w d =
      store.set_other hosts_metric hosts_metric (gslb_labels gslb (("status", a) ∷ []))
        (gslb_labels gslb (("status", b) ∷ [])) n w (λ e. d cc)

  pub update_hosts-ShowsHosts :
      (health : Dict String) (w : W) {w' : W}
      → update_ingress_hosts_per_status_metric gauges gslb health w ≡ (ok tt, w')
      → ShowsHosts health w'
  unfolding update_ingress_hosts_per_status_metric
  update_hosts-ShowsHosts health w {w'} h =
      let counts = count_hosts health (record { healthy = 0; unhealthy = 0; not_found = 0 }) in
      let set : String → ℕ → Run W (Unit {0}) =
        λ status n. gauges.set_gauge hosts_metric (gslb_labels gslb (("status", status) ∷ [])) n in
      let (_, e1, h1) = >>=-eq-ok (set "Healthy" counts.healthy) _ w h in
      let w1 = (set "Healthy" counts.healthy w).1 in
      let (_, e2, h2) = >>=-eq-ok (set "Unhealthy" counts.unhealthy) _ w1 h1 in
      let w2 = (set "Unhealthy" counts.unhealthy w1).1 in
      let last = ap (λ r. r.1) h2 in
      let (ch, cu, cn, _) =
        count_hosts_lem health (record { healthy = 0; unhealthy = 0; not_found = 0 }) in
      let labels : String → Dict String = λ status. gslb_labels gslb (("status", status) ∷ []) in
      (
        ap (hosts_shown "Healthy") (sym last)
            ∙ status_apart "NotFound" "Healthy" counts.not_found w2
                (λ e. ground (arith, eq_iff "NotFound" "Healthy"))
            ∙ status_apart "Unhealthy" "Healthy" counts.unhealthy w1
                (λ e. ground (arith, eq_iff "Unhealthy" "Healthy"))
            ∙ store.set_own hosts_metric (labels "Healthy") counts.healthy w
            ∙ ap some (ch ∙ zero-add _),
        ap (hosts_shown "Unhealthy") (sym last)
            ∙ status_apart "NotFound" "Unhealthy" counts.not_found w2
                (λ e. ground (arith, eq_iff "NotFound" "Unhealthy"))
            ∙ store.set_own hosts_metric (labels "Unhealthy") counts.unhealthy w1
            ∙ ap some (cu ∙ zero-add _),
        ap (hosts_shown "NotFound") (sym last)
            ∙ store.set_own hosts_metric (labels "NotFound") counts.not_found w2
            ∙ ap some (cn ∙ zero-add _),
      )

  pub update_records-shown :
      (records : Dict (List String)) (w : W) {w' : W}
      → update_healthy_records_metric gauges gslb records w ≡ (ok tt, w')
      → records_shown w' ≡ some (total records)
  unfolding update_healthy_records_metric
  update_records-shown records w h =
      ap (λ r. records_shown r.1) (sym h)
      ∙ store.set_own records_metric (gslb_labels gslb []) (count_records records 0) w
      ∙ ap some (count_records_lem records 0 ∙ zero-add _)

  pub update_records-hosts_shown :
      (records : Dict (List String)) (status : String) (w : W)
      → hosts_shown status (update_healthy_records_metric gauges gslb records w).1
        ≡ hosts_shown status w
  unfolding update_healthy_records_metric
  update_records-hosts_shown records status w =
      store.set_other records_metric hosts_metric (gslb_labels gslb [])
        (gslb_labels gslb (("status", status) ∷ [])) (count_records records 0) w
        (λ e. let same = ap (λ x. x.0) e in ground (arith, eq_iff records_metric hosts_metric))
