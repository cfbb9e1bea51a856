-- ===== src/Controller/Reconcile/Published.antt =====
-- Lemmas on the steps of `Reconcile` that publish (controllers/gslb_controller.go).
use k8gb.Prelude.{◌≡◌, ◌⊎◌, inl, inr, sym, ap, ◌∙◌, String}
use k8gb.Prelude.Dict.{Dict}
use k8gb.Effect.{Error, err, ok, handle, pure, ◌>>=◌}
use k8gb.Effect.Laws.{>>=-eq-ok, handle-eq-ok, pure-eq-ok, run-eq-ok}
use k8gb.Api.{Gslb}
use k8gb.Cluster.{Client, DnsEndpoint, Gauges, Ingress}
use k8gb.Controller.Endpoint.{gslb_dns_endpoint}
use k8gb.Controller.Endpoint.Records.{AreFound, gslb_dns_endpoint-AreFound}
use k8gb.Controller.Ingress.{annotated, gslb_ingress, save_ingress}
use k8gb.Controller.Reconcile.{publish}
use k8gb.Controller.Status.{update_gslb_status}
use k8gb.Depresolver.{Config}
use k8gb.Dns.{Provider}
use k8gb.Utils.Result.{Result, requeue}

module _ {W : Type 0} (visit : Dict String → Dict String) (client : Client W) where
  module _ (gauges : Gauges W) (config : Config) (provider : Provider W) where
    -- The last steps: the delegation failed, or it was made and the status updated after it.
    abbrev pub Concluded : Gslb → W → W → Type 0
    Concluded gslb w w' =
        ((e : Error) × (provider.create_zone_delegation gslb w ≡ (err e, w')))
        ⊎ ((delegated : W) × (stored : Gslb) × (provider.create_zone_delegation gslb w
              ≡ (ok tt, delegated))
            × (update_gslb_status client gauges config gslb delegated ≡ (ok stored, w')))

    -- All steps, each from the world that the step before it has left, for the Gslb with its
    -- annotations.
    abbrev pub IsPublication : Gslb → W → W → Type 0
    IsPublication gslb w w' =
        (ingress : Ingress) × (records : DnsEndpoint) × (read : W) × (exposed : W) × (made : W)
        × (saved : W) × (gslb_ingress client gslb w ≡ (ok ingress, read))
        × (save_ingress client (record gslb { meta = annotated client gslb }) ingress read
            ≡ (ok tt, exposed))
        × (gslb_dns_endpoint visit client config provider
              (record gslb { meta = annotated client gslb }) exposed
            ≡ (ok records, made))
        × AreFound visit client config provider (record gslb { meta = annotated client gslb })
            exposed records.endpoints
        × (provider.save_dns_endpoint (record gslb { meta = annotated client gslb }) records made
            ≡ (ok tt, saved))
        × Concluded (record gslb { meta = annotated client gslb }) saved w'

    conclude :
        (handler : Result) (gslb : Gslb) (w : W) {r : Result} {w' : W}
        → handle
            (provider.create_zone_delegation gslb)
            (λ _. update_gslb_status client gauges config gslb >>= λ _. pure (requeue handler))
            (λ _. pure (requeue handler))
            w
          ≡ (ok r, w')
        → (r ≡ handler) × Concluded gslb w w'
    unfolding requeue
    conclude handler gslb w h = elim (handle-eq-ok (provider.create_zone_delegation gslb) _ _ w h) [
      | inl (_, e, h1) ↦
          (let update = update_gslb_status client gauges config gslb in
            let delegated = (provider.create_zone_delegation gslb w).1 in
            let (stored, e1, h2) = >>=-eq-ok update _ delegated h1 in
            (
              sym (pure-eq-ok _ _ h2),
              inr (
                delegated,
                stored,
                run-eq-ok (provider.create_zone_delegation gslb) w e,
                run-eq-ok update delegated e1 ∙ ap (λ q. (ok stored, q.1)) h2,
              ),
            ))
      | inr (x, e, h1) ↦ (sym (pure-eq-ok _ _ h1), inl (x, λ i. (e i, (h1 i).1)))
    ]

    -- If `publish` succeeds, then it asks for the delayed reconciliation, and each of its steps has
    -- been taken from the world that the step before it left: the Ingress was made and saved; the
    -- records were made, which are those of the hosts that were found; these records were given to
    -- the provider, which saved them; and either the delegation of the zone failed then, or it
    -- succeeded and the status was updated.
    pub publish-IsPublication :
        (handler : Result) (gslb : Gslb) (w : W) {r : Result} {w' : W}
        → publish visit client gauges config provider handler gslb w ≡ (ok r, w')
        → (r ≡ handler) × IsPublication gslb w w'
    unfolding publish
    publish-IsPublication handler gslb w h =
        let gslb' = record gslb { meta = annotated client gslb } in
        let making = gslb_ingress client gslb in
        let (ingress, e1, h1) = >>=-eq-ok making _ w h in
        let read = (making w).1 in
        let saving = save_ingress client gslb' ingress in
        let (_, e2, h2) = >>=-eq-ok saving _ read h1 in
        let exposed = (saving read).1 in
        let listing = gslb_dns_endpoint visit client config provider gslb' in
        let (records, e3, h3) = >>=-eq-ok listing _ exposed h2 in
        let made = (listing exposed).1 in
        let keeping = provider.save_dns_endpoint gslb' records in
        let (_, e4, h4) = >>=-eq-ok keeping _ made h3 in
        let listed = run-eq-ok listing exposed e3 in
        let (told, concluded) = conclude handler gslb' (keeping made).1 h4 in
        (
          told,
          (
            ingress,
            records,
            read,
            exposed,
            made,
            (keeping made).1,
            run-eq-ok making w e1,
            run-eq-ok saving read e2,
            listed,
            gslb_dns_endpoint-AreFound visit client config provider gslb' exposed listed,
            run-eq-ok keeping made e4,
            concluded,
          ),
        )
