-- ===== src/Controller/Reconcile/Verdict.antt =====
-- Lemmas on the results of `reconcile` (controllers/gslb_controller.go).
use k8gb.Prelude.{
  ◌≡◌, ◌≢◌, ◌⊎◌, inl, inr, refl, sym, ap, ◌∙◌, arith, String, true, false, none, some, [],
  Bool-cases, Option-cases,
}
use k8gb.Prelude.Dict.{Dict}
use k8gb.Prelude.Int.{pos, seconds}
use k8gb.Effect.{Error, ok, err, is_not_found, errorf}
use k8gb.Effect.Laws.{
  if-eq-err, if-eq-ok, >>=-eq-err, >>=-eq-ok, handle-eq-ok, pure-eq-ok, run-eq-ok,
}
use k8gb.Api.{Gslb, ObjectKey}
use k8gb.Cluster.{Client, Gauges}
use k8gb.Controller.Reconcile.{
  delete_gslb, ensure_finalizer, proceed, publish, reconcile, reconcile_gslb,
}
use k8gb.Controller.Reconcile.Published.{IsPublication, publish-IsPublication}
use k8gb.Depresolver.{Config, DependencyResolver}
use k8gb.Depresolver.Spec.{Resolved, resolve_gslb_spec}
use k8gb.Dns.{Provider}
use k8gb.Utils.Result.{Result, new_reconcile_result_handler, requeue_error, stop}

-- What controller-runtime is told: nothing more to do, a repetition after the configured delay, or
-- an error.
abbrev pub told_nothing : Result
told_nothing = record { requeue = false; requeue_after = pos 0; error = none }

abbrev pub told_delay : Config → Result
told_delay config = record told_nothing { requeue_after = seconds config.reconcile_requeue_seconds }

abbrev pub told_error : Error → Result
told_error e = record told_nothing { error = some e }

is_not_found-eq : (e : Error) → is_not_found e ≡ true → e ≡ Error.not_found
is_not_found-eq Error.not_found h = refl
is_not_found-eq Error.conflict h = absurd (ground arith)
is_not_found-eq Error.resource_expired h = absurd (ground arith)
is_not_found-eq (Error.errorf f a) h = absurd (ground arith)
is_not_found-eq (Error.external s) h = absurd (ground arith)

module _ {W : Type 0} (visit : Dict String → Dict String) (client : Client W) where
  module _ (gauges : Gauges W) (config : Config) (provider : Provider W) where
    -- The Gslb was being deleted, and is finalized.
    abbrev pub WasDeleted : Gslb → W → W → Type 0
    WasDeleted gslb w w' =
        (gslb.meta.marked_for_deletion ≡ true)
        × (g : Gslb) × (delete_gslb client provider gslb w ≡ (ok g, w'))

    -- The Gslb lives, has its finalizer, and is published.
    abbrev pub WasPublished : Gslb → W → W → Type 0
    WasPublished gslb w w' =
        (gslb.meta.marked_for_deletion ≡ false)
        × (g : Gslb) × (ready : W) × (ensure_finalizer client provider gslb w ≡ (ok g, ready))
        × IsPublication visit client gauges config provider g ready w'

    -- A step has failed with the error: the deletion, or the finalizer, or the publication.
    abbrev pub HasFailed : Gslb → W → Error → W → Type 0
    HasFailed gslb w e w' =
        ((gslb.meta.marked_for_deletion ≡ true)
          × (delete_gslb client provider gslb w ≡ (err e, w')))
        ⊎ ((gslb.meta.marked_for_deletion ≡ false)
            × ((ensure_finalizer client provider gslb w ≡ (err e, w'))
                ⊎ ((g : Gslb) × (ready : W) × (ensure_finalizer client provider gslb w
                      ≡ (ok g, ready))
                    × (publish visit client gauges config provider (told_delay config) g ready
                        ≡ (err e, w')))))

    -- What is told after the specification was resolved.
    abbrev pub IsTold : Resolved → W → W → Result → Type 0
    IsTold resolved w w' r =
        ((x : Error) × (resolved.error ≡ some x)
          × (w ≡ w')
          × (r ≡ told_error (errorf "resolving spec (%s)" [])))
        ⊎ ((resolved.error ≡ none)
            × ((WasDeleted resolved.gslb w w' × (r ≡ told_nothing))
                ⊎ ((WasPublished resolved.gslb w w' × (r ≡ told_delay config))
                    ⊎ ((e : Error) × HasFailed resolved.gslb w e w' × (r ≡ told_error e)))))

    -- What a reconciliation did, and what it tells.
    abbrev pub IsVerdict :
        DependencyResolver → ObjectKey → W → DependencyResolver → Result → W → Type 0
    IsVerdict resolver key w after r w' =
        ((client.get_gslb key w ≡ (err Error.not_found, w'))
          × (after ≡ resolver)
          × (r ≡ told_nothing))
        ⊎ (((e : Error) × (e ≢ Error.not_found)
              × (client.get_gslb key w ≡ (err e, w'))
              × (after ≡ resolver)
              × (r ≡ told_error (errorf "error reading the object (%s)" [])))
            ⊎ ((gslb : Gslb) × (read : W) × (resolved : Resolved) × (settled : W) × (client.get_gslb
                    key w
                  ≡ (ok gslb, read))
                × (resolve_gslb_spec resolver gslb (some client) read ≡ (ok resolved, settled))
                × (after ≡ resolved.resolver)
                × IsTold resolved settled w' r))

    reconcile_gslb-eq-ok :
        (gslb : Gslb) (w : W) {r : Result} {w' : W}
        → reconcile_gslb visit client gauges config provider (told_delay config) gslb w ≡ (ok r, w')
        → (WasDeleted gslb w w' × (r ≡ told_nothing))
          ⊎ (WasPublished gslb w w' × (r ≡ told_delay config))
    unfolding reconcile_gslb stop
    reconcile_gslb-eq-ok gslb w h = elim (if-eq-ok gslb.meta.marked_for_deletion _ _ w h) [
      | inl (marked, h0) ↦
          (let deletion = delete_gslb client provider gslb in
            let (g, e, h1) = >>=-eq-ok deletion _ w h0 in
            inl (
              (marked, g, run-eq-ok deletion w e ∙ ap (λ q. (ok g, q.1)) h1),
              sym (pure-eq-ok _ _ h1),
            ))
      | inr (alive, h0) ↦
          (let ensuring = ensure_finalizer client provider gslb in
            let (g, e, h1) = >>=-eq-ok ensuring _ w h0 in
            let (told, published) =
              publish-IsPublication visit client gauges config provider (told_delay config) g _
                h1 in
            inr ((alive, g, (ensuring w).1, run-eq-ok ensuring w e, published), told))
    ]

    reconcile_gslb-eq-err :
        (gslb : Gslb) (w : W) {e : Error} {w' : W}
        → reconcile_gslb visit client gauges config provider (told_delay config) gslb w
          ≡ (err e, w')
        → HasFailed gslb w e w'
    unfolding reconcile_gslb stop
    reconcile_gslb-eq-err gslb w h = elim (if-eq-err gslb.meta.marked_for_deletion _ _ w h) [
      | inl (marked, h0) ↦ elim (>>=-eq-err (delete_gslb client provider gslb) _ w h0) [
        | inl failed ↦ inl (marked, failed)
        | inr (_, _, _, never) ↦ absurd (ground arith)
      ]
      | inr (alive, h0) ↦ inr (
        alive,
        elim (>>=-eq-err (ensure_finalizer client provider gslb) _ w h0) [
          | inl failed ↦ inl failed
          | inr (g, ready, ensured, failed) ↦ inr (g, ready, ensured, failed)
        ],
      )
    ]

    proceed-IsTold :
        (resolved : Resolved) (w : W) {r : Result} {w' : W}
        → proceed visit client gauges config provider (told_delay config) resolved w ≡ (ok r, w')
        → IsTold resolved w w' r
    unfolding proceed requeue_error
    proceed-IsTold resolved w h = elim (Option-cases resolved.error) [
      | inr (x, e) ↦ (let h1 = rw e at h in inl (x, e, ap (λ q. q.1) h1, sym (pure-eq-ok _ w h1)))
      | inl e ↦
          (let run =
              reconcile_gslb visit client gauges config provider (told_delay config)
                resolved.gslb in
            elim (handle-eq-ok run _ _ w (rw e at h)) [
              | inl (r', e1, h1) ↦
                  elim (reconcile_gslb-eq-ok resolved.gslb w (run-eq-ok run w e1 ∙ h1)) [
                    | inl deleted ↦ inr (e, inl deleted)
                    | inr published ↦ inr (e, inr (inl published))
                  ]
              | inr (f, e1, h1) ↦ inr (
                e,
                inr (
                    inr (
                      f,
                      reconcile_gslb-eq-err resolved.gslb w (λ i. (e1 i, (h1 i).1)),
                      sym (pure-eq-ok _ _ h1),
                    )),
              )
            ])
    ]

    -- A reconciliation that returns has gone one of these ways. If the Gslb does not exist, it is not
    -- repeated. If the Gslb could not be read, its specification was not resolved, or a step failed,
    -- then an error is reported, which for a failed step is the step's: of a Gslb that is marked for
    -- deletion the deletion, and else the finalizer or the publication. If the Gslb is marked and was
    -- finalized, it is not repeated. Else the Gslb is not marked, its finalizer was seen to, and all
    -- steps of a publication were taken in their order, the last being the status or a delegation that
    -- failed: it is repeated after the configured delay. Each step was taken from the world that the
    -- step before it left.
    pub reconcile-IsVerdict :
        (resolver : DependencyResolver) (key : ObjectKey) (w : W) {after : DependencyResolver}
        {r : Result} {w' : W}
        → reconcile visit client gauges config provider resolver key w ≡ (ok (after, r), w')
        → IsVerdict resolver key w after r w'
    unfolding reconcile new_reconcile_result_handler stop requeue_error
    reconcile-IsVerdict resolver key w h = elim (handle-eq-ok (client.get_gslb key) _ _ w h) [
      | inl (gslb, e, h1) ↦
          (let resolving = resolve_gslb_spec resolver gslb (some client) in
            let read = (client.get_gslb key w).1 in
            let (resolved, e2, h2) = >>=-eq-ok resolving _ read h1 in
            let settled = (resolving read).1 in
            let going = proceed visit client gauges config provider (told_delay config) resolved in
            let (result, e3, h3) = >>=-eq-ok going _ settled h2 in
            let pair = pure-eq-ok _ _ h3 in
            inr (
              inr (
                gslb,
                read,
                resolved,
                settled,
                run-eq-ok (client.get_gslb key) w e,
                run-eq-ok resolving read e2,
                sym (ap (λ p. p.0) pair),
                proceed-IsTold resolved settled
                    (run-eq-ok going settled e3 ∙ (λ i. (ok (pair i).1, (h3 i).1))),
              )))
      | inr (e, e1, h1) ↦ elim (Bool-cases (is_not_found e)) [
        | inl n ↦
            (let pair = pure-eq-ok _ _ (rw n at h1) in
              let missing = e1 ∙ ap (λ x. err x) (is_not_found-eq e n) in
              inl
                ((λ i. (missing i, (h1 i).1)), sym (ap (λ p. p.0) pair), sym (ap (λ p. p.1) pair)))
        | inr n ↦
            (let pair = pure-eq-ok _ _ (rw n at h1) in
              inr (
                inl (
                  e,
                  λ m. ground (arith, n, m),
                  λ i. (e1 i, (h1 i).1),
                  sym (ap (λ p. p.0) pair),
                  sym (ap (λ p. p.1) pair),
                )))
      ]
    ]
