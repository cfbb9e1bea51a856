-- ===== src/Controller/Lifecycle/Guard.antt =====
-- The contracts of the parts of a reconciliation (controllers/gslb_controller.go).
use mathlib.Core.Logic.{ite}
use k8gb.Prelude.{
  ◌≡◌, ◌∙◌, inl, inr, refl, arith, false, Option, none, some, String, List, [], ◌∷◌, ◌++◌,
  Bool-cases,
}
use k8gb.Prelude.Dict.{Dict}
use k8gb.Effect.{Error, handle, pure, ◌>>◌}
use k8gb.Effect.Hoare.{
  Triple, given-Triple, returns-Triple, handle-Triple, if-Triple, keeps-Triple, lift-Triple,
  pure-Triple, weaken-Triple, >>=-Triple,
}
use k8gb.Api.{Gslb, key_of, ObjectKey}
use k8gb.Api.Equality.{GslbSpec-discrete}
use k8gb.Cluster.{Client, DnsEndpoint, Gauges}
use k8gb.Controller.Finalizers.{
  add_finalizer, contains, gslb_finalizer, legacy_finalizer, with_finalizers,
}
use k8gb.Controller.Ingress.{annotated}
use k8gb.Controller.Lifecycle.{IsGuarded, Lawful, Observed}
use k8gb.Controller.Lifecycle.Contracts.{
  Bears, IsCurrent, IsEnded, IsEnded-IsGuarded, IsHeld, IsHolding, Bears-ne-nil, delegation-Triple,
  IsEnded-finalize-Triple, IsEnded-update-Triple, finalize-Triple, hold-Triple, update-Triple,
}
use k8gb.Controller.Lifecycle.Quiet.{
  annotated-key, gslb_dns_endpoint-key, gslb_dns_endpoint-Keeps, gslb_ingress-Keeps,
  save_ingress-Keeps, update_gslb_status-Keeps,
}
use k8gb.Controller.Reconcile.{delete_gslb, ensure_finalizer, finalize_loop, publish}
use k8gb.Controller.Reconcile.Deletion.{contains-append_last}
use k8gb.Controller.Status.{update_gslb_status}
use k8gb.Depresolver.{Config, DependencyResolver}
use k8gb.Depresolver.Spec.{Resolved, defaulted, resolve_gslb_spec, save}
use k8gb.Dns.{Provider}
use k8gb.Utils.Result.{Result, requeue}

-- A Gslb whose specification is resolved without an error is the current one.
abbrev pub IsResolved : ObjectKey → Resolved → Observed → Type 0
IsResolved key r o = IsGuarded o × (r.error ≡ none → IsCurrent key r.gslb o)

module _ {W : Type 0} {key : ObjectKey} {observe : W → Observed} {client : Client W}
    {gauges : Gauges W} {provider : Provider W}
    (laws : Lawful key observe client gauges provider) where
  save-Triple :
      (dr : DependencyResolver) (g : Gslb) (e : Option Error)
      → Triple observe IsGuarded (IsCurrent key g) (save client dr (defaulted g) e) (IsResolved key)
  save-Triple dr g (some e) = pure-Triple _ (λ o c. (c.0, λ _. c))
  save-Triple dr g none =
      handle-Triple (IsCurrent key) _ _ _ (update-Triple laws g (defaulted g) refl (λ b. b))
        (λ g'. pure-Triple _ (λ o c. (c.0, λ _. c)))
        (λ e. pure-Triple _ (λ o c. (c, λ n. absurd (ground (arith, n)))))

  decided-Triple :
      (dr : DependencyResolver) (g : Gslb) (d : Dec (g.spec ≡ dr.spec)) (e : Option Error)
      → Triple observe IsGuarded
          (IsCurrent key g)
          (ite d
            (pure (record { resolver = dr; gslb = g; error = dr.error_spec }))
            (save client dr (defaulted g) e))
          (IsResolved key)
  decided-Triple dr g (yes p) e = pure-Triple _ (λ o c. (c.0, λ _. c))
  decided-Triple dr g (no n) e = save-Triple dr g e

  pub resolve-Triple :
      (dr : DependencyResolver) (g : Gslb)
      → Triple observe IsGuarded
          (IsCurrent key g)
          (resolve_gslb_spec dr g (some client))
          (IsResolved key)
  unfolding resolve_gslb_spec
  resolve-Triple dr g = decided-Triple dr g (GslbSpec-discrete g.spec dr.spec) _

  IsEnded-loop-Triple :
      (fs : List String) (g : Gslb)
      → Triple observe IsGuarded IsEnded (finalize_loop client provider fs g) (λ _. IsEnded)
  unfolding finalize_loop
  IsEnded-loop-Triple [] g = pure-Triple _ (λ o e. e)
  IsEnded-loop-Triple (f ∷ fs) g =
      if-Triple (contains g.meta.finalizers f) _ _
        (λ _.
          >>=-Triple (λ _. IsEnded) _ _ (IsEnded-finalize-Triple laws g)
            (λ _.
              >>=-Triple (λ _. IsEnded) _ _ (lift-Triple _ IsEnded-IsGuarded (λ _ _ _ e. e))
                (λ kept.
                  >>=-Triple (λ _. IsEnded) _ _
                    (IsEnded-update-Triple laws (with_finalizers g kept))
                    (λ g'. IsEnded-loop-Triple fs g'))))
        (λ _. IsEnded-loop-Triple fs g)

  -- Without the finalizer, a current Gslb has no delegation.
  IsEnded-without :
      (g : Gslb)
      → contains g.meta.finalizers gslb_finalizer ≡ false
      → (o : Observed) → IsCurrent key g o
      → IsEnded o
  IsEnded-without g n o (guarded, k, inl e) = elim (Bool-cases o.delegated) [
    | inl d ↦ (let (fs, f, b) = guarded d in absurd (ground (arith, n, b, e, f)))
    | inr d ↦ d
  ]
  IsEnded-without g n o (guarded, k, inr (e, _)) = elim (Bool-cases o.delegated) [
    | inl d ↦ (let (fs, f, b) = guarded d in absurd (ground (arith, e, f)))
    | inr d ↦ d
  ]

  pub delete-Triple :
      (g : Gslb)
      → Triple observe IsGuarded (IsCurrent key g) (delete_gslb client provider g) (λ _. IsEnded)
  unfolding delete_gslb finalize_loop
  delete-Triple g =
      if-Triple (contains g.meta.finalizers gslb_finalizer) _ _
        (λ _.
          >>=-Triple (λ _. IsEnded) _ _
            (weaken-Triple (IsCurrent key g) _ (λ o c. c.0) (finalize-Triple laws g))
            (λ _.
              >>=-Triple (λ _. IsEnded) _ _ (lift-Triple _ IsEnded-IsGuarded (λ _ _ _ e. e))
                (λ kept.
                  >>=-Triple (λ _. IsEnded) _ _
                    (IsEnded-update-Triple laws (with_finalizers g kept))
                    (λ g'. IsEnded-loop-Triple (legacy_finalizer ∷ []) g'))))
        (λ n.
          weaken-Triple (IsCurrent key g) _ (IsEnded-without g n)
            (IsEnded-loop-Triple (legacy_finalizer ∷ []) g))

  IsHolding-with :
      (g : Gslb) → Bears g.meta.finalizers → (o : Observed) → IsCurrent key g o → IsHolding key g o
  IsHolding-with g b o (_, k, inl e) = ((g.meta.finalizers, e, b), k)
  IsHolding-with g b o (_, k, inr (_, e)) = absurd (Bears-ne-nil (rw e at b))

  pub ensure-Triple :
      (g : Gslb)
      → Triple observe IsGuarded
          (IsCurrent key g)
          (ensure_finalizer client provider g)
          (IsHolding key)
  unfolding ensure_finalizer add_finalizer
  ensure-Triple g =
      if-Triple (contains g.meta.finalizers gslb_finalizer) _ _
        (λ b. pure-Triple g (IsHolding-with g b))
        (λ _.
          hold-Triple laws g (with_finalizers g (g.meta.finalizers ++ gslb_finalizer ∷ [])) refl
            (contains-append_last g.meta.finalizers gslb_finalizer))

  guarded : (o : Observed) → IsHeld o → IsGuarded o
  guarded o h _ = h

  -- From the records on.
  saved-Triple :
      (visit : Dict String → Dict String) (config : Config) (handler : Result) (g : Gslb)
      (d : DnsEndpoint)
      → key_of g.meta ≡ key
      → key_of d.meta ≡ key
      → Triple observe IsGuarded IsHeld
          (provider.save_dns_endpoint g d
            >> handle
                (provider.create_zone_delegation g)
                (λ _. do update_gslb_status client gauges config g; pure (requeue handler))
                (λ _. pure (requeue handler)))
          (λ r o. IsGuarded o × (r ≡ handler))
  unfolding requeue
  saved-Triple visit config handler g d n m =
      >>=-Triple (λ _. IsHeld) _ _
        (keeps-Triple IsHeld _ guarded (laws.edge.save_dns_endpoint g d n m))
        (λ _.
          handle-Triple (λ _. IsHeld) _ _ _ (delegation-Triple laws g)
            (λ _.
              >>=-Triple (λ _. IsHeld) _ _
                (keeps-Triple IsHeld _ guarded (update_gslb_status-Keeps laws config g))
                (λ _. pure-Triple _ (λ o h. (guarded o h, refl))))
            (λ e. pure-Triple _ (λ o c. (c, refl))))

  pub publish-Triple :
      (visit : Dict String → Dict String) (config : Config) (handler : Result) (g : Gslb)
      → Triple observe IsGuarded
          (IsHolding key g)
          (publish visit client gauges config provider handler g)
          (λ r o. IsGuarded o × (r ≡ handler))
  unfolding publish
  publish-Triple visit config handler g =
      let g' = record g { meta = annotated client g } in
      given-Triple (key_of g.meta ≡ key) _ (λ n.
        let named = annotated-key laws g ∙ n in
        >>=-Triple (λ _. IsHeld) _ _ (keeps-Triple IsHeld _ guarded (gslb_ingress-Keeps laws g))
          (λ i.
            >>=-Triple (λ _. IsHeld) _ _
              (keeps-Triple IsHeld _ guarded (save_ingress-Keeps laws g' i))
              (λ _.
                >>=-Triple (λ d o. IsHeld o × (key_of d.meta ≡ key_of g'.meta)) _ _
                  (returns-Triple _ guarded (gslb_dns_endpoint-Keeps laws visit config g')
                    (λ d w e h. (h, gslb_dns_endpoint-key laws visit config g' w e)))
                  (λ d.
                    given-Triple (key_of d.meta ≡ key_of g'.meta) _
                      (λ m. saved-Triple visit config handler g' d named (m ∙ named))))))
