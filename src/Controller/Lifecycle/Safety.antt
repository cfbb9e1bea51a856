-- ===== src/Controller/Lifecycle/Safety.antt =====
-- The contract of a reconciliation (controllers/gslb_controller.go).
use k8gb.Prelude.{
  ◌≡◌, ◌≢◌, inl, inr, refl, sym, ap, ◌∙◌, arith, Option, none, some, Bool-cases, [], String,
  if◌then◌else◌,
}
use k8gb.Prelude.Dict.{Dict}
use k8gb.Effect.{Error, Outcome, ok, err, panicked, Run, pure, handle, settle, errorf, is_not_found}
use k8gb.Effect.Hoare.{
  Post, Triple, handle-Triple, imp-Triple, if-Triple, pure-Triple, weaken-Triple, >>=-Triple,
}
use k8gb.Api.{Gslb, ObjectKey}
use k8gb.Cluster.{Client, Gauges}
use k8gb.Controller.Lifecycle.{IsGuarded, IsRead, Lawful, Observed}
use k8gb.Controller.Lifecycle.Contracts.{IsCurrent, IsEnded, IsHolding}
use k8gb.Controller.Lifecycle.Guard.{
  IsResolved, delete-Triple, ensure-Triple, publish-Triple, resolve-Triple,
}
use k8gb.Controller.Reconcile.{proceed, reconcile, reconcile_gslb}
use k8gb.Depresolver.{Config, DependencyResolver}
use k8gb.Depresolver.Spec.{Resolved}
use k8gb.Dns.{Provider}
use k8gb.Utils.Result.{Result, new_reconcile_result_handler, requeue_error, stop}

-- After a reconciliation that stops, the zone is not delegated.
abbrev pub IsDone : Result → Result → Observed → Type 0
IsDone handler r o = IsGuarded o × (handler ≢ stop → r ≡ stop → IsEnded o)

error-ne-stop : (e : Error) → requeue_error e ≢ stop
unfolding requeue_error stop
error-ne-stop e h = absurd (ground (arith, ap (λ r. r.error) h))

failed :
    (handler : Result) (e : Error) (o : Observed) → IsGuarded o → IsDone handler (requeue_error e) o
failed handler e o c = (c, λ _ h. absurd (error-ne-stop e h))

module _ {W : Type 0} {key : ObjectKey} {observe : W → Observed} {client : Client W}
    {gauges : Gauges W} {provider : Provider W}
    (laws : Lawful key observe client gauges provider) where
  module _ (visit : Dict String → Dict String) (config : Config) (handler : Result) where
    reconcile_gslb-Triple :
        (g : Gslb)
        → Triple observe IsGuarded
            (IsCurrent key g)
            (reconcile_gslb visit client gauges config provider handler g)
            (IsDone handler)
    unfolding reconcile_gslb
    reconcile_gslb-Triple g =
        if-Triple g.meta.marked_for_deletion _ _
          (λ _.
            >>=-Triple (λ _. IsEnded) _ _ (delete-Triple laws g)
              (λ _. pure-Triple _ (λ o e. ((λ d. absurd (ground (arith, e, d))), λ _ _. e))))
          (λ _. >>=-Triple (IsHolding key) _ _ (ensure-Triple laws g) (λ g'.
            imp-Triple _ _ _ (λ r o (c, e). (c, λ n h. absurd (n (sym e ∙ h))))
              (publish-Triple laws visit config handler g')))

    after_errors :
        (r : Resolved) (e : Option Error)
        → r.error ≡ e
        → Triple observe IsGuarded
            (IsResolved key r)
            (elim e [
              | some x ↦ pure (requeue_error (errorf "resolving spec (%s)" []))
              | none ↦
                  handle
                    (reconcile_gslb visit client gauges config provider handler r.gslb)
                    pure
                    (λ x. pure (requeue_error x))
            ])
            (IsDone handler)
    after_errors r none n =
        handle-Triple (IsDone handler) _ _ _
          (weaken-Triple (IsResolved key r) _ (λ o p. p.1 n) (reconcile_gslb-Triple r.gslb))
          (λ v. pure-Triple v (λ o d. d)) (λ e. pure-Triple _ (failed handler e))
    after_errors r (some x) _ = pure-Triple _ (λ o p. failed handler _ o p.0)

    proceed-Triple :
        (r : Resolved)
        → Triple observe IsGuarded
            (IsResolved key r)
            (proceed visit client gauges config provider handler r)
            (IsDone handler)
    unfolding proceed
    proceed-Triple r = after_errors r r.error refl

  -- What is known after the Gslb could not be read.
  abbrev IsMissing : Error → Observed → Type 0
  IsMissing e o = IsGuarded o × (e ≡ Error.not_found → o.object ≡ none)

  settle_read :
      {A : Type 0} (Q : A → Observed → Type 0) (r : Outcome Gslb) (f : Gslb → Run W A)
      (g : Error → Run W A) (w : W)
      → ((a : Gslb) → Triple observe IsGuarded (IsCurrent key a) (f a) Q)
      → ((e : Error) → Triple observe IsGuarded (IsMissing e) (g e) Q)
      → IsGuarded (observe w)
      → IsRead key (observe w) r
      → Post IsGuarded Q (settle r f g w).0 (observe (settle r f g w).1)
  settle_read Q (ok a) f g w t u c (o, _, k) = (t a).holds w (c, k, inl o)
  settle_read Q (err Error.not_found) f g w t u c o = (u Error.not_found).holds w (c, λ _. o)
  settle_read Q (err Error.conflict) f g w t u c o =
      (u Error.conflict).holds w (c, λ h. absurd (ground (arith, h)))
  settle_read Q (err Error.resource_expired) f g w t u c o =
      (u Error.resource_expired).holds w (c, λ h. absurd (ground (arith, h)))
  settle_read Q (err (Error.errorf x xs)) f g w t u c o =
      (u (Error.errorf x xs)).holds w (c, λ h. absurd (ground (arith, h)))
  settle_read Q (err (Error.external x)) f g w t u c o =
      (u (Error.external x)).holds w (c, λ h. absurd (ground (arith, h)))
  settle_read Q panicked f g w t u c o = c

  read-Triple :
      {A : Type 0} (Q : A → Observed → Type 0) (f : Gslb → Run W A) (g : Error → Run W A)
      → ((a : Gslb) → Triple observe IsGuarded (IsCurrent key a) (f a) Q)
      → ((e : Error) → Triple observe IsGuarded (IsMissing e) (g e) Q)
      → Triple observe IsGuarded IsGuarded (handle (client.get_gslb key) f g) Q
  read-Triple Q f g t u = record {
    holds = λ w c.
        settle_read Q (client.get_gslb key w).0 f g (client.get_gslb key w).1 t u
          (rw (laws.server.get_gslb.same w) c)
          (rw (laws.server.get_gslb.same w) (laws.server.get_gslb_IsRead w));
  }

  IsEnded-absent : (o : Observed) → IsGuarded o → o.object ≡ none → IsEnded o
  IsEnded-absent o c n = elim (Bool-cases o.delegated) [
    | inl d ↦ (let (fs, f, _) = c d in absurd (ground (arith, n, f)))
    | inr d ↦ d
  ]

  -- No result but an error's where the Gslb cannot be read.
  unread :
      (handler : Result) (e f : Error) (o : Observed)
      → IsMissing e o
      → IsDone handler (if is_not_found e then stop else requeue_error f) o
  unread handler Error.not_found f o (c, m) = (c, λ _ _. IsEnded-absent o c (m refl))
  unread handler Error.conflict f o (c, m) = failed handler f o c
  unread handler Error.resource_expired f o (c, m) = failed handler f o c
  unread handler (Error.errorf x xs) f o (c, m) = failed handler f o c
  unread handler (Error.external x) f o (c, m) = failed handler f o c

  pub reconcile-Triple :
      (visit : Dict String → Dict String) (config : Config) (resolver : DependencyResolver)
      → Triple observe IsGuarded IsGuarded
          (reconcile visit client gauges config provider resolver key)
          (λ r. IsDone (new_reconcile_result_handler config.reconcile_requeue_seconds) r.1)
  unfolding reconcile
  reconcile-Triple visit config resolver =
      let handler = new_reconcile_result_handler config.reconcile_requeue_seconds in
      read-Triple _ _ _
        (λ g. >>=-Triple (IsResolved key) _ _ (resolve-Triple laws resolver g) (λ resolved.
          >>=-Triple (IsDone handler) _ _ (proceed-Triple visit config handler resolved)
            (λ r. pure-Triple _ (λ o d. d))))
        (λ e. pure-Triple _ (unread handler e _))
