-- ===== src/Controller/Lifecycle/Histories.antt =====
-- Sequences of reconciliations and of changes by users (controllers/gslb_controller.go).
use k8gb.Prelude.{◌≡◌, ◌≢◌, refl, sym, ap, ◌∙◌, arith, true, false, some, String, List, Bool}
use k8gb.Prelude.Dict.{Dict}
use k8gb.Prelude.Int.{ℤ, pos, negsuc, ltb_ℤ}
use k8gb.Effect.{Outcome, ok, err, panicked}
use k8gb.Effect.Hoare.{Post}
use k8gb.Api.{ObjectKey}
use k8gb.Cluster.{Client, Gauges}
use k8gb.Controller.Finalizers.{contains, gslb_finalizer}
use k8gb.Controller.Lifecycle.{
  Change, IsGuarded, Lawful, Observed, Step, Steps, by_operator, by_user, created, deleted, done,
  edited, next, written,
}
use k8gb.Controller.Lifecycle.Contracts.{IsHeld-written, some-inj}
use k8gb.Controller.Lifecycle.Safety.{reconcile-Triple}
use k8gb.Controller.Reconcile.{reconcile}
use k8gb.Depresolver.{Config, DependencyResolver}
use k8gb.Dns.{Provider}
use k8gb.Utils.Result.{new_reconcile_result_handler, stop}

abbrev Bears : List String → Type 0
Bears fs = contains fs gslb_finalizer ≡ true

rewritten :
    (o : Observed) (m : Bool) (fs gs : List String)
    → IsGuarded o
    → o.object ≡ some fs
    → (Bears fs → Bears gs)
    → IsGuarded (written gs (record o { marked = m }))
rewritten o m fs gs c e k d =
    let (hs, f, b) = c d in
    IsHeld-written gs (record o { marked = m }) (k (rw (some-inj fs hs (sym e ∙ f)) b))

change-IsGuarded : (o o' : Observed) → Change o o' → IsGuarded o → IsGuarded o'
change-IsGuarded o o' (created fs n e) c =
    rw e (λ d. let (hs, f, b) = c d in absurd (ground (arith, n, f)))
change-IsGuarded o o' (edited fs gs s k e) c = rw e (rewritten o o.marked fs gs c s k)
change-IsGuarded o o' (deleted fs s e) c = rw e (rewritten o true fs fs c s (λ b. b))

Post-IsGuarded :
    {A : Type 0} (Q : A → Observed → Type 0) (r : Outcome A) (o : Observed)
    → ((a : A) → Q a o → IsGuarded o)
    → Post IsGuarded Q r o
    → IsGuarded o
Post-IsGuarded Q (ok a) o h p = h a p
Post-IsGuarded Q (err e) o h p = p
Post-IsGuarded Q panicked o h p = p

delay-ne-stop : (n : ℤ) → ltb_ℤ (pos 0) n ≡ true → new_reconcile_result_handler n ≢ stop
unfolding new_reconcile_result_handler stop
delay-ne-stop (pos n) h e = absurd (ground (arith, ap (λ r. r.requeue_after) e))
delay-ne-stop (negsuc n) h e = absurd (ground arith)

module _ {W : Type 0} {key : ObjectKey} {observe : W → Observed} {client : Client W}
    {gauges : Gauges W} {provider : Provider W}
    (laws : Lawful key observe client gauges provider) where
  Step-IsGuarded :
      (w w' : W)
      → Step key observe client gauges provider w w'
      → IsGuarded (observe w)
      → IsGuarded (observe w')
  Step-IsGuarded w w' (by_user change) c = change-IsGuarded (observe w) (observe w') change c
  Step-IsGuarded w w' (by_operator visit config resolver e) c = rw e at (
      Post-IsGuarded _ (reconcile visit client gauges config provider resolver key w).0 _
        (λ a d. d.0) ((reconcile-Triple laws visit config resolver).holds w c))

  -- Take an API server and a DNS provider that keep their promises, where any call may fail, and a
  -- history of changes by users and of reconciliations with any settings, from a state in which the
  -- zone is not delegated. In whatever state it ends, if the zone is delegated, then the Gslb exists
  -- and bears the operator's finalizer.
  pub Steps-IsGuarded :
      (u w : W)
      → Steps key observe client gauges provider u w
      → (observe u).delegated ≡ false
      → IsGuarded (observe w)
  Steps-IsGuarded u w done n = λ d. absurd (ground (arith, n, d))
  Steps-IsGuarded u w (next {v} before step) n =
      Step-IsGuarded v w step (Steps-IsGuarded u v before n)

  -- After such a history, a reconciliation with a positive delay that returns and stops, so that the
  -- Gslb is not looked at again, leaves the zone without a delegation.
  pub reconcile-stop-IsEnded :
      (u w : W) (visit : Dict String → Dict String) (config : Config)
      (resolver : DependencyResolver) {after : DependencyResolver} {w' : W}
      → Steps key observe client gauges provider u w
      → (observe u).delegated ≡ false
      → ltb_ℤ (pos 0) config.reconcile_requeue_seconds ≡ true
      → reconcile visit client gauges config provider resolver key w ≡ (ok (after, stop), w')
      → (observe w').delegated ≡ false
  reconcile-stop-IsEnded u w visit config resolver steps n positive h =
      (rw h at
          ((reconcile-Triple laws visit config resolver).holds w (Steps-IsGuarded u w steps n))).1
        (delay-ne-stop config.reconcile_requeue_seconds positive) refl
