-- ===== src/Tests/Runs.antt =====
-- Runs of the controller in the concrete cluster.
use k8gb.Prelude.{◌≡◌, refl, true, false, [], ◌∷◌}
use k8gb.Prelude.Dict.{insert}
use k8gb.Prelude.Int.{pos}
use k8gb.Prelude.Sort.{sort}
use k8gb.Effect.{ok}
use k8gb.Api.{Gslb}
use k8gb.Api.Equality.{GslbSpec-discrete}
use k8gb.Controller.Finalizers.{contains, gslb_finalizer, legacy_finalizer}
use k8gb.Controller.Finalizers.Removal.{AtMostOnce, without}
use k8gb.Controller.Reconcile.{delete_gslb, ensure_finalizer, publish, reconcile}
use k8gb.Controller.Reconcile.Deletion.{KeepsFinalizers}
use k8gb.Controller.Reconcile.Finalized.{delete_gslb-finalizers}
use k8gb.Controller.Reconcile.Published.{IsPublication, publish-IsPublication}
use k8gb.Controller.Reconcile.Verdict.{IsVerdict, reconcile-IsVerdict}
use k8gb.Tests.World.{
  World, app, app_key, eu_config, eu_provider, in_order, memory, no_gauges, running,
  settled_resolver, world,
}
use k8gb.Utils.Result.{Result, new_reconcile_result_handler, requeue}

keeps : KeepsFinalizers memory
keeps = λ g w g' w' h. cc

abbrev deleted : Gslb
deleted = app ("k8gb.absa.oss/finalizer" ∷ "other" ∷ []) true

abbrev left_over : Gslb
left_over = app ("other" ∷ []) true

delete_run :
    delete_gslb memory eu_provider deleted world ≡ (ok left_over, record world { gslb = left_over })
unfolding delete_gslb
delete_run = refl

once_new : AtMostOnce gslb_finalizer deleted.meta.finalizers
unfolding contains
once_new = ((λ _. refl), ((λ _. refl), tt))

once_old : AtMostOnce legacy_finalizer deleted.meta.finalizers
unfolding contains
once_old = ((λ _. refl), ((λ _. refl), tt))

delete_gslb-finalizers_example :
    left_over.meta.finalizers
    ≡ without legacy_finalizer (without gslb_finalizer deleted.meta.finalizers)
delete_gslb-finalizers_example =
    delete_gslb-finalizers memory eu_provider deleted world keeps once_new once_old delete_run

ensure_run : ensure_finalizer memory eu_provider (app [] false) world ≡ (ok running, world)
unfolding ensure_finalizer
ensure_run = refl

abbrev handler : Result
handler = new_reconcile_result_handler (pos 30)

abbrev published_world : World
published_world = (publish in_order memory no_gauges eu_config eu_provider handler running world).1

publish_run :
    publish in_order memory no_gauges eu_config eu_provider handler running world
    ≡ (ok handler, published_world)
unfolding publish insert sort new_reconcile_result_handler requeue
publish_run = refl

publish-IsPublication_example :
    (handler ≡ handler)
    × IsPublication in_order memory no_gauges eu_config eu_provider running world published_world
publish-IsPublication_example =
    publish-IsPublication in_order memory no_gauges eu_config eu_provider handler running world
      publish_run

reconcile_run :
    reconcile in_order memory no_gauges eu_config eu_provider settled_resolver app_key world
    ≡ (ok (settled_resolver, handler), published_world)
unfolding reconcile insert sort GslbSpec-discrete
reconcile_run = refl

reconcile-IsVerdict_example :
    IsVerdict in_order memory no_gauges eu_config eu_provider settled_resolver app_key world
      settled_resolver handler published_world
reconcile-IsVerdict_example =
    reconcile-IsVerdict in_order memory no_gauges eu_config eu_provider settled_resolver app_key
      world reconcile_run
