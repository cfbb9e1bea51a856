-- ===== src/Controller/Reconcile.antt =====
-- controllers/gslb_controller.go: `Reconcile`. Log lines are left out.
pub mod Deletion
pub mod Published
pub mod Verdict
pub mod Finalized
use k8gb.Prelude.{String, Option, none, some, List, [], ◌∷◌, if◌then◌else◌}
use k8gb.Prelude.Dict.{Dict}
use k8gb.Effect.{Error, errorf, is_not_found, Run, pure, lift, handle, ◌>>=◌, ◌>>◌}
use k8gb.Api.{Gslb, ObjectKey}
use k8gb.Cluster.{Client, Gauges}
use k8gb.Controller.Endpoint.{gslb_dns_endpoint}
use k8gb.Controller.Finalizers.{
  add_finalizer, contains, gslb_finalizer, legacy_finalizer, remove, with_finalizers,
}
use k8gb.Controller.Ingress.{annotated, gslb_ingress, save_ingress}
use k8gb.Controller.Status.{update_gslb_status}
use k8gb.Depresolver.{Config, DependencyResolver}
use k8gb.Depresolver.Spec.{Resolved, resolve_gslb_spec}
use k8gb.Dns.{Provider}
use k8gb.Utils.Result.{Result, new_reconcile_result_handler, requeue, requeue_error, stop}

module _ {W : Type 0} (client : Client W) (provider : Provider W) where
  -- The loop over the finalizers of a Gslb that is marked for deletion.
  unfoldable pub finalize_loop : List String → Gslb → Run W Gslb
  finalize_loop [] gslb = pure gslb
  finalize_loop (f ∷ fs) gslb =
      let skip = finalize_loop fs gslb in
      if contains gslb.meta.finalizers f
      then (do
        provider.finalize gslb
        kept ← lift (remove gslb.meta.finalizers f)
        gslb' ← client.update_gslb (with_finalizers gslb kept)
        finalize_loop fs gslb')
      else skip

  unfoldable pub delete_gslb : Gslb → Run W Gslb
  unfolding finalize_loop contains remove
  delete_gslb = finalize_loop (gslb_finalizer ∷ legacy_finalizer ∷ [])

  unfoldable pub ensure_finalizer : Gslb → Run W Gslb
  unfolding contains add_finalizer
  ensure_finalizer gslb =
      if contains gslb.meta.finalizers gslb_finalizer then pure gslb else add_finalizer client gslb

module _ {W : Type 0} (visit : Dict String → Dict String) (client : Client W) where
  module _ (gauges : Gauges W) (config : Config) (provider : Provider W) where
    -- The steps from the Ingress on; `gslb_ingress` has left its annotations in the Gslb.
    unfoldable pub publish : Result → Gslb → Run W Result
    unfolding gslb_ingress annotated save_ingress gslb_dns_endpoint update_gslb_status
    publish handler gslb = do
      ingress ← gslb_ingress client gslb
      let gslb' = record gslb { meta = annotated client gslb }
      save_ingress client gslb' ingress
      dns_endpoint ← gslb_dns_endpoint visit client config provider gslb'
      provider.save_dns_endpoint gslb' dns_endpoint
      handle (provider.create_zone_delegation gslb')
          (λ _. do update_gslb_status client gauges config gslb'; pure (requeue handler))
          (λ _. pure (requeue handler))

    unfoldable pub reconcile_gslb : Result → Gslb → Run W Result
    unfolding delete_gslb ensure_finalizer publish stop requeue
    reconcile_gslb handler gslb =
        if gslb.meta.marked_for_deletion
        then (do delete_gslb client provider gslb; pure stop)
        else (do gslb' ← ensure_finalizer client provider gslb; publish handler gslb')

    -- `if err != nil { return result.RequeueError(err) }` after each step
    abbrev requeue_errors : Run W Result → Run W Result
    requeue_errors m = handle m pure (λ e. pure (requeue_error e))

    -- The result of the steps, if the specification has been resolved.
    unfoldable pub proceed : Result → Resolved → Run W Result
    unfolding reconcile_gslb requeue_error
    proceed handler resolved = elim resolved.error [
      | some e ↦ pure (requeue_error (errorf "resolving spec (%s)" []))
      | none ↦ requeue_errors (reconcile_gslb handler resolved.gslb)
    ]

    unfoldable pub reconcile : DependencyResolver → ObjectKey → Run W (DependencyResolver × Result)
    unfolding proceed resolve_gslb_spec new_reconcile_result_handler
    reconcile resolver key =
        let handler = new_reconcile_result_handler config.reconcile_requeue_seconds in
        handle (client.get_gslb key)
          (λ gslb. do
            resolved ← resolve_gslb_spec resolver gslb (some client)
            result ← proceed handler resolved
            pure (resolved.resolver, result))
          (λ e. pure (
            resolver,
            if is_not_found e
                then stop
                else requeue_error (errorf "error reading the object (%s)" []),
          ))
