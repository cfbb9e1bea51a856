-- ===== src/Utils/Result.antt =====
-- controllers/internal/utils/reconciler_result.go: what a reconciliation tells the work queue.
use k8gb.Prelude.{Bool, true, false, Option, none, some}
use k8gb.Prelude.Int.{ℤ, pos, seconds}
use k8gb.Effect.{Error}

-- controller-runtime's result and the error beside it; the delay is in nanoseconds.
pub record Result : Type 0 where
  pub requeue : Bool
  pub requeue_after : ℤ
  pub error : Option Error

abbrev no_delay : Result
no_delay = record { requeue = false; requeue_after = pos 0; error = none }

-- `NewReconcileResultHandler` keeps the delayed result.
unfoldable pub new_reconcile_result_handler : ℤ → Result
new_reconcile_result_handler reconcile_after = record no_delay {
  requeue_after = seconds reconcile_after;
}

unfoldable pub stop : Result
stop = no_delay

unfoldable pub requeue_error : Error → Result
requeue_error e = record no_delay { error = some e }

-- `Requeue` of a handler.
unfoldable pub requeue : Result → Result
requeue handler = handler

unfoldable pub requeue_now : Result
requeue_now = record no_delay { requeue = true }
