-- ===== src/Tests/EndToEnd.antt =====
-- The steps of an end-to-end test, in a world that is the time in seconds.
use mathlib.Core.List.{flat_map, Perm}
use k8gb.Prelude.{
  ℕ, ◌+◌, ◌≡◌, refl, ◌⊎◌, String, ◌<>◌, false, none, some, List, [], ◌∷◌, ltb, if◌then◌else◌,
}
use k8gb.Prelude.Int.{pos}
use k8gb.Prelude.Sort.{sort}
use k8gb.Effect.{Error, ok, pure, Run}
use k8gb.Terratest.{Kit, WithError}
use k8gb.Terratest.Instance.{wait_for_gslb}
use k8gb.Terratest.Instance.Laws.{running_targets, Steady, wait_for_gslb_steady}
use k8gb.Terratest.Retry.{do_with_retry}
use k8gb.Terratest.Retry.Laws.{do_with_retry_ends, Ending}
use k8gb.Terratest.Workflow.{fresh_workflow, Instance, start, Workflow}
use k8gb.Terratest.Workflow.Laws.{built, built-verdict, IsComplete}
use k8gb.Tests.World.{app_meta}

abbrev table : String → String → List String
table server host = "10.0.0.1" ∷ []

abbrev kit : Kit ℕ
kit = record {
  new_kubectl_options =
      λ context path namespace. record { context_name = context; namespace = namespace; env = [] };
  unique_id = pure "a1";
  abs = λ path w. (ok ("/home/" <> path, none), w);
  read_file = λ path w. (ok ("name: app", none), w);
  unmarshal_name = λ file. ("app", none);
  unmarshal_app = λ text result. (result, none);
  sleep = λ n w. (ok tt, w);
  dig = λ server host w. (ok (table server host, none), w);
  run_command_and_get_output_e = λ c w. (ok ("", none), w);
  run_kubectl_and_get_output_e = λ options args w. (ok ("", none), w);
  create_namespace = λ options name w. (ok tt, w);
  delete_namespace = λ options name w. (ok tt, w);
  run_command = λ c w. (ok tt, w);
  run_command_and_get_output = λ c w. (ok "", w);
  run_kubectl = λ options args w. (ok tt, w);
  kubectl_apply = λ options path w. (ok tt, w);
  kubectl_apply_from_string = λ options text w. (ok tt, w);
  get_ingress = λ options name w. (
    ok (record {
      meta = app_meta [] false;
      spec = record { ingress_class_name = none; backend = none; tls = []; rules = [] };
      load_balancer = [];
    }),
    w,
  );
  wait_until_ingress_available = λ options name n w. (ok tt, w);
  wait_until_num_pods_created = λ options selector n m w. (ok tt, w);
  list_pods = λ options selector w. (ok [], w);
  wait_until_pod_available = λ options name n w. (ok tt, w);
  wait_until_service_available = λ options name n w. (ok tt, w);
  helm_install = λ options chart release w. (ok tt, w);
}

-- The answer comes after two seconds.
abbrev slow : Run ℕ (WithError (List String))
slow w = (ok ((if ltb w 2 then [] else "10.0.0.1" ∷ []), none), w)

abbrev tick : Run ℕ (Unit {0})
tick w = (ok tt, w + 1)

do_with_retry_ends_example :
    Ending tick slow ("10.0.0.1" ∷ []) 5 0 (do_with_retry tick slow ("10.0.0.1" ∷ []) 5 0)
do_with_retry_ends_example =
    do_with_retry_ends tick slow ("10.0.0.1" ∷ [])
      (λ w. (((if ltb w 2 then [] else "10.0.0.1" ∷ []), none), refl)) (λ w. refl) 5 0

slow_run : do_with_retry tick slow ("10.0.0.1" ∷ []) 5 0 ≡ (ok ("10.0.0.1" ∷ [], none), 2)
unfolding do_with_retry sort
slow_run = refl

steady : Steady kit table
steady = (λ server host w. refl, λ w. refl)

abbrev stopped : Instance
stopped = record { w = fresh_workflow kit "k3d" (pos 5053) "a1" }

wait_for_gslb_steady_example :
    (((wait_for_gslb kit stopped (stopped ∷ []) 0).0 ≡ ok ("10.0.0.1" ∷ [], none))
      × Perm
          ("10.0.0.1" ∷ [])
          (flat_map (running_targets kit table steady) (stopped ∷ stopped ∷ [])))
    ⊎ (((wait_for_gslb kit stopped (stopped ∷ []) 0).0
          ≡ ok ("10.0.0.1" ∷ [], some (Error.external "MaxRetriesExceeded")))
        × (¬ Perm
            ("10.0.0.1" ∷ [])
            (flat_map (running_targets kit table steady) (stopped ∷ stopped ∷ []))))
wait_for_gslb_steady_example = wait_for_gslb_steady kit table steady stopped (stopped ∷ []) 0

-- The host was forgotten.
built-verdict_example :
    (w : Workflow) × (built kit "k3d" (pos 5053) "ingress.yaml" "gslb.yaml" "" 0 ≡ (ok w, 0))
    × ((IsComplete kit "k3d" (pos 5053) "ingress.yaml" "gslb.yaml" "" none none none
          × (w.error ≡ none))
        ⊎ ((¬ IsComplete kit "k3d" (pos 5053) "ingress.yaml" "gslb.yaml" "" none none none)
            × (e : Error) × ((v : ℕ) → start kit w v ≡ (ok (none, some e), v))))
built-verdict_example =
    built-verdict kit "k3d" (pos 5053) "ingress.yaml" "gslb.yaml" "" 0 refl refl refl
