-- ===== src/Terratest/Instance.antt =====
-- terratest/utils/extensions.go: `Instance`, a started workflow, and what the tests do with it. The
-- methods that change the workflow give the new instance. What `WaitForExpected` prints is left out.
pub mod Laws
use k8gb.Prelude.{
  String, ◌<>◌, Bool, true, false, not, Option, none, some, List, [], ◌∷◌, ◌++◌, ◌==◌, map,
  if◌then◌else◌,
}
use k8gb.Prelude.Int.{ℤ}
use k8gb.Prelude.Replacer.{itoa}
use k8gb.Prelude.Text.{split_char}
use k8gb.Effect.{Error, Run, pure, crash, ◌>>=◌, ◌>>◌}
use k8gb.Terratest.{Command, Kit, TestAppResult, WithError, require_no_error, require_true}
use k8gb.Terratest.Checks.{assert_gslb_status, run_busy_box_command}
use k8gb.Terratest.Retry.{do_with_retry}
use k8gb.Terratest.Workflow.{Instance}

pub record InstanceStatus : Type 0 where
  pub annotation : String
  pub app_message : String
  pub app_running : Bool
  pub app_replicas : String
  pub local_targets : List String
  pub ingresses : List String
  pub dig : List String
  pub core_dns : String
  pub gslb_health_status : String
  pub cluster : String
  pub namespace : String
  pub endpoint0_dns_name : String
  pub endpoint0_targets : String
  pub endpoint1_dns_name : String
  pub endpoint1_targets : String

-- `n/a` where the command failed.
abbrev pub or_na : String → Option Error → String
or_na out none = out
or_na out (some e) = "n/a"

-- `strings.Split(s, …)[0]` and `[1]`.
abbrev pub first_part : List String → String
first_part [] = ""
first_part (p ∷ ps) = p

abbrev pub second_part : List String → Option String
second_part (p ∷ q ∷ ps) = some q
second_part _ = none

abbrev pub set_running : Bool → Instance → Instance
set_running running i = record i {
  w = record i.w { test_app = record i.w.test_app { is_running = running } };
}

module _ {W : Type 0} (kit : Kit W) where
  unfoldable pub kill : Instance → Run W (Unit {0})
  kill i =
      if i.w.namespace_created then kit.delete_namespace i.w.k8s_options i.w.namespace else pure tt

  unfoldable pub get_core_dns_ip : Instance → Run W String
  get_core_dns_ip i = do
    (out, e) ← kit.run_command_and_get_output_e (record {
      command = "kubectl";
      args =
          "--context" ∷ i.w.k8s_options.context_name ∷ "-n" ∷ "k8gb" ∷ "get" ∷ "svc"
          ∷ "k8gb-coredns" ∷ "--no-headers" ∷ "-o" ∷ "custom-columns=IP:spec.clusterIPs[0]" ∷ [];
      env = i.w.k8s_options.env;
    })
    require_no_error e
    require_true (not (out == "<none>"))
    pure out

  unfoldable pub get_ingress_ips : Instance → Run W (List String)
  get_ingress_ips i = do
    ingress ← kit.get_ingress i.w.k8s_options i.w.settings.ingress_name
    pure (map (λ lb. lb.ip) ingress.load_balancer)

  -- `scale deploy`, and the wait for the health that follows.
  unfoldable pub stop_test_app : Instance → Run W Instance
  unfolding assert_gslb_status
  stop_test_app i = do
    kit.run_kubectl i.w.k8s_options ("scale" ∷ "deploy" ∷ i.w.test_app.name ∷ "--replicas=0" ∷ [])
    assert_gslb_status kit i.w.k8s_options i.w.gslb.name (i.w.gslb.host <> ":Unhealthy")
    pure (set_running false i)

  unfoldable pub start_test_app : Instance → Run W Instance
  unfolding assert_gslb_status
  start_test_app i = do
    kit.run_kubectl i.w.k8s_options ("scale" ∷ "deploy" ∷ i.w.test_app.name ∷ "--replicas=1" ∷ [])
    assert_gslb_status kit i.w.k8s_options i.w.gslb.name (i.w.gslb.host <> ":Healthy")
    pure (set_running true i)

  -- The name server of an instance's cluster.
  abbrev pub name_server : Instance → String
  name_server i = "localhost:" <> itoa i.w.gslb.port

  unfoldable pub dig : Instance → Run W (List String)
  dig i = do (found, e) ← kit.dig (name_server i) i.w.gslb.host; require_no_error e; pure found

  unfoldable pub get_local_targets : Instance → Run W (List String)
  get_local_targets i = do
    (found, e) ← kit.dig (name_server i) ("localtargets-" <> i.w.gslb.host)
    require_no_error e
    pure found

  unfoldable pub wait_for_local_gslb_new :
      String → String → List String → Run W (WithError (List String))
  unfolding do_with_retry
  wait_for_local_gslb_new host server expected_result =
      do_with_retry (kit.sleep 1) (kit.dig server host) expected_result 100

  -- The loop over the instances, with the addresses so far.
  unfoldable pub expected_loop : List Instance → List String → Run W (List String)
  unfolding get_local_targets
  expected_loop [] expected_ips = pure expected_ips
  expected_loop (i ∷ instances) expected_ips =
      if i.w.test_app.is_running
      then (do ip ← get_local_targets i; expected_loop instances (expected_ips ++ ip))
      else expected_loop instances expected_ips

  unfoldable pub wait_for_gslb : Instance → List Instance → Run W (WithError (List String))
  unfolding expected_loop wait_for_local_gslb_new
  wait_for_gslb i instances = do
    expected_ips ← expected_loop (instances ++ i ∷ []) []
    wait_for_local_gslb_new i.w.gslb.host (name_server i) expected_ips

  abbrev query : Instance → List String → Run W String
  query i args = do
    (out, e) ← kit.run_kubectl_and_get_output_e i.w.k8s_options args
    pure (or_na out e)

  -- A field of the record sets of the Gslb.
  abbrev endpoint_field : Instance → String → Run W String
  endpoint_field i field = query i (
      "get"
      ∷ "dnsendpoints.externaldns.k8s.io"
      ∷ "test-gslb"
      ∷ "-o"
      ∷ ("custom-columns=SERVICESTATUS:.spec.endpoints" <> field)
      ∷ "--no-headers"
      ∷ [])

  unfoldable pub get_status : Instance → String → Run W InstanceStatus
  unfolding dig get_local_targets get_ingress_ips get_core_dns_ip
  get_status i annotation = do
    answer ← dig i
    local_targets ← get_local_targets i
    ingresses ← get_ingress_ips i
    core_dns ← get_core_dns_ip i
    app_replicas ← query i (
        "get" ∷ "deployments" ∷ "frontend-podinfo" ∷ "-o" ∷ "custom-columns=STATUS:.status.replicas"
        ∷ "--no-headers" ∷ [])
    gslb_health_status ← query i (
        "get" ∷ "gslb" ∷ i.w.gslb.name ∷ "-o" ∷ "custom-columns=SERVICESTATUS:.status.serviceHealth"
        ∷ "--no-headers" ∷ [])
    endpoint0_dns_name ← endpoint_field i "[0].dnsName"
    endpoint0_targets ← endpoint_field i "[0].targets"
    endpoint1_dns_name ← endpoint_field i "[1].dnsName"
    endpoint1_targets ← endpoint_field i "[1].targets"
    pure (record {
      annotation = annotation;
      app_message = i.w.test_app.message;
      app_running = i.w.test_app.is_running;
      app_replicas = app_replicas;
      local_targets = local_targets;
      ingresses = ingresses;
      dig = answer;
      core_dns = core_dns;
      gslb_health_status = gslb_health_status;
      cluster = i.w.cluster;
      namespace = i.w.namespace;
      endpoint0_dns_name = endpoint0_dns_name;
      endpoint0_targets = endpoint0_targets;
      endpoint1_dns_name = endpoint1_dns_name;
      endpoint1_targets = endpoint1_targets;
    })

  -- The status is read for the output, where the wait has failed.
  abbrev after_wait : Instance → Option Error → Run W (Option Error)
  after_wait i none = pure none
  after_wait i (some e) = do get_status i "expected IPs: %s"; pure (some e)

  unfoldable pub wait_for_expected : Instance → List String → Run W (Option Error)
  unfolding wait_for_local_gslb_new get_status
  wait_for_expected i expected_ips = do
    result ← wait_for_local_gslb_new i.w.gslb.host (name_server i) expected_ips
    after_wait i result.1

  unfoldable pub wait_for_app_is_running : Instance → Run W (Option Error)
  unfolding get_status do_with_retry
  wait_for_app_is_running i = do
    result ←
        do_with_retry (kit.sleep 1) (do s ← get_status i ""; pure (s.app_replicas ∷ [], none))
          ("1" ∷ []) 100
    pure result.1

  -- What busybox printed, from the first brace that opens to the first that closes.
  abbrev decoded : Option String → TestAppResult → Run W TestAppResult
  decoded none result = crash
  decoded (some parsed) result =
      let (value, e) = kit.unmarshal_app (("{" <> parsed) <> "}") result in
      (do require_no_error e; pure value)

  unfoldable pub hit_test_app : Instance → Run W TestAppResult
  unfolding get_core_dns_ip run_busy_box_command split_char
  hit_test_app i = do
    require_true i.w.test_app.is_installed
    core_dns_ip ← get_core_dns_ip i
    (body, e) ← run_busy_box_command kit i.w.k8s_options (
        (("echo nameserver " <> core_dns_ip) <> " > /etc/resolv.conf && wget -qO - ")
        <> i.w.gslb.host)
    require_no_error e
    decoded (second_part (split_char b'{' (first_part (split_char b'}' body))))
        (record { message = ""; version = ""; color = ""; pod = ""; body = body })
