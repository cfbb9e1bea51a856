-- ===== src/Terratest/Checks.antt =====
-- terratest/utils/utils.go: the steps of the end-to-end tests, and what they assert. Retries are a
-- second apart.
use k8gb.Prelude.{
  String, ◌<>◌, Bool, true, false, not, none, List, [], ◌∷◌, ◌++◌, ◌==◌, if◌then◌else◌,
}
use k8gb.Prelude.Int.{ℤ, pos}
use k8gb.Prelude.Replacer.{itoa, replace}
use k8gb.Prelude.Sort.{sort}
use k8gb.Prelude.Text.{ltb_text, split_char}
use k8gb.Effect.{Run, pure, ◌>>=◌, ◌>>◌}
use k8gb.Cluster.{LoadBalancerIngress}
use k8gb.Terratest.{Kit, KubectlOptions, TestSettings, WithError, require_no_error, require_true}
use k8gb.Terratest.Retry.{do_with_retry}

-- `assert.Equal` marks the test as failed and goes on; whether it has failed is kept here.
abbrev pub Asserted : Type 0
Asserted = Bool

abbrev all_equal : List String → List String → Bool
all_equal [] [] = true
all_equal [] (y ∷ ys) = false
all_equal (x ∷ xs) [] = false
all_equal (x ∷ xs) (y ∷ ys) = let rest = all_equal xs ys in if x == y then rest else false

module _ {W : Type 0} (kit : Kit W) where
  -- The addresses of a name by the program `dig`, sorted. Its error is always nil.
  unfoldable pub dig : String → ℤ → String → List String → Run W (WithError (List String))
  unfolding itoa split_char
  dig dns_server dns_port dns_name additional_args = do
    out ← kit.run_command_and_get_output (record {
      command = "dig";
      args =
          (("-p" <> itoa dns_port) ∷ ("@" <> dns_server) ∷ dns_name ∷ "+short" ∷ [])
          ++ additional_args;
      env = [];
    })
    pure (sort ltb_text (split_char 10 out), none)

  -- The addresses that one entry of the load balancer adds.
  unfoldable pub lb_ips : LoadBalancerIngress → Run W (List String)
  unfolding dig
  lb_ips lb =
      if not (lb.ip == "")
      then pure (lb.ip ∷ [])
      else if not (lb.hostname == "")
      then (do found ← dig "1.1.1.1" (pos 53) lb.hostname []; pure found.0)
      else pure []

  unfoldable pub lbs_loop : List LoadBalancerIngress → List String → Run W (List String)
  unfolding lb_ips
  lbs_loop [] ingress_ips = pure ingress_ips
  lbs_loop (lb ∷ lbs) ingress_ips = do more ← lb_ips lb; lbs_loop lbs (ingress_ips ++ more)

  unfoldable pub get_ingress_ips : KubectlOptions → String → Run W (List String)
  unfolding lbs_loop
  get_ingress_ips options ingress_name = do
    ingress ← kit.get_ingress options ingress_name
    lbs_loop ingress.load_balancer []

  -- The pairs of the replacer.
  abbrev pub zone_pairs : TestSettings → List (String × String)
  zone_pairs s =
      ("cloud.example.com", s.dns_zone)
      ∷ ("primaryGeoTag: \"eu\"", ("primaryGeoTag: \"" <> s.primary_geo_tag) <> "\"")
      ∷ ("primaryGeoTag: \"us\"", ("primaryGeoTag: \"" <> s.secondary_geo_tag) <> "\"")
      ∷ (
        "k8gb.io/primary-geotag: \"eu\"",
        ("k8gb.io/primary-geotag: \"" <> s.primary_geo_tag) <> "\"",
      )
      ∷ []

  -- `log.Fatal` where the file cannot be read.
  unfoldable pub create_gslb : KubectlOptions → TestSettings → String → Run W (Unit {0})
  unfolding replace
  create_gslb options settings kube_resource_path = do
    (manifest, e) ← kit.read_file kube_resource_path
    require_no_error e
    kit.kubectl_apply_from_string options (replace (zone_pairs settings) manifest)

  unfoldable pub pods_loop : KubectlOptions → List String → Run W (Unit {0})
  pods_loop options [] = pure tt
  pods_loop options (pod ∷ pods) = do
    kit.wait_until_pod_available options pod 60
    pods_loop options pods

  -- The chart of podinfo's repository, and the wait until it serves.
  unfoldable pub install_chart :
      KubectlOptions → String → List (String × String) → String → Run W (Unit {0})
  unfolding pods_loop
  install_chart options version values name = do
    kit.run_command (record {
      command = "helm";
      args =
          "repo" ∷ "add" ∷ "--force-update" ∷ "podinfo" ∷ "https://stefanprodan.github.io/podinfo"
          ∷ [];
      env = [];
    })
    kit.run_command (record { command = "helm"; args = "repo" ∷ "update" ∷ []; env = [] })
    kit.helm_install (record { kubectl_options = options; version = version; set_values = values })
        "podinfo/podinfo" "frontend"
    kit.wait_until_num_pods_created options ("app.kubernetes.io/name=" <> name) 1 60
    pods ← kit.list_pods options ("app.kubernetes.io/name=" <> name)
    pods_loop options pods
    kit.wait_until_service_available options name 60

  unfoldable pub install_podinfo : KubectlOptions → TestSettings → Run W (Unit {0})
  unfolding install_chart
  install_podinfo options settings =
      install_chart options "5.2.0" (("image.repository", settings.podinfo_image) ∷ [])
        "frontend-podinfo"

  -- A failed kubectl is logged, and what it printed is compared all the same.
  unfoldable pub health_status : KubectlOptions → String → Run W (WithError (List String))
  health_status options gslb_name = do
    out ← kit.run_kubectl_and_get_output_e options (
        "get" ∷ "gslb" ∷ gslb_name ∷ "-o" ∷ "custom-columns=SERVICESTATUS:.status.serviceHealth"
        ∷ "--no-headers" ∷ [])
    pure (out.0 ∷ [], none)

  unfoldable pub assert_gslb_status : KubectlOptions → String → String → Run W (Unit {0})
  unfolding health_status do_with_retry
  assert_gslb_status options gslb_name service_status = do
    result ←
        do_with_retry (kit.sleep 1) (health_status options gslb_name)
          ((("map[" <> service_status) <> "]") ∷ []) 60
    require_no_error result.1

  unfoldable pub create_gslb_with_healthy_app :
      KubectlOptions → TestSettings → String → String → String → Run W (Unit {0})
  unfolding create_gslb install_podinfo assert_gslb_status
  create_gslb_with_healthy_app options settings kube_resource_path gslb_name host_name = do
    create_gslb options settings kube_resource_path
    kit.wait_until_ingress_available options gslb_name 60
    ingress ← kit.get_ingress options gslb_name
    require_true (ingress.meta.name == gslb_name)
    install_podinfo options settings
    assert_gslb_status options gslb_name (host_name <> ":Healthy")

  unfoldable pub assert_gslb_spec : KubectlOptions → String → String → String → Run W Asserted
  assert_gslb_spec options gslb_name spec_path expected_value = do
    (actual_value, e) ← kit.run_kubectl_and_get_output_e options (
        "get"
        ∷ "gslb"
        ∷ gslb_name
        ∷ "-o"
        ∷ ("custom-columns=SERVICESTATUS:" <> spec_path)
        ∷ "--no-headers"
        ∷ [])
    require_no_error e
    pure (expected_value == actual_value)

  unfoldable pub assert_dns_endpoint_label : KubectlOptions → String → Run W (Unit {0})
  assert_dns_endpoint_label options label =
      kit.run_kubectl options ("get" ∷ "dnsendpoint" ∷ "-l" ∷ label ∷ [])

  unfoldable pub get_gslb_output : KubectlOptions → String → Run W (WithError (List String))
  get_gslb_output options gslb_name = do
    out ← kit.run_kubectl_and_get_output_e options ("get" ∷ "gslb" ∷ gslb_name ∷ [])
    pure (out.0 ∷ [], out.1)

  unfoldable pub assert_gslb_deleted : KubectlOptions → String → Run W Asserted
  unfolding get_gslb_output do_with_retry
  assert_gslb_deleted options gslb_name =
      let deletion_expected : List String =
        (("Error from server (NotFound): gslbs.k8gb.absa.oss \"" <> gslb_name) <> "\" not found")
        ∷ [] in
      (do
        result ←
            do_with_retry (kit.sleep 1) (get_gslb_output options gslb_name) deletion_expected 300
        require_no_error result.1
        pure (all_equal deletion_expected result.0))

  unfoldable pub wait_for_local_gslb :
      String → ℤ → String → List String → Run W (WithError (List String))
  unfolding dig do_with_retry
  wait_for_local_gslb dns_server dns_port host expected_result =
      do_with_retry (kit.sleep 1) (dig dns_server dns_port host []) expected_result 300

  -- A command in a pod of busybox.
  unfoldable pub run_busy_box_command : KubectlOptions → String → Run W (WithError String)
  run_busy_box_command options command = kit.run_command_and_get_output_e (record {
    command = "kubectl";
    args =
        "--context" ∷ options.context_name ∷ "-n" ∷ options.namespace ∷ "run" ∷ "-i" ∷ "--rm"
        ∷ "busybox" ∷ "--restart" ∷ "Never" ∷ "--image" ∷ "busybox" ∷ "--" ∷ "sh" ∷ "-c" ∷ command
        ∷ [];
    env = options.env;
  })
