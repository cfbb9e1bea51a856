-- ===== src/Terratest.antt =====
-- terratest/utils: what the end-to-end tests do to clusters. terratest's own functions (kubectl,
-- helm, the shell) and gopkg's `Dig` are the record `Kit` of actions, and so are those of the
-- standard library that read files. A call that fails the test (`t.FailNow`, `log.Fatal`) ends it,
-- as a panic does. Log lines and the `testing.T` are left out.
pub mod Retry
pub mod Checks
pub mod Workflow
pub mod Instance
use k8gb.Prelude.{ℕ, String, Bool, true, false, Option, none, some, List}
use k8gb.Prelude.Dict.{Dict}
use k8gb.Prelude.Int.{ℤ}
use k8gb.Effect.{Error, Outcome, Run, pure, crash}
use k8gb.Cluster.{Ingress}

pub record TestSettings : Type 0 where
  pub dns_zone : String
  pub primary_geo_tag : String
  pub secondary_geo_tag : String
  pub dns_server1 : String
  pub port1 : ℤ
  pub dns_server2 : String
  pub port2 : ℤ
  pub cluster1 : String
  pub cluster2 : String
  pub podinfo_image : String

-- terratest's types, with the fields that the tests set or read.
pub record KubectlOptions : Type 0 where
  pub context_name : String
  pub namespace : String
  pub env : Dict String

pub record Command : Type 0 where
  pub command : String
  pub args : List String
  pub env : Dict String

pub record HelmOptions : Type 0 where
  pub kubectl_options : KubectlOptions
  pub version : String
  pub set_values : Dict String

-- What a Go function returns beside its error.
abbrev pub WithError : Type 0 → Type 0
WithError A = A × Option Error

pub record TestAppResult : Type 0 where
  pub message : String
  pub version : String
  pub color : String
  pub pod : String
  pub body : String

-- Numbers are counts of retries, a second apart. `create_namespace` and those after it end the test
-- where they fail. `list_pods` gives the pods' names. `unmarshal_name` is the name in the metadata of
-- a manifest in YAML, `unmarshal_app` decodes JSON into a result.
pub record Kit (W : Type 0) : Type 0 where
  pub new_kubectl_options : String → String → String → KubectlOptions
  pub unique_id : Run W String
  pub abs : String → Run W (WithError String)
  pub read_file : String → Run W (WithError String)
  pub unmarshal_name : String → WithError String
  pub unmarshal_app : String → TestAppResult → WithError TestAppResult
  pub sleep : ℕ → Run W (Unit {0})
  pub dig : String → String → Run W (WithError (List String))
  pub run_command_and_get_output_e : Command → Run W (WithError String)
  pub run_kubectl_and_get_output_e : KubectlOptions → List String → Run W (WithError String)
  pub create_namespace : KubectlOptions → String → Run W (Unit {0})
  pub delete_namespace : KubectlOptions → String → Run W (Unit {0})
  pub run_command : Command → Run W (Unit {0})
  pub run_command_and_get_output : Command → Run W String
  pub run_kubectl : KubectlOptions → List String → Run W (Unit {0})
  pub kubectl_apply : KubectlOptions → String → Run W (Unit {0})
  pub kubectl_apply_from_string : KubectlOptions → String → Run W (Unit {0})
  pub get_ingress : KubectlOptions → String → Run W Ingress
  pub wait_until_ingress_available : KubectlOptions → String → ℕ → Run W (Unit {0})
  pub wait_until_num_pods_created : KubectlOptions → String → ℕ → ℕ → Run W (Unit {0})
  pub list_pods : KubectlOptions → String → Run W (List String)
  pub wait_until_pod_available : KubectlOptions → String → ℕ → Run W (Unit {0})
  pub wait_until_service_available : KubectlOptions → String → ℕ → Run W (Unit {0})
  pub helm_install : HelmOptions → String → String → Run W (Unit {0})

module _ {W : Type 0} where
  -- `require.NoError(t, err)`
  abbrev pub require_no_error : Option Error → Run W (Unit {0})
  require_no_error none = pure tt
  require_no_error (some e) = crash

  -- `require.True(t, b)`
  abbrev pub require_true : Bool → Run W (Unit {0})
  require_true true = pure tt
  require_true false = crash
