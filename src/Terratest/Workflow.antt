-- ===== src/Terratest/Workflow.antt =====
-- terratest/utils/extensions.go: `Workflow`, which is built up step by step and then started. Its
-- methods change the workflow and return it; here they return the new one.
pub mod Laws
use k8gb.Prelude.{
  String, ◌<>◌, Bool, true, false, not, Option, none, some, List, [], ◌∷◌, ◌==◌, if◌then◌else◌,
}
use k8gb.Prelude.Int.{ℤ, ltb_ℤ, pos}
use k8gb.Prelude.Text.{to_lower}
use k8gb.Effect.{Error, errorf, Run, pure, ◌>>=◌, ◌>>◌}
use k8gb.Terratest.{Kit, KubectlOptions, WithError, require_true}
use k8gb.Terratest.Checks.{install_chart}

pub record WorkflowSettings : Type 0 where
  pub ingress_resource_path : String
  pub gslb_resource_path : String
  pub ingress_name : String

pub record TestApp : Type 0 where
  pub name : String
  pub message : String
  pub is_running : Bool
  pub is_installed : Bool

-- `is_installed` is never set.
pub record TestGslb : Type 0 where
  pub name : String
  pub host : String
  pub port : ℤ

pub record Workflow : Type 0 where
  pub error : Option Error
  pub namespace : String
  pub cluster : String
  pub k8s_options : KubectlOptions
  pub settings : WorkflowSettings
  pub namespace_created : Bool
  pub test_app : TestApp
  pub gslb : TestGslb

pub record Instance : Type 0 where
  pub w : Workflow

-- `if err != nil { w.error = err }`
abbrev pub with_error : Option Error → Workflow → Workflow
with_error none w = w
with_error (some e) w = record w { error = some e }

abbrev pub error_if : Bool → String → Option Error
error_if true format = some (errorf format [])
error_if false format = none

-- A later error takes the place of an earlier one.
abbrev pub last_error : Option Error → Option Error → Option Error
last_error e none = e
last_error e (some f) = some f

-- An error, with a text and another argument put before it.
abbrev pub wrapped : String → String → Option Error → Option Error
wrapped format argument none = none
wrapped format argument (some e) = some (errorf format (argument ∷ []))

abbrev named_or_empty : String → Option Error → String
named_or_empty name none = name
named_or_empty name (some e) = ""

module _ {W : Type 0} (kit : Kit W) where
  -- The new workflow, once an identifier was found for it.
  unfoldable pub fresh_workflow : String → ℤ → String → Workflow
  unfolding to_lower
  fresh_workflow cluster port id =
      let namespace = "k8gb-test-" <> to_lower id in
      record {
        error =
            last_error (error_if (cluster == "") "empty cluster")
              (error_if (ltb_ℤ port (pos 1000)) "invalid port");
        namespace = namespace;
        cluster = cluster;
        k8s_options = kit.new_kubectl_options cluster "" namespace;
        settings = record {
          ingress_resource_path = "";
          gslb_resource_path = "";
          ingress_name = "";
        };
        namespace_created = false;
        test_app = record { name = ""; message = ""; is_running = false; is_installed = false };
        gslb = record { name = ""; host = ""; port = port };
      }

  unfoldable pub new_workflow : String → ℤ → Run W Workflow
  unfolding fresh_workflow
  new_workflow cluster port = do id ← kit.unique_id; pure (fresh_workflow cluster port id)

  unfoldable pub with_ingress : String → Workflow → Workflow
  with_ingress path w =
      let v = with_error (error_if (path == "") "empty ingress resource path") w in
      record v { settings = record v.settings { ingress_resource_path = path } }

  -- The name of the manifest at a path, which is empty beside an error.
  abbrev pub name_in : String → String → Option Error → WithError String
  name_in path file (some e) = ("", some (errorf "parse %s; %s" (path ∷ [])))
  name_in path file none =
      let (name, e) = kit.unmarshal_name file in
      (named_or_empty name e, wrapped "unmarshall %s; %s" path e)

  unfoldable pub get_manifest_name : String → Run W (WithError String)
  get_manifest_name path = do (file, e) ← kit.read_file path; pure (name_in path file e)

  -- The workflow with a Gslb, whose path was made absolute and whose manifest was read, each with
  -- its error.
  unfoldable pub given_gslb :
      String → String → WithError String → WithError String → Workflow → Workflow
  given_gslb path host (absolute, e) (name, e') w =
      let v = with_error e' (
        with_error (wrapped "reading %s; %s" path e) (
          with_error (error_if (path == "") "empty gslb resource path")
            (with_error (error_if (host == "") "empty gslb host") w))) in
      record v {
        settings = record v.settings { gslb_resource_path = absolute };
        gslb = record v.gslb { name = name; host = host };
      }

  unfoldable pub with_gslb : String → String → Workflow → Run W Workflow
  unfolding get_manifest_name given_gslb
  with_gslb path host w = do
    absolute ← kit.abs path
    name ← get_manifest_name absolute.0
    pure (given_gslb path host absolute name w)

  unfoldable pub with_test_app : String → Workflow → Workflow
  with_test_app ui_message w = record w {
    test_app = record w.test_app {
      is_installed = true;
      name = "frontend-podinfo";
      message = ui_message;
    };
  }

  -- The Gslb, if there is one.
  unfoldable pub start_gslb : Workflow → Run W Workflow
  start_gslb w =
      if not (w.settings.gslb_resource_path == "")
      then (do
        kit.kubectl_apply w.k8s_options w.settings.gslb_resource_path
        kit.wait_until_ingress_available w.k8s_options w.gslb.name 60
        ingress ← kit.get_ingress w.k8s_options w.gslb.name
        require_true (ingress.meta.name == w.gslb.name)
        pure (record w { settings = record w.settings { ingress_name = w.gslb.name } }))
      else pure w

  -- The application, if there is one.
  unfoldable pub start_app : Workflow → Run W Workflow
  unfolding install_chart
  start_app w =
      if w.test_app.is_installed
      then (do
        install_chart kit w.k8s_options "5.1.1" (("ui.message", w.test_app.message) ∷ [])
            w.test_app.name
        pure (record w { test_app = record w.test_app { is_running = true } }))
      else pure w

  -- `if w.error != nil { return nil, w.error }`
  abbrev unless_error : Option Error → Run W Instance → Run W (WithError (Option Instance))
  unless_error (some e) run = pure (none, some e)
  unless_error none run = do i ← run; pure (some i, none)

  -- The path of an ingress has no effect.
  unfoldable pub start : Workflow → Run W (WithError (Option Instance))
  unfolding start_gslb start_app
  start w = unless_error w.error (do
    kit.create_namespace w.k8s_options w.namespace
    v ← start_gslb (record w { namespace_created = true })
    u ← start_app v
    pure (record { w = u }))
