-- ===== src/Depresolver/Resolve/Laws.antt =====
-- Lemmas on `resolve_operator_config` (controllers/depresolver/depresolver_config.go).
use k8gb.Prelude.{◌≡◌, refl, Option, none, some}
use k8gb.Depresolver.{Config, DependencyResolver}
use k8gb.Depresolver.Resolve.{Environment, resolve_operator_config, configure}

configured :
    (first later : Environment) (dr : DependencyResolver) (c : Option Config)
    → dr.config ≡ c
    → configure later (configure first c dr).config (configure first c dr) ≡ configure first c dr
configured first later dr none e = refl
configured first later dr (some c) e = rw e refl

-- The configuration that the first call reads stays, with its error, whatever the environment is
-- at a later call.
resolve_operator_config_again :
    (first later : Environment) (dr : DependencyResolver)
    → resolve_operator_config later (resolve_operator_config first dr)
      ≡ resolve_operator_config first dr
unfolding resolve_operator_config
resolve_operator_config_again first later dr = configured first later dr dr.config refl
