-- ===== src/Depresolver/Spec.antt =====
-- controllers/depresolver/depresolver_spec.go: defaults and validation of a Gslb's specification.
pub mod Laws
use mathlib.Core.Logic.{ite}
use k8gb.Prelude.{Option, none, some, if◌then◌else◌, []}
use k8gb.Prelude.Int.{ℤ, pos, eq_ℤ}
use k8gb.Effect.{Error, errorf, Run, pure, handle}
use k8gb.Api.{Gslb, GslbSpec, Strategy}
use k8gb.Api.Equality.{GslbSpec-discrete}
use k8gb.Cluster.{Client}
use k8gb.Depresolver.{DependencyResolver}
use k8gb.Depresolver.Validation.{◌⨾◌}
use k8gb.Depresolver.Validator.{field, int_value, is_higher_or_equal_to_zero}

abbrev default_if_zero : ℤ → ℤ → ℤ
default_if_zero predefined v = if eq_ℤ v (pos 0) then predefined else v

-- The values of `predefinedStrategy` where the specification has none.
unfoldable pub with_defaults : Strategy → Strategy
with_defaults s = record s {
  dns_ttl_seconds = default_if_zero (pos 30) s.dns_ttl_seconds;
  split_brain_threshold_seconds = default_if_zero (pos 300) s.split_brain_threshold_seconds;
}

unfoldable pub validate_spec : Strategy → Option Error
unfolding field is_higher_or_equal_to_zero
validate_spec s =
    (is_higher_or_equal_to_zero (field "DNSTtlSeconds" (int_value s.dns_ttl_seconds))).err
    ⨾ (is_higher_or_equal_to_zero
        (field "SplitBrainThresholdSeconds" (int_value s.split_brain_threshold_seconds))).err

-- What the call leaves in the resolver and in the Gslb, and the error that it returns.
pub record Resolved : Type 0 where
  pub resolver : DependencyResolver
  pub gslb : Gslb
  pub error : Option Error

abbrev pub defaulted : Gslb → Gslb
defaulted g = record g { spec = record g.spec { strategy = with_defaults g.spec.strategy } }

-- `dr.errorSpec = e; dr.spec = gslb.Spec; return dr.errorSpec`
abbrev pub settled : DependencyResolver → Option Error → Gslb → Resolved
settled dr e g = record {
  resolver = record dr { error_spec = e; spec = g.spec };
  gslb = g;
  error = e;
}

module _ {W : Type 0} where
  abbrev pub save : Client W → DependencyResolver → Gslb → Option Error → Run W Resolved
  save client dr g (some e) = pure (settled dr (some e) g)
  save client dr g none =
      handle (client.update_gslb g) (λ g'. pure (settled dr none g'))
        (λ e. pure (settled dr (some e) g))

  -- A nil client is `none`.
  unfoldable pub resolve_gslb_spec : DependencyResolver → Gslb → Option (Client W) → Run W Resolved
  unfolding with_defaults validate_spec
  resolve_gslb_spec dr g none =
      pure (record { resolver = dr; gslb = g; error = some (errorf "nil client" []) })
  resolve_gslb_spec dr g (some client) =
      ite (GslbSpec-discrete g.spec dr.spec)
        (pure (record { resolver = dr; gslb = g; error = dr.error_spec }))
        (save client dr (defaulted g) (validate_spec (defaulted g).spec.strategy))
