-- ===== src/Api/Conversion.antt =====
-- `FromV1Beta1IngressSpec` and `ToV1Beta1IngressSpec` of api/v1beta1/upstream_types.go.
use k8gb.Prelude.{◌≡◌, refl, ap, List, [], ◌∷◌}
use k8gb.Api.{IngressSpec, IngressRule}
use k8gb.Api.V1Beta1

-- The loops over the rules.
from_rules : List V1Beta1.IngressRule → List IngressRule
from_rules [] = []
from_rules (v ∷ vs) = record { host = v.host; http = v.http } ∷ from_rules vs

to_rules : List IngressRule → List V1Beta1.IngressRule
to_rules [] = []
to_rules (v ∷ vs) = record { host = v.host; http = v.http } ∷ to_rules vs

unfoldable pub from_v1beta1_ingress_spec : V1Beta1.IngressSpec → IngressSpec
unfolding from_rules
from_v1beta1_ingress_spec s = record {
  ingress_class_name = s.ingress_class_name;
  backend = s.backend;
  tls = s.tls;
  rules = from_rules s.rules;
}

unfoldable pub to_v1beta1_ingress_spec : IngressSpec → V1Beta1.IngressSpec
unfolding to_rules
to_v1beta1_ingress_spec s = record {
  ingress_class_name = s.ingress_class_name;
  backend = s.backend;
  tls = s.tls;
  rules = to_rules s.rules;
}

from_rules-to_rules : (rules : List IngressRule) → from_rules (to_rules rules) ≡ rules
unfolding from_rules to_rules
from_rules-to_rules [] = refl
from_rules-to_rules (r ∷ rs) = ap (λ l. r ∷ l) (from_rules-to_rules rs)

to_rules-from_rules : (rules : List V1Beta1.IngressRule) → to_rules (from_rules rules) ≡ rules
unfolding from_rules to_rules
to_rules-from_rules [] = refl
to_rules-from_rules (r ∷ rs) = ap (λ l. r ∷ l) (to_rules-from_rules rs)

-- The two conversions undo each other: a Gslb made from an Ingress specification yields that
-- specification again, and the Ingress made from a Gslb loses none of its specification.
conversions_inverse :
    (s : IngressSpec) (t : V1Beta1.IngressSpec)
    → (from_v1beta1_ingress_spec (to_v1beta1_ingress_spec s) ≡ s)
      × (to_v1beta1_ingress_spec (from_v1beta1_ingress_spec t) ≡ t)
unfolding from_v1beta1_ingress_spec to_v1beta1_ingress_spec
conversions_inverse s t = (
  ap (λ l. record s { rules = l }) (from_rules-to_rules s.rules),
  ap (λ l. record t { rules = l }) (to_rules-from_rules t.rules),
)
