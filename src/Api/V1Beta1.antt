-- ===== src/Api/V1Beta1.antt =====
-- The ingress specification of k8s.io/api/networking/v1beta1, which is a type of its own: the
-- fields that api/v1beta1/upstream_types.go converts.
use k8gb.Prelude.{String, Option, List}
use k8gb.Api.{HttpIngressPath, IngressBackend, IngressTls}

pub record IngressRule : Type 0 where
  pub host : String
  pub http : Option (List HttpIngressPath)

pub record IngressSpec : Type 0 where
  pub ingress_class_name : Option String
  pub backend : Option IngressBackend
  pub tls : List IngressTls
  pub rules : List IngressRule
