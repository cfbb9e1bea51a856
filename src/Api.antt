-- ===== src/Api.antt =====
-- api/v1beta1/gslb_types.go and upstream_types.go: the Gslb custom resource. The parts of
-- Kubernetes' own types (ObjectMeta, IngressBackend, IngressTLS, HTTPIngressRuleValue) are the
-- fields that the operator reads or copies. Nil and empty slices and maps are not told apart.
pub mod V1Beta1
pub mod Conversion
pub mod Equality
use k8gb.Prelude.{String, Bool, Option, List}
use k8gb.Prelude.Int.{ℤ}
use k8gb.Prelude.Dict.{Dict}

-- What the operator uses of Kubernetes' object metadata. `owner` is the owning controller.
pub record ObjectMeta : Type 0 where
  pub name : String
  pub namespace : String
  pub annotations : Dict String
  pub labels : Dict String
  pub finalizers : List String
  pub marked_for_deletion : Bool
  pub owner : Option String

pub record ObjectKey : Type 0 where
  pub name : String
  pub namespace : String

pub record IngressBackend : Type 0 where
  pub service_name : String
  pub service_port : String

pub record HttpIngressPath : Type 0 where
  pub path : String
  pub backend : IngressBackend

pub record IngressTls : Type 0 where
  pub hosts : List String
  pub secret_name : String

pub record Strategy : Type 0 where
  pub kind : String
  pub primary_geo_tag : String
  pub dns_ttl_seconds : ℤ
  pub split_brain_threshold_seconds : ℤ

-- `http` is the embedded `IngressRuleValue`: a pointer, so it may be nil.
pub record IngressRule : Type 0 where
  pub host : String
  pub http : Option (List HttpIngressPath)

pub record IngressSpec : Type 0 where
  pub ingress_class_name : Option String
  pub backend : Option IngressBackend
  pub tls : List IngressTls
  pub rules : List IngressRule

pub record GslbSpec : Type 0 where
  pub ingress : IngressSpec
  pub strategy : Strategy

pub record GslbStatus : Type 0 where
  pub service_health : Dict String
  pub healthy_records : Dict (List String)
  pub geo_tag : String

pub record Gslb : Type 0 where
  pub meta : ObjectMeta
  pub spec : GslbSpec
  pub status : GslbStatus

abbrev pub key_of : ObjectMeta → ObjectKey
key_of m = record { name = m.name; namespace = m.namespace }
