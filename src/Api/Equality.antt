-- ===== src/Api/Equality.antt =====
-- `reflect.DeepEqual` on specifications. It goes by the values behind pointers, as equality does.
use native.Mathlib.Decide.{ℕ_discrete}
use k8gb.Prelude.Text.{text_discrete}
use k8gb.Api.{GslbSpec}
use k8gb.Api.V1Beta1

unfoldable pub GslbSpec-discrete : Discrete GslbSpec
unfolding text_discrete ℕ_discrete
GslbSpec-discrete = hlevel (text_discrete, ℕ_discrete)

unfoldable pub IngressSpec-discrete : Discrete V1Beta1.IngressSpec
unfolding text_discrete
IngressSpec-discrete = hlevel text_discrete
