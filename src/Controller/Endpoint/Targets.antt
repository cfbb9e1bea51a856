-- ===== src/Controller/Endpoint/Targets.antt =====
-- Lemmas on `final_targets` (controllers/dnsupdate.go).
use mathlib.Core.List.{append-nil}
use k8gb.Prelude.{
  ◌≡◌, refl, sym, ◌≢◌, ◌⊎◌, String, Bool, true, false, not, ◌&&◌, ◌||◌, List, [], ◌∷◌, ◌++◌, ◌==◌,
  eq_iff, is_empty, arith, if◌then◌else◌,
}
use k8gb.Api.{Strategy}
use k8gb.Controller.Endpoint.{final_targets}
use k8gb.Controller.Finalizers.{contains}

contains-append :
    (xs ys : List String) (t : String) → contains (xs ++ ys) t ≡ (contains xs t || contains ys t)
unfolding contains
contains-append [] ys t = refl
contains-append (x ∷ xs) ys t = ground (arith, contains-append xs ys t)

abbrev pub is_failover : Strategy → Bool
is_failover s = s.kind == "failover"

abbrev pub shares_load : Strategy → Bool
shares_load s = s.kind == "roundRobin" || s.kind == "geoip"

-- This cluster's own targets are served while the host is healthy here, unless another cluster is
-- the primary one of a failover and external targets are known.
abbrev pub serves_own : Strategy → String → Bool → List String → Bool
serves_own s cluster healthy external =
    healthy && (not (is_failover s) || s.primary_geo_tag == cluster || is_empty external)

-- External targets are served when the load is shared, and in a failover unless this cluster is
-- the primary one and the host is healthy here.
abbrev pub serves_external : Strategy → String → Bool → Bool
serves_external s cluster healthy =
    shares_load s || is_failover s && not (s.primary_geo_tag == cluster && healthy)

-- An address is among the final targets exactly if it is one of the cluster's own and these are
-- served, or an external one and those are served.
pub contains-final_targets :
    (s : Strategy) (cluster : String) (healthy : Bool) (local external : List String) (t : String)
    → contains (final_targets s cluster healthy local external) t ≡ (
        serves_own s cluster healthy external && contains local t
        || serves_external s cluster healthy && contains external t)
unfolding final_targets contains
contains-final_targets s cluster true local [] t = ground arith
contains-final_targets s cluster false local [] t = ground arith
contains-final_targets s cluster true local (e ∷ es) t = ground (
  arith,
  contains-append local (e ∷ es) t,
  eq_iff s.kind "roundRobin",
  eq_iff s.kind "geoip",
  eq_iff s.kind "failover",
  eq_iff "geoip" "failover",
  eq_iff "roundRobin" "failover",
)
contains-final_targets s cluster false local (e ∷ es) t = ground (
  arith,
  eq_iff s.kind "roundRobin",
  eq_iff s.kind "geoip",
  eq_iff s.kind "failover",
  eq_iff "geoip" "failover",
  eq_iff "roundRobin" "failover",
)

-- The strategies that the operator knows.
abbrev pub IsKnown : Strategy → Type 0
IsKnown s = (s.kind ≡ "roundRobin") ⊎ (s.kind ≡ "geoip") ⊎ (s.kind ≡ "failover")

-- With a strategy of a known type, a host that is healthy here or has external targets keeps at
-- least one target, as long as this cluster has an address.
pub final_targets-ne-nil :
    (s : Strategy) (cluster : String) (healthy : Bool) (local external : List String)
    → IsKnown s
    → local ≢ []
    → (healthy ≡ true) ⊎ (external ≢ [])
    → final_targets s cluster healthy local external ≢ []
unfolding final_targets
final_targets-ne-nil s cluster true [] external known some_local live = absurd (some_local refl)
final_targets-ne-nil s cluster true (l ∷ ls) [] known some_local live = λ e. cc
final_targets-ne-nil s cluster true (l ∷ ls) (e ∷ es) known some_local live = ground arith
final_targets-ne-nil s cluster false local [] known some_local live = ground arith
final_targets-ne-nil s cluster false local (e ∷ es) known some_local live =
    ground (arith, eq_iff s.kind "roundRobin", eq_iff s.kind "geoip", eq_iff s.kind "failover")

-- What a cluster publishes for a host under the name that the other clusters ask for.
abbrev pub published : Bool → List String → List String
published healthy local = if healthy then local else []

pub final_targets_of_shared :
    (s : Strategy) (cluster : String) (healthy : Bool) (local external : List String)
    → shares_load s ≡ true
    → final_targets s cluster healthy local external ≡ published healthy local ++ external
unfolding final_targets
final_targets_of_shared s cluster true local [] h = sym (append-nil local)
final_targets_of_shared s cluster false local [] h = refl
final_targets_of_shared s cluster healthy local (e ∷ es) h = ground arith
