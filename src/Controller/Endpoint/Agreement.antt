-- ===== src/Controller/Endpoint/Agreement.antt =====
-- Lemmas on the answers of two clusters (controllers/dnsupdate.go).
use mathlib.Core.List.{Perm, perm_append_comm}
use mathlib.Core.List.Perm
use k8gb.Prelude.{
  ◌≡◌, refl, ◌≢◌, String, Bool, true, false, List, [], ◌∷◌, eq_iff, arith, inl, inr, sym, ◌∙◌, ◌⊎◌,
  is_empty, if◌then◌else◌,
}
use k8gb.Prelude.Sort.{sort, sort-perm}
use k8gb.Prelude.Text.{ltb_text}
use k8gb.Api.{Strategy}
use k8gb.Controller.Endpoint.{final_targets, sort_targets}
use k8gb.Controller.Endpoint.Targets.{IsKnown, published, shares_load, final_targets_of_shared}

-- The targets of a cluster, from its own addresses and from what the other one publishes.
abbrev pub answer : Strategy → String → Bool → List String → Bool → List String → List String
answer s cluster healthy local other_healthy other_local =
    final_targets s cluster healthy local (sort_targets (published other_healthy other_local))

perm-sort_targets : (xs : List String) → Perm (sort_targets xs) xs
unfolding sort_targets
perm-sort_targets xs = sort-perm ltb_text xs

sort_targets-ne-nil : (xs : List String) → xs ≢ [] → sort_targets xs ≢ []
sort_targets-ne-nil xs h e = h (Perm.eq-nil (Perm.symm (rw e at (perm-sort_targets xs))))

failover_primary :
    (s : Strategy) (cluster : String) (healthy : Bool) (local external : List String)
    → s.kind ≡ "failover"
    → s.primary_geo_tag ≡ cluster
    → final_targets s cluster healthy local external ≡ (if healthy then local else external)
unfolding final_targets
failover_primary s cluster true local [] k p = refl
failover_primary s cluster false local [] k p = refl
failover_primary s cluster true local (e ∷ es) k p = rw (k, (eq_iff s.primary_geo_tag cluster).1 p)
failover_primary s cluster false local (e ∷ es) k p = rw (k, (eq_iff s.primary_geo_tag cluster).1 p)

failover_other :
    (s : Strategy) (cluster : String) (healthy : Bool) (local external : List String)
    → s.kind ≡ "failover"
    → s.primary_geo_tag ≢ cluster
    → final_targets s cluster healthy local external
      ≡ (if is_empty external then published healthy local else external)
unfolding final_targets
failover_other s cluster true local [] k p = refl
failover_other s cluster false local [] k p = refl
failover_other s cluster healthy local (e ∷ es) k p =
    rw k (ground (arith, eq_iff s.primary_geo_tag cluster))

shared_agree :
    (s : Strategy) (primary other : String) (ha hb : Bool) (la lb : List String)
    → shares_load s ≡ true
    → Perm (answer s primary ha la hb lb) (answer s other hb lb ha la)
shared_agree s primary other ha hb la lb h =
    rw
      (
        final_targets_of_shared s primary ha la (sort_targets (published hb lb)) h,
        final_targets_of_shared s other hb lb (sort_targets (published ha la)) h,
      )
      (Perm.trans (Perm.append_left (published ha la) (perm-sort_targets (published hb lb))) (
        Perm.trans (perm_append_comm (published ha la) (published hb lb))
          (Perm.append_left (published hb lb) (Perm.symm (perm-sort_targets (published ha la))))))

empty_cases : (xs : List String) → (xs ≡ []) ⊎ (is_empty xs ≡ false)
empty_cases [] = inl refl
empty_cases (x ∷ xs) = inr refl

-- The two answers of a failover, once the tests are computed.
perm_failover :
    (primary_healthy : Bool) (local other : List String)
    → local ≢ []
    → Perm (if primary_healthy then local else sort_targets other) (
        if is_empty (sort_targets (published primary_healthy local))
        then other
        else sort_targets (published primary_healthy local))
unfolding sort
perm_failover true local other h = elim (empty_cases (sort_targets local)) [
  | inl e ↦ absurd (sort_targets-ne-nil local h e)
  | inr e ↦ rw e (Perm.symm (perm-sort_targets local))
]
perm_failover false local other h = unfold sort_targets in perm-sort_targets other

-- Take two clusters of different geo tags with a Gslb of a known strategy, the first one, which has
-- an address, being its primary cluster. Each has the published targets of the other one as its
-- external targets. Then, whichever of the two is healthy, both give a host the same targets, up to
-- their order.
pub clusters_agree :
    (s : Strategy) (primary other : String) (ha hb : Bool) (la lb : List String)
    → IsKnown s
    → s.primary_geo_tag ≡ primary
    → primary ≢ other
    → la ≢ []
    → Perm (answer s primary ha la hb lb) (answer s other hb lb ha la)
clusters_agree s primary other ha hb la lb (inl k) p d h =
    shared_agree s primary other ha hb la lb (rw k refl)
clusters_agree s primary other ha hb la lb (inr (inl k)) p d h =
    shared_agree s primary other ha hb la lb (rw k refl)
clusters_agree s primary other ha hb la lb (inr (inr k)) p d h =
    rw
      (
        failover_primary s primary ha la (sort_targets (published hb lb)) k p,
        failover_other s other hb lb (sort_targets (published ha la)) k (λ e. d (sym p ∙ e)),
      )
      (perm_failover ha la (published hb lb) h)
