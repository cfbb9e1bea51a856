-- ===== src/Controller/Endpoint/Served.antt =====
-- The answers that a cluster's published records give (controllers/dnsupdate.go).
use mathlib.Core.List.{flat_map}
use k8gb.Prelude.Dict.{Dict, lookup, NodupKeys}
use text.Mathlib.TextLemmas.{append_cancel_left}
use k8gb.Prelude.{
  ◌≡◌, refl, sym, ap, ◌∙◌, String, ◌<>◌, Bool, true, false, List, [], ◌∷◌, ◌++◌, ◌==◌, arith,
  eq_iff, eq_refl, inl, inr, is_empty, if◌then◌else◌, starts_with, some, none, Bool-cases, Option,
  ap,
}
use k8gb.Api.{Strategy}
use k8gb.Cluster.{Endpoint}
use k8gb.Controller.Endpoint.{
  final_targets, host_record, host_records, local_targets_record, sort_targets,
}
use k8gb.Controller.Endpoint.Report.{prefixed}
use k8gb.Controller.Endpoint.Targets.{published}

-- The targets of the first record of a name.
abbrev pub served : String → List Endpoint → List String
served name [] = []
served name (e ∷ es) = if e.dns_name == name then e.targets else served name es

-- The name under which a host's local targets are published.
abbrev pub local_name : String → String
local_name host = "localtargets-" <> host

module _ (s : Strategy) (host : String) where
  abbrev parts : Bool → List String → List String → List Endpoint
  parts healthy local final =
      (if healthy then local_targets_record s.dns_ttl_seconds host local ∷ [] else [])
      ++ (if is_empty final then [] else host_record s host final ∷ [])

  -- A name that the host's records do not have.
  parts_other :
      (name : String) (healthy : Bool) (local final : List String) (rest : List Endpoint)
      → (local_name host == name) ≡ false
      → (host == name) ≡ false
      → served name (parts healthy local final ++ rest) ≡ served name rest
  parts_other name true local [] rest h k = rw h refl
  parts_other name false local [] rest h k = refl
  parts_other name true local (f ∷ fs) rest h k = rw (h, k) refl
  parts_other name false local (f ∷ fs) rest h k = rw k refl

  parts_local :
      (healthy : Bool) (local final : List String) (rest : List Endpoint)
      → (host == local_name host) ≡ false
      → served (local_name host) (parts healthy local final ++ rest)
        ≡ (if healthy then local else served (local_name host) rest)
  parts_local true local final rest k = rw (eq_refl (local_name host)) refl
  parts_local false local [] rest k = refl
  parts_local false local (f ∷ fs) rest k = rw k refl

  parts_host :
      (healthy : Bool) (local final : List String) (rest : List Endpoint)
      → (local_name host == host) ≡ false
      → served host (parts healthy local final ++ rest)
        ≡ (if is_empty final then served host rest else final)
  parts_host true local [] rest k = rw k refl
  parts_host false local [] rest k = refl
  parts_host true local (f ∷ fs) rest k = rw (k, eq_refl host) refl
  parts_host false local (f ∷ fs) rest k = rw (eq_refl host) refl

starts_apart :
    (host name : String)
    → starts_with name "localtargets" ≡ false
    → (local_name host == name) ≡ false
starts_apart host name h = elim (Bool-cases (local_name host == name)) [
  | inl e ↦
      let same =
        sym (prefixed host)
        ∙ ap (λ t. starts_with t "localtargets") ((eq_iff (local_name host) name).0 e)
        ∙ h in
      absurd (ground arith)
  | inr e ↦ e
]

local_name-eq : (host name : String) → (local_name host == local_name name) ≡ (host == name)
local_name-eq host name = ground (
  arith,
  eq_iff host name,
  eq_iff (local_name host) (local_name name),
  append_cancel_left "localtargets-" host name,
)

-- What the records of all hosts answer, from the health that is reported of one.
abbrev own_local : List String → Option String → List String
own_local local none = []
own_local local (some health) = published (health == "Healthy") local

own_or_none : (xs : List String) → (if is_empty xs then [] else xs) ≡ xs
own_or_none [] = refl
own_or_none (x ∷ xs) = refl

lookup-none :
    (k j v : String) (d : Dict String)
    → lookup k ((j, v) ∷ d) ≡ none
    → ((j == k) ≡ false) × (lookup k d ≡ none)
unfolding lookup
lookup-none k j v d h = ground arith

module _ (s : Strategy) (cluster : String) (table : String → List String)
    (local : List String) where
  abbrev pub records : (String × String) → List Endpoint
  records (host, health) =
      host_records s cluster host (health == "Healthy") local (sort_targets (table host))

  abbrev own_final : String → Option String → List String
  own_final host none = []
  own_final host (some health) =
      final_targets s cluster (health == "Healthy") local (sort_targets (table host))

  pub served-local_name :
      (host : String) (entries : Dict String)
      → NodupKeys entries
      → lookup (local_name host) entries ≡ none
      → served (local_name host) (flat_map records entries) ≡ own_local local (lookup host entries)
  unfolding flat_map lookup host_records
  served-local_name host [] n h = refl
  served-local_name host ((name, health) ∷ rest) (fresh, n) h =
      let (apart, h') = lookup-none (local_name host) name health rest h in
      let final = final_targets s cluster (health == "Healthy") local (sort_targets (table name)) in
      elim (Bool-cases (name == host)) [
        | inl e ↦
            let p = (eq_iff name host).0 e in
            let absent = rw (sym p) at (served-local_name host rest n h') in
            rw (e, sym p)
              (parts_local s name (health == "Healthy") local final (flat_map records rest)
                  (rw (sym p) at apart)
                ∙ rw (absent ∙ ap (own_local local) fresh) refl)
        | inr e ↦ rw e (
            parts_other s name (local_name host) (health == "Healthy") local final
              (flat_map records rest) (local_name-eq name host ∙ e) apart
            ∙ served-local_name host rest n h')
      ]

  pub served_host :
      (host : String) (entries : Dict String)
      → NodupKeys entries
      → starts_with host "localtargets" ≡ false
      → served host (flat_map records entries) ≡ own_final host (lookup host entries)
  unfolding flat_map lookup host_records
  served_host host [] n h = refl
  served_host host ((name, health) ∷ rest) (fresh, n) h =
      let final = final_targets s cluster (health == "Healthy") local (sort_targets (table name)) in
      elim (Bool-cases (name == host)) [
        | inl e ↦
            let p = (eq_iff name host).0 e in
            let absent = rw (sym p) at (served_host host rest n h) in
            rw (e, sym p)
              (parts_host s name (health == "Healthy") local final (flat_map records rest)
                  (starts_apart name name (rw (sym p) at h))
                ∙ rw (absent ∙ ap (own_final name) fresh) (own_or_none final))
        | inr e ↦ rw e (
            parts_other s name host (health == "Healthy") local final (flat_map records rest)
              (starts_apart name host h) e
            ∙ served_host host rest n h)
      ]
