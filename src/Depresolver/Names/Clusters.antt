-- ===== src/Depresolver/Names/Clusters.antt =====
-- Lemmas on `GetExternalClusterNSNames` (controllers/depresolver/depresolver_config.go).
use mathlib.Core.List.{append_assoc, append-nil}
use k8gb.Prelude.{
  ◌≡◌, ◌≢◌, refl, sym, ap, ◌∙◌, arith, String, none, List, [], ◌∷◌, ◌++◌, map, All, eq_iff,
}
use k8gb.Prelude.Dict.{Dict, insert, insert_fresh, lookup, lookup-insert, values}
use k8gb.Depresolver.{Config}
use k8gb.Depresolver.Names.{get_external_cluster_ns_names, get_ns_name, ns_names}
use k8gb.Depresolver.Validator.Unique.{Distinct}

module _ (c : Config) where
  abbrev pub ns_name : String → String
  ns_name tag = get_ns_name tag c.dns_zone c.edge_dns_zone c.edge_dns_server

  abbrev pub named : String → String × String
  named tag = (tag, ns_name tag)

  abbrev Fresh : Dict String → List String → Type 0
  Fresh m = All (λ t. lookup t m ≡ none)

  Fresh-insert :
      (t v : String) (m : Dict String) (ts : List String)
      → All (λ y. t ≢ y) ts
      → Fresh m ts
      → Fresh (insert t v m) ts
  Fresh-insert t v m [] _ _ = tt
  Fresh-insert t v m (u ∷ us) (d, ds) (f, fs) =
      (ground (arith, lookup-insert u t v m, eq_iff t u), Fresh-insert t v m us ds fs)

  ns_names-Distinct :
      (tags : List String) (m : Dict String)
      → Distinct tags
      → Fresh m tags
      → ns_names c tags m ≡ m ++ map named tags
  unfolding ns_names
  ns_names-Distinct [] m _ _ = sym (append-nil m)
  ns_names-Distinct (t ∷ ts) m (d, ds) (f, fs) =
      ns_names-Distinct ts (insert t (ns_name t) m) ds (Fresh-insert t (ns_name t) m ts d fs)
      ∙ ap (λ e. e ++ map named ts) (insert_fresh t (ns_name t) m f)
      ∙ append_assoc m (named t ∷ []) (map named ts)

  fresh : (tags : List String) → Fresh [] tags
  unfolding lookup
  fresh [] = tt
  fresh (t ∷ ts) = (refl, fresh ts)

  -- Tags that are listed once each give the other clusters' names in their order.
  pub get_external_cluster_ns_names-Distinct :
      Distinct c.ext_clusters_geo_tags
      → get_external_cluster_ns_names c ≡ map named c.ext_clusters_geo_tags
  unfolding get_external_cluster_ns_names
  get_external_cluster_ns_names-Distinct d =
      ns_names-Distinct c.ext_clusters_geo_tags [] d (fresh c.ext_clusters_geo_tags)

  pub values-named : (tags : List String) → values (map named tags) ≡ map ns_name tags
  values-named [] = refl
  values-named (t ∷ ts) = ap (λ vs. ns_name t ∷ vs) (values-named ts)

  pub lookup-map-named :
      (own : String) (tags : List String)
      → All (λ t. t ≢ own) tags
      → lookup own (map named tags) ≡ none
  unfolding lookup
  lookup-map-named own [] _ = refl
  lookup-map-named own (t ∷ ts) (d, ds) = ground (arith, eq_iff t own, lookup-map-named own ts)
