-- ===== src/Dns/External/Delegation.antt =====
-- Lemmas on the name servers of the delegation (controllers/providers/dns/external.go).
use mathlib.Core.List.{Perm}
use mathlib.Core.List.Perm
use k8gb.Prelude.{◌≡◌, sym, ap, ◌∙◌, String, none, List, [], ◌∷◌, ◌++◌, map, All, All-imp, ◌≢◌}
use k8gb.Prelude.Dict.{insert_fresh, values}
use k8gb.Prelude.Permuted.{sort_texts_of_Perm}
use k8gb.Prelude.Sort.{sort, sort-perm, All-sort}
use k8gb.Prelude.Text.{ltb_text}
use k8gb.Depresolver.{Config, EdgeDnsType}
use k8gb.Depresolver.Names.{get_cluster_ns_name, get_ns_name}
use k8gb.Depresolver.Names.Clusters.{
  get_external_cluster_ns_names-Distinct, lookup-map-named, named, ns_name, values-named,
}
use k8gb.Depresolver.Validation.{validate_config}
use k8gb.Depresolver.Validation.Valid.{all_ns_names, FitsName, IsOtherTag, validate_config_iff}
use k8gb.Depresolver.Validator.Unique.{Distinct}
use k8gb.Dns.External.{ns_server_list}

ns_server_list-Distinct :
    (c : Config)
    → Distinct c.ext_clusters_geo_tags
    → ns_server_list c
      ≡ sort ltb_text (map (ns_name c) (c.cluster_geo_tag ∷ c.ext_clusters_geo_tags))
unfolding ns_server_list get_cluster_ns_name
ns_server_list-Distinct c d =
    ap (λ names. sort ltb_text (ns_name c c.cluster_geo_tag ∷ names))
      (ap values (get_external_cluster_ns_names-Distinct c d)
        ∙ values-named c c.ext_clusters_geo_tags)

abbrev pub SameZones : Config → Config → Type 0
SameZones a b =
    (a.dns_zone ≡ b.dns_zone)
    × (a.edge_dns_zone ≡ b.edge_dns_zone)
    × (a.edge_dns_server ≡ b.edge_dns_server)

-- Two clusters with valid configurations, the same zones and the same edge DNS server, and which know
-- the same clusters, in any order and each as its own one, delegate the zone to the same list of name
-- servers.
pub ns_server_list_agree :
    (a b : Config) (ra rb : List EdgeDnsType)
    → validate_config a ra ≡ none
    → validate_config b rb ≡ none
    → SameZones a b
    → Perm
        (a.cluster_geo_tag ∷ a.ext_clusters_geo_tags)
        (b.cluster_geo_tag ∷ b.ext_clusters_geo_tags)
    → ns_server_list a ≡ ns_server_list b
ns_server_list_agree a b ra rb va vb (z, e, s) p =
    let (_, _, (_, ((_, da), _)), _, _, _, _) = (validate_config_iff a ra).0 va in
    let (_, _, (_, ((_, db), _)), _, _, _, _) = (validate_config_iff b rb).0 vb in
    ns_server_list-Distinct a da
    ∙ sort_texts_of_Perm (Perm.map (ns_name a) p)
    ∙ ap (λ f. sort ltb_text (map f (b.cluster_geo_tag ∷ b.ext_clusters_geo_tags)))
        (λ i t. get_ns_name t (z i) (e i) (s i))
    ∙ sym (ns_server_list-Distinct b db)

All-append_iff :
    (P : String × String → Type 0) (d : List (String × String)) (e : String × String)
    → All P (d ++ e ∷ [])
    → All P d × P e
All-append_iff P [] e (p, _) = (tt, p)
All-append_iff P (x ∷ xs) e (p, ps) = let (q, r) = All-append_iff P xs e ps in ((p, q), r)

All-map-named :
    (c : Config) (tags : List String)
    → All (λ e. FitsName e.1) (map (named c) tags)
    → All FitsName (map (ns_name c) tags)
All-map-named c [] _ = tt
All-map-named c (t ∷ ts) (p, ps) = (p, All-map-named c ts ps)

others : (own : String) (tags : List String) → All (IsOtherTag own) tags → All (λ t. t ≢ own) tags
others own tags = All-imp _ _ tags (λ t (_, d). d)

own_and_others_fit :
    (c : Config)
    → Distinct c.ext_clusters_geo_tags
    → All (IsOtherTag c.cluster_geo_tag) c.ext_clusters_geo_tags
    → All (λ e. FitsName e.1) (all_ns_names c)
    → All FitsName (map (ns_name c) (c.cluster_geo_tag ∷ c.ext_clusters_geo_tags))
unfolding get_cluster_ns_name
own_and_others_fit c d o names =
    let fresh =
      lookup-map-named c c.cluster_geo_tag c.ext_clusters_geo_tags
        (others c.cluster_geo_tag c.ext_clusters_geo_tags o) in
    let all =
      rw
        (
          get_external_cluster_ns_names-Distinct c d,
          insert_fresh c.cluster_geo_tag (ns_name c c.cluster_geo_tag)
              (map (named c) c.ext_clusters_geo_tags) fresh,
        )
        at names in
    let (ext, own) = All-append_iff _ (map (named c) c.ext_clusters_geo_tags) _ all in
    (own, All-map-named c c.ext_clusters_geo_tags ext)

-- The name servers to which a valid configuration delegates the zone are those of all clusters, each
-- of a name that has at most 253 bytes in labels of at most 63.
pub ns_server_list_fits :
    (c : Config) (recognized : List EdgeDnsType)
    → validate_config c recognized ≡ none
    → All FitsName (ns_server_list c)
      × Perm (ns_server_list c) (map (ns_name c) (c.cluster_geo_tag ∷ c.ext_clusters_geo_tags))
ns_server_list_fits c recognized valid =
    let (_, _, (_, ((_, d), o)), _, _, names, _) = (validate_config_iff c recognized).0 valid in
    rw (ns_server_list-Distinct c d)
      (All-sort ltb_text FitsName _ (own_and_others_fit c d o names), sort-perm ltb_text _)
