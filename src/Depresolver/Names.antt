-- ===== src/Depresolver/Names.antt =====
-- The names of name servers and heartbeat records, of controllers/depresolver/depresolver_config.go.
pub mod Clusters
use k8gb.Prelude.{String, ◌<>◌, ◌||◌, List, [], ◌∷◌, ◌==◌, if◌then◌else◌}
use k8gb.Prelude.Dict.{Dict, insert}
use k8gb.Prelude.Text.{trim_suffix, replace_char}
use k8gb.Depresolver.{Config}

unfoldable pub get_ns_name : String → String → String → String → String
unfolding trim_suffix replace_char
get_ns_name tag dns_zone edge_dns_zone edge_dns_server =
    if edge_dns_server == "127.0.0.1" || edge_dns_server == "localhost"
    then edge_dns_server
    else let d = trim_suffix dns_zone ("." <> edge_dns_zone) in
      let domain_x = replace_char b'.' "-" d in
      "gslb-ns-" <> tag <> "-" <> domain_x <> "." <> edge_dns_zone

unfoldable pub get_heartbeat_fqdn : String → String → String → String
get_heartbeat_fqdn name geo_tag edge_dns_zone =
    name <> "-heartbeat-" <> geo_tag <> "." <> edge_dns_zone

module _ (c : Config) where
  -- The loop of `GetExternalClusterNSNames`.
  unfoldable pub ns_names : List String → Dict String → Dict String
  ns_names [] m = m
  ns_names (tag ∷ tags) m =
      ns_names tags (insert tag (get_ns_name tag c.dns_zone c.edge_dns_zone c.edge_dns_server) m)

  unfoldable pub get_external_cluster_ns_names : Dict String
  unfolding ns_names insert get_ns_name
  get_external_cluster_ns_names = ns_names c.ext_clusters_geo_tags []

  unfoldable pub get_cluster_ns_name : String
  unfolding get_ns_name
  get_cluster_ns_name = get_ns_name c.cluster_geo_tag c.dns_zone c.edge_dns_zone c.edge_dns_server

  -- The loop of `GetExternalClusterHeartbeatFQDNs`.
  heartbeat_fqdns : String → List String → Dict String → Dict String
  heartbeat_fqdns gslb_name [] m = m
  heartbeat_fqdns gslb_name (tag ∷ tags) m =
      heartbeat_fqdns gslb_name tags
        (insert tag (get_heartbeat_fqdn gslb_name tag c.edge_dns_zone) m)

  unfoldable pub get_external_cluster_heartbeat_fqdns : String → Dict String
  unfolding heartbeat_fqdns insert get_heartbeat_fqdn
  get_external_cluster_heartbeat_fqdns gslb_name =
      heartbeat_fqdns gslb_name c.ext_clusters_geo_tags []

  unfoldable pub get_cluster_heartbeat_fqdn : String → String
  unfolding get_heartbeat_fqdn
  get_cluster_heartbeat_fqdn gslb_name =
      get_heartbeat_fqdn gslb_name c.cluster_geo_tag c.edge_dns_zone
