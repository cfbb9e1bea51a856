-- ===== src/Tests/Clusters.antt =====
-- The configurations of the clusters "eu" and "us", and the name servers of both.
use mathlib.Core.List.{Perm}
use mathlib.Core.List.Perm
use k8gb.Prelude.{◌≡◌, ◌↔◌, refl, none, [], ◌∷◌, map, All}
use k8gb.Depresolver.{Config, EdgeDnsType}
use k8gb.Depresolver.Names.Clusters.{ns_name}
use k8gb.Depresolver.Validation.Valid.{FitsName, IsValid, validate_config_iff}
use k8gb.Depresolver.Validator.{
  field, is_not_empty, match_regexp, has_items, has_unique_items, item_set, is_not_equal_to,
  match_regexps, regexp_loop, is_higher_than_zero, is_higher_or_equal_to_zero, is_less_or_equal_to,
  is_higher_than, is_not_blank,
}
use k8gb.Depresolver.Validation.{
  validate_config, validate_geo_tags, validate_infoblox, validate_ns_names, validate_labels,
  validate_metrics_address, parse_metrics_addr,
}
use k8gb.Depresolver.Patterns.{
  geo_tag_regex, host_name_regex, ip_address_regex, version_number_regex, k8s_namespace_regex,
}
use k8gb.Depresolver.Names.{
  get_cluster_ns_name, get_external_cluster_ns_names, get_ns_name, ns_names,
}
use k8gb.Prelude.Regexp.{
  matches, derive, either, join, nullable, is_digit, is_letter, is_lower_letter,
}
use k8gb.Prelude.Dict.{insert}
use k8gb.Prelude.Text.{replace_char, split_char, trim_suffix, ltb_text}
use k8gb.Prelude.Numbers.{atoi}
use k8gb.Prelude.Sort.{sort}
use k8gb.Dns.External.{ns_server_list}
use k8gb.Dns.External.Delegation.{ns_server_list_agree, ns_server_list_fits}
use k8gb.Tests.World.{eu_config}

abbrev us_config : Config
us_config = record eu_config { cluster_geo_tag = "us"; ext_clusters_geo_tags = "eu" ∷ [] }

eu_valid : validate_config eu_config (EdgeDnsType.infoblox_dns ∷ []) ≡ none
unfolding validate_config field is_not_empty match_regexp has_items has_unique_items item_set
    is_not_equal_to match_regexps regexp_loop is_higher_than_zero is_higher_or_equal_to_zero
    is_less_or_equal_to is_higher_than is_not_blank validate_geo_tags validate_infoblox
    validate_ns_names validate_labels validate_metrics_address parse_metrics_addr geo_tag_regex
    host_name_regex ip_address_regex version_number_regex k8s_namespace_regex get_cluster_ns_name
    get_external_cluster_ns_names get_ns_name ns_names matches derive either join nullable is_digit
    is_letter is_lower_letter insert replace_char split_char trim_suffix atoi
eu_valid = refl

us_valid : validate_config us_config (EdgeDnsType.infoblox_dns ∷ []) ≡ none
unfolding validate_config field is_not_empty match_regexp has_items has_unique_items item_set
    is_not_equal_to match_regexps regexp_loop is_higher_than_zero is_higher_or_equal_to_zero
    is_less_or_equal_to is_higher_than is_not_blank validate_geo_tags validate_infoblox
    validate_ns_names validate_labels validate_metrics_address parse_metrics_addr geo_tag_regex
    host_name_regex ip_address_regex version_number_regex k8s_namespace_regex get_cluster_ns_name
    get_external_cluster_ns_names get_ns_name ns_names matches derive either join nullable is_digit
    is_letter is_lower_letter insert replace_char split_char trim_suffix atoi
us_valid = refl

validate_config_iff_example :
    (validate_config eu_config (EdgeDnsType.infoblox_dns ∷ []) ≡ none) ↔ IsValid eu_config
validate_config_iff_example = validate_config_iff eu_config (EdgeDnsType.infoblox_dns ∷ [])

ns_servers_run :
    ns_server_list eu_config ≡ "gslb-ns-eu-cloud.example.com" ∷ "gslb-ns-us-cloud.example.com" ∷ []
unfolding ns_server_list sort ltb_text
ns_servers_run = refl

ns_server_list_agree_example : ns_server_list eu_config ≡ ns_server_list us_config
ns_server_list_agree_example =
    ns_server_list_agree eu_config us_config (EdgeDnsType.infoblox_dns ∷ [])
      (EdgeDnsType.infoblox_dns ∷ []) eu_valid us_valid (refl, refl, refl) (Perm.swap "us" "eu" [])

ns_server_list_fits_example :
    All FitsName (ns_server_list eu_config)
    × Perm (ns_server_list eu_config) (map (ns_name eu_config) ("eu" ∷ "us" ∷ []))
ns_server_list_fits_example = ns_server_list_fits eu_config (EdgeDnsType.infoblox_dns ∷ []) eu_valid
