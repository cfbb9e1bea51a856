-- ===== src/Tests/Start.antt =====
-- A start of the operator, in a world that is the list of the calls made, the last one first.
use k8gb.Prelude.{◌≡◌, refl, String, true, Option, none, some, List, [], ◌∷◌}
use k8gb.Prelude.Int.{pos}
use k8gb.Effect.{Error, ok, err, Run}
use k8gb.Cluster.{Client, DnsClient}
use k8gb.Depresolver.{LogLevel, log_format_text, new_dependency_resolver}
use k8gb.Depresolver.Resolve.{
  Environment, get_edge_dns_type, parse_log_output_format, read_config, read_infoblox, read_log,
  recognized, resolve_operator_config, resolved_config,
}
use k8gb.Depresolver.Validator.{
  field, is_not_empty, match_regexp, has_items, has_unique_items, item_set, is_not_equal_to,
  match_regexps, regexp_loop, is_higher_than_zero, is_higher_or_equal_to_zero, is_less_or_equal_to,
  is_higher_than, is_not_blank,
}
use k8gb.Depresolver.Validation.{
  validate_config, validate_geo_tags, validate_infoblox, validate_ns_names, validate_labels,
  validate_metrics_address, parse_metrics_addr,
}
use k8gb.Depresolver.Patterns.{
  geo_tag_regex, host_name_regex, ip_address_regex, version_number_regex, k8s_namespace_regex,
}
use k8gb.Depresolver.Names.{
  get_cluster_ns_name, get_external_cluster_ns_names, get_ns_name, ns_names,
}
use k8gb.Prelude.Regexp.{
  matches, derive, either, join, nullable, is_digit, is_letter, is_lower_letter,
}
use k8gb.Prelude.Dict.{Dict, insert, lookup}
use k8gb.Prelude.Text.{to_lower, replace_char, split_char, trim_suffix}
use k8gb.Prelude.Numbers.{atoi}
use k8gb.Dns.Infoblox.{InfobloxClient, ObjectManager}
use k8gb.Start.{Exit, Runtime, main}
use k8gb.Start.Order.{Served, main-Served}
use k8gb.Tests.World.{in_order}

abbrev Calls : Type 0
Calls = List String

abbrev text_or : Option String → String → String
text_or none fallback = fallback
text_or (some s) fallback = s

abbrev settings : Dict String
settings =
    ("POD_NAMESPACE", "k8gb")
    ∷ ("CLUSTER_GEO_TAG", "eu")
    ∷ ("EDGE_DNS_SERVER", "1.1.1.1")
    ∷ ("EDGE_DNS_ZONE", "example.com")
    ∷ ("DNS_ZONE", "cloud.example.com")
    ∷ []

abbrev environment : Environment
environment = record {
  as_int = λ key fallback. fallback;
  as_text = λ key fallback. text_or (lookup key settings) fallback;
  as_texts = λ key fallback. "us" ∷ [];
  as_bool = λ key fallback. fallback;
  parse_level = λ s. LogLevel.info_level;
}

abbrev called : {A : Type 0} → String → A → Run Calls A
called name a w = (ok a, name ∷ w)

abbrev down : {A : Type 0} → Run Calls A
down w = (err (Error.external "down"), w)

abbrev no_client : Client Calls
no_client = record {
  get_gslb = λ k. down;
  list_gslbs = λ n. down;
  create_gslb = λ g. down;
  update_gslb = λ g. down;
  update_gslb_status = λ g. down;
  get_service = λ k. down;
  get_endpoints = λ k. down;
  get_ingress = λ k. down;
  create_ingress = λ i. down;
  update_ingress = λ i. down;
  get_dns_endpoint = λ k. down;
  create_dns_endpoint = λ d. down;
  update_dns_endpoint = λ d. down;
  delete_dns_endpoint = λ d. down;
  set_meta_data_annotation = λ m k v. m;
  set_controller_reference = λ owner object. ok object;
}

abbrev no_dns : DnsClient Calls
no_dns = record {
  fqdn = λ s. s;
  exchange = λ name type server port. down;
  set_dns = λ server. down;
  dig_a = λ server name. down;
  parse_time = λ s. ok (pos 0);
  format_time = λ t. "";
  now = down;
}

abbrev no_manager : ObjectManager Calls
no_manager = record {
  get_zone_delegated = λ s. down;
  create_zone_delegated = λ s l. down;
  update_zone_delegated = λ s l. down;
  delete_zone_delegated = λ s. down;
  get_txt_record = λ s. down;
  create_txt_record = λ s t n v. down;
  update_txt_record = λ s t. down;
  delete_txt_record = λ s. down;
}

abbrev no_infoblox : InfobloxClient Calls
no_infoblox = record { connect = λ i. down; logout = down; fake = no_manager }

abbrev runtime : Runtime Calls
runtime = record {
  environment = environment;
  write = λ e w. w;
  set_logger = λ a w. "set logger" ∷ w;
  get_config_or_die = called "config" tt;
  new_manager = λ address. called address tt;
  get_client = λ w. (some no_client, w);
  add_dns_endpoints = called "scheme" tt;
  registry = record { register = λ g. called g.name tt; unregister = λ g w. (true, g.name ∷ w) };
  complete = λ r. called "watches" tt;
  start = called "manager" tt;
}

abbrev calls : Calls
calls =
    "ingress_hosts_per_status" ∷ "healthy_records" ∷ "manager" ∷ "watches"
    ∷ "ingress_hosts_per_status" ∷ "healthy_records" ∷ "scheme" ∷ "0.0.0.0:8080" ∷ "config"
    ∷ "set logger" ∷ []

main_run : main in_order no_infoblox no_dns runtime [] ≡ (ok Exit.returned, calls)
unfolding main resolved_config read_config read_infoblox read_log recognized get_edge_dns_type
    lookup to_lower parse_log_output_format log_format_text validate_config field is_not_empty
    match_regexp has_items has_unique_items item_set is_not_equal_to match_regexps regexp_loop
    is_higher_than_zero is_higher_or_equal_to_zero is_less_or_equal_to is_higher_than is_not_blank
    validate_geo_tags validate_infoblox validate_ns_names validate_labels validate_metrics_address
    parse_metrics_addr geo_tag_regex host_name_regex ip_address_regex version_number_regex
    k8s_namespace_regex get_cluster_ns_name get_external_cluster_ns_names get_ns_name ns_names
    matches derive either join nullable is_digit is_letter is_lower_letter insert replace_char
    split_char trim_suffix atoi
main_run = refl

main-Served_example :
    let config = resolved_config environment in
    (validate_config config (recognized config) ≡ none)
    × Served in_order no_infoblox no_dns runtime
        (resolve_operator_config environment new_dependency_resolver)
        config
        calls
main-Served_example = main-Served in_order no_infoblox no_dns runtime [] main_run
