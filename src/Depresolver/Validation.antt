-- ===== src/Depresolver/Validation.antt =====
-- `validateConfig` and `parseMetricsAddr` of controllers/depresolver/depresolver_config.go.
pub mod Fields
pub mod Valid
use Prim.Native.String.{len}
use k8gb.Prelude.{ℕ, String, Bool, Option, none, some, List, [], ◌∷◌, ltb, if◌then◌else◌, map}
use k8gb.Prelude.Dict.{Dict, insert}
use k8gb.Prelude.Int.{ℤ, pos}
use k8gb.Prelude.Numbers.{atoi}
use k8gb.Prelude.Text.{split_char}
use k8gb.Effect.{Error, errorf}
use k8gb.Depresolver.{Config, EdgeDnsType, edge_dns_type_text, Infoblox, LogFormat, LogLevel}
use k8gb.Depresolver.Names.{get_cluster_ns_name, get_external_cluster_ns_names}
use k8gb.Depresolver.Patterns.{
  geo_tag_regex, host_name_regex, ip_address_regex, k8s_namespace_regex, version_number_regex,
}
use k8gb.Depresolver.Validator.{
  int_value, text_value, texts_value, field, is_not_empty, match_regexp, match_regexps,
  is_higher_than_zero, is_higher_or_equal_to_zero, is_less_or_equal_to, is_higher_than,
  is_not_equal_to, has_items, has_unique_items, is_not_blank,
}

-- `if err != nil { return err }` between two checks
infixr 5 ◌⨾◌
abbrev pub ◌⨾◌ : Option Error → Option Error → Option Error
none ⨾ rest = rest
some e ⨾ rest = some e

-- `if bad { return e }`
abbrev pub refuse_if : Bool → Error → Option Error
refuse_if bad e = if bad then some e else none

abbrev pub is_no_level : LogLevel → Bool
is_no_level LogLevel.no_level = Bool.true
is_no_level _ = Bool.false

abbrev pub is_no_format : LogFormat → Bool
is_no_format LogFormat.no_format = Bool.true
is_no_format _ = Bool.false

abbrev pub is_multiple : EdgeDnsType → Bool
is_multiple EdgeDnsType.multiple_providers = Bool.true
is_multiple _ = Bool.false

-- A tag's field is named by its index too, which is left out here.
unfoldable pub validate_geo_tags : String → List String → Option Error
validate_geo_tags own [] = none
validate_geo_tags own (tag ∷ tags) =
    (is_not_equal_to own (
      match_regexp geo_tag_regex
        (is_not_empty (field "EXT_GSLB_CLUSTERS_GEO_TAGS" (text_value tag))))).err
    ⨾ validate_geo_tags own tags

unfoldable pub validate_infoblox : Infoblox → Option Error
validate_infoblox i =
    (match_regexps (host_name_regex ∷ ip_address_regex ∷ [])
      (field "INFOBLOX_GRID_HOST" (text_value i.host))).err
    ⨾ (match_regexp version_number_regex
        (is_not_empty (field "INFOBLOX_WAPI_VERSION" (text_value i.version)))).err
    ⨾ (is_less_or_equal_to (pos 65535)
        (is_higher_than_zero (field "INFOBLOX_WAPI_PORT" (int_value i.port)))).err
    ⨾ (is_not_empty (field "EXTERNAL_DNS_INFOBLOX_WAPI_USERNAME" (text_value i.username))).err
    ⨾ (is_not_empty (field "EXTERNAL_DNS_INFOBLOX_WAPI_PASSWORD" (text_value i.password))).err
    ⨾ (is_higher_or_equal_to_zero
        (field "INFOBLOX_HTTP_POOL_CONNECTIONS" (int_value i.http_pool_connections))).err
    ⨾ (is_higher_than_zero
        (field "INFOBLOX_HTTP_REQUEST_TIMEOUT" (int_value i.http_request_timeout))).err

abbrev dns_name_max : ℕ
dns_name_max = 253

abbrev dns_label_max : ℕ
dns_label_max = 63

unfoldable pub validate_labels : List String → Option Error
validate_labels [] = none
validate_labels (l ∷ ls) =
    refuse_if (ltb dns_label_max (len l)) (errorf "%s exceeds %v characters limit" (l ∷ []))
    ⨾ validate_labels ls

-- The error of `validateLabels`, put into the one that names the geo tag.
abbrev pub in_ns_name : String → String → Option Error → Option Error
in_ns_name geo_tag ns_name none = none
in_ns_name geo_tag ns_name (some e) =
    some (errorf "error for geo tag: %s. %s in ns name %s" (geo_tag ∷ ns_name ∷ []))

-- The loop over the map of names, in the order of its list.
unfoldable pub validate_ns_names : Config → Dict String → Option Error
unfolding validate_labels
validate_ns_names c [] = none
validate_ns_names c ((geo_tag, ns_name) ∷ names) =
    refuse_if (ltb dns_name_max (len ns_name)) (
      errorf "ns name '%s' exceeds %v charactes limit for [GeoTag: '%s', %s: '%s', %s: '%s']" (
        ns_name ∷ "63" ∷ geo_tag ∷ "EDGE_DNS_ZONE" ∷ c.edge_dns_zone ∷ "DNS_ZONE" ∷ c.dns_zone
        ∷ []))
    ⨾ in_ns_name geo_tag ns_name (validate_labels (split_char b'.' ns_name))
    ⨾ validate_ns_names c names

-- The host, the port, and whether there is no error.
abbrev parsed_port : String → ℤ × Bool → String × ℤ × Bool
parsed_port host (port, good) = (host, port, good)

parse_parts : List String → String × ℤ × Bool
parse_parts (host ∷ port ∷ []) = parsed_port host (atoi port)
parse_parts _ = ("", pos 0, Bool.false)

unfoldable pub parse_metrics_addr : String → String × ℤ × Bool
unfolding parse_parts
parse_metrics_addr metrics_addr = parse_parts (split_char b':' metrics_addr)

unfoldable pub validate_metrics_address : String → Option Error
validate_metrics_address address =
    let (host, port, good) = parse_metrics_addr address in
    refuse_if (if good then Bool.false else Bool.true) (
      errorf "invalid %s: expecting MetricsAddress in form {host}:port (%s)"
        ("METRICS_ADDRESS" ∷ address ∷ []))
    ⨾ (match_regexps (host_name_regex ∷ ip_address_regex ∷ [])
        (field "METRICS_ADDRESS" (text_value host))).err
    ⨾ (is_higher_than (pos 1024)
        (is_less_or_equal_to (pos 65535) (field "METRICS_ADDRESS" (int_value port)))).err

unfoldable pub validate_config : Config → List EdgeDnsType → Option Error
validate_config c recognized =
    refuse_if (is_no_level c.log.level) (
      errorf "invalid '%s', allowed values ['','%s','%s','%s','%s','%s','%s','%s']"
        ("LOG_LEVEL" ∷ "trace" ∷ "debug" ∷ "info" ∷ "warn" ∷ "fatal" ∷ "debug" ∷ "panic" ∷ []))
    ⨾ refuse_if (is_no_format c.log.format) (
        errorf "invalid '%s', allowed values ['','%s','%s']"
          ("LOG_FORMAT" ∷ "json" ∷ "simple" ∷ []))
    ⨾ refuse_if (is_multiple c.edge_dns_type)
        (errorf "several EdgeDNS recognized %s" (map edge_dns_type_text recognized))
    ⨾ (match_regexp k8s_namespace_regex
        (is_not_empty (field "POD_NAMESPACE" (text_value c.k8gb_namespace)))).err
    ⨾ (is_higher_than_zero
        (field "RECONCILE_REQUEUE_SECONDS" (int_value c.reconcile_requeue_seconds))).err
    ⨾ (match_regexp geo_tag_regex
        (is_not_empty (field "CLUSTER_GEO_TAG" (text_value c.cluster_geo_tag)))).err
    ⨾ (has_unique_items
        (has_items (field "EXT_GSLB_CLUSTERS_GEO_TAGS" (texts_value c.ext_clusters_geo_tags)))).err
    ⨾ validate_geo_tags c.cluster_geo_tag c.ext_clusters_geo_tags
    ⨾ (match_regexps (host_name_regex ∷ ip_address_regex ∷ [])
        (is_not_empty (field "EDGE_DNS_SERVER" (text_value c.edge_dns_server)))).err
    ⨾ (is_higher_than_zero (field "EDGE_DNS_SERVER_PORT" (int_value c.edge_dns_server_port))).err
    ⨾ (match_regexp host_name_regex
        (is_not_empty (field "EDGE_DNS_ZONE" (text_value c.edge_dns_zone)))).err
    ⨾ (match_regexp host_name_regex (is_not_empty (field "DNS_ZONE" (text_value c.dns_zone)))).err
    ⨾ (if is_not_blank c.infoblox.host then validate_infoblox c.infoblox else none)
    ⨾ validate_ns_names c
        (insert c.cluster_geo_tag (get_cluster_ns_name c) (get_external_cluster_ns_names c))
    ⨾ validate_metrics_address c.metrics_address
