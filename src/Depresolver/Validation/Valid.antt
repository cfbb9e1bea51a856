-- ===== src/Depresolver/Validation/Valid.antt =====
-- What `validateConfig` of controllers/depresolver/depresolver_config.go accepts, said without
-- its order of checks.
use Prim.Native.String.{len}
use k8gb.Prelude.{
  ℕ, ◌≤◌, ◌≡◌, ◌≢◌, ◌↔◌, refl, arith, String, Bool, true, false, Option, none, List, [], ◌∷◌, ltb,
  All, if◌then◌else◌,
}
use k8gb.Prelude.Dict.{Dict, insert}
use k8gb.Prelude.Int.{ℤ, pos, leb_ℤ, ltb_ℤ}
use k8gb.Prelude.Text.{split_char}
use k8gb.Effect.{Error}
use k8gb.Depresolver.{Config, EdgeDnsType, Infoblox, LogFormat, LogLevel}
use k8gb.Depresolver.Names.{get_cluster_ns_name, get_external_cluster_ns_names}
use k8gb.Depresolver.Patterns.{
  Pattern, geo_tag_regex, host_name_regex, k8s_namespace_regex, version_number_regex,
}
use k8gb.Depresolver.Validation.{
  in_ns_name, is_multiple, is_no_format, is_no_level, parse_metrics_addr, refuse_if,
  validate_config, validate_geo_tags, validate_infoblox, validate_labels, validate_metrics_address,
  validate_ns_names,
}
use k8gb.Depresolver.Validation.Fields.{
  IsHost, Matches, chain_iff, given-IsHost_iff, high_port_iff, IsHost-iff, items_iff, name_iff,
  not_empty_iff, not_negative_iff, other_name_iff, port_iff, positive_iff,
}
use k8gb.Depresolver.Validator.{is_not_blank}
use k8gb.Depresolver.Validator.Unique.{Distinct}

-- A text that is given and matches.
abbrev pub IsGiven : Pattern → String → Type 0
IsGiven p s = (s ≢ "") × Matches p s

abbrev pub IsPositive : ℤ → Type 0
IsPositive n = ltb_ℤ (pos 0) n ≡ true

-- The tag of another cluster: not this cluster's.
abbrev pub IsOtherTag : String → String → Type 0
IsOtherTag own tag = IsGiven geo_tag_regex tag × (tag ≢ own)

geo_tags_iff :
    (own : String) (tags : List String)
    → (validate_geo_tags own tags ≡ none) ↔ All (IsOtherTag own) tags
unfolding validate_geo_tags
geo_tags_iff own [] = ((λ _. tt), λ _. refl)
geo_tags_iff own (t ∷ ts) =
    chain_iff _ _ (other_name_iff geo_tag_regex _ own t) (geo_tags_iff own ts)

abbrev pub IsInfoblox : Infoblox → Type 0
IsInfoblox i =
    IsHost i.host
    × (IsGiven version_number_regex i.version
        × ((IsPositive i.port × (leb_ℤ i.port (pos 65535) ≡ true))
            × ((i.username ≢ "")
                × ((i.password ≢ "")
                    × ((leb_ℤ (pos 0) i.http_pool_connections ≡ true)
                        × IsPositive i.http_request_timeout)))))

infoblox_iff : (i : Infoblox) → (validate_infoblox i ≡ none) ↔ IsInfoblox i
unfolding validate_infoblox
infoblox_iff i = chain_iff _ _ (IsHost-iff _ i.host) (
    chain_iff _ _ (name_iff version_number_regex _ i.version) (
      chain_iff _ _ (port_iff _ i.port) (
        chain_iff _ _ (not_empty_iff _ i.username) (
          chain_iff _ _ (not_empty_iff _ i.password) (
            chain_iff _ _ (not_negative_iff _ i.http_pool_connections)
              (positive_iff _ i.http_request_timeout))))))

-- A label of a domain name, and a domain name, that are not too long.
abbrev pub FitsLabel : String → Type 0
FitsLabel l = len l ≤ 63

abbrev pub FitsName : String → Type 0
FitsName name = (len name ≤ 253) × All FitsLabel (split_char b'.' name)

limit_iff : (n : ℕ) (k : ℕ) (e : Error) → (refuse_if (ltb k n) e ≡ none) ↔ (n ≤ k)
limit_iff n k e = ground arith

labels_iff : (ls : List String) → (validate_labels ls ≡ none) ↔ All FitsLabel ls
unfolding validate_labels
labels_iff [] = ((λ _. tt), λ _. refl)
labels_iff (l ∷ ls) = chain_iff _ _ (limit_iff (len l) 63 _) (labels_iff ls)

in_ns_name_iff : (g n : String) (o : Option Error) → (in_ns_name g n o ≡ none) ↔ (o ≡ none)
in_ns_name_iff g n o = ground arith

ns_names_iff :
    (c : Config) (names : Dict String)
    → (validate_ns_names c names ≡ none) ↔ All (λ e. FitsName e.1) names
unfolding validate_ns_names
ns_names_iff c [] = ((λ _. tt), λ _. refl)
ns_names_iff c ((g, n) ∷ names) =
    let rest = ns_names_iff c names in
    let labels = labels_iff (split_char b'.' n) in
    let wrapped = in_ns_name_iff g n (validate_labels (split_char b'.' n)) in
    let both = chain_iff _ _ (limit_iff (len n) 253 _) (chain_iff _ _ wrapped rest) in
    (
      (λ h. let (a, (b, r)) = both.0 h in ((a, labels.0 b), r)),
      λ ((a, b), r). both.1 (a, (labels.1 b, r)),
    )

-- `host:port`, with a host and a port over 1024.
abbrev pub IsMetricsAddress : String → Type 0
IsMetricsAddress a =
    let (host, port, good) = parse_metrics_addr a in
    (good ≡ true)
    × (IsHost host × ((leb_ℤ port (pos 65535) ≡ true) × (ltb_ℤ (pos 1024) port ≡ true)))

if_good_iff : (b : Bool) (e : Error) → (refuse_if (if b then false else true) e ≡ none) ↔ (b ≡ true)
if_good_iff b e = ground arith

IsMetricsAddress-iff : (a : String) → (validate_metrics_address a ≡ none) ↔ IsMetricsAddress a
unfolding validate_metrics_address
IsMetricsAddress-iff a = chain_iff _ _ (if_good_iff (parse_metrics_addr a).2 _) (
    chain_iff _ _ (IsHost-iff _ (parse_metrics_addr a).0)
      (high_port_iff _ (parse_metrics_addr a).1))

-- The names of the name servers of all clusters, by geo tag.
abbrev pub all_ns_names : Config → Dict String
all_ns_names c = insert c.cluster_geo_tag (get_cluster_ns_name c) (get_external_cluster_ns_names c)

-- Where Infoblox is configured, its settings are valid.
abbrev pub IsInfobloxOrNone : Infoblox → Type 0
IsInfobloxOrNone i = is_not_blank i.host ≡ true → IsInfoblox i

when_iff :
    (b : Bool) (o : Option Error) {P : Type 0}
    → (o ≡ none) ↔ P
    → ((if b then o else none) ≡ none) ↔ (b ≡ true → P)
when_iff true o (f, g) = ((λ h _. f h), λ h. g (h refl))
when_iff false o (f, g) = ((λ h e. absurd (ground (arith, e))), λ h. refl)

abbrev pub IsLogging : Config → Type 0
IsLogging c = (c.log.level ≢ LogLevel.no_level) × (c.log.format ≢ LogFormat.no_format)

-- The clusters are told apart by their tags.
abbrev pub IsGeography : Config → Type 0
IsGeography c =
    IsGiven geo_tag_regex c.cluster_geo_tag
    × (((c.ext_clusters_geo_tags ≢ []) × Distinct c.ext_clusters_geo_tags)
        × All (IsOtherTag c.cluster_geo_tag) c.ext_clusters_geo_tags)

abbrev pub IsDns : Config → Type 0
IsDns c =
    (c.edge_dns_type ≢ EdgeDnsType.multiple_providers)
    × (((c.edge_dns_server ≢ "") × IsHost c.edge_dns_server)
        × (IsPositive c.edge_dns_server_port
            × (IsGiven host_name_regex c.edge_dns_zone × IsGiven host_name_regex c.dns_zone)))

abbrev pub IsOperation : Config → Type 0
IsOperation c =
    IsGiven k8s_namespace_regex c.k8gb_namespace × IsPositive c.reconcile_requeue_seconds

abbrev pub IsValid : Config → Type 0
IsValid c =
    IsLogging c
    × IsOperation c
    × IsGeography c
    × IsDns c
    × IsInfobloxOrNone c.infoblox
    × All (λ e. FitsName e.1) (all_ns_names c)
    × IsMetricsAddress c.metrics_address

level_iff :
    (l : LogLevel) (e : Error) → (refuse_if (is_no_level l) e ≡ none) ↔ (l ≢ LogLevel.no_level)
level_iff l e = ground arith

format_iff :
    (f : LogFormat) (e : Error) → (refuse_if (is_no_format f) e ≡ none) ↔ (f ≢ LogFormat.no_format)
format_iff f e = ground arith

type_iff :
    (t : EdgeDnsType) (e : Error)
    → (refuse_if (is_multiple t) e ≡ none) ↔ (t ≢ EdgeDnsType.multiple_providers)
type_iff t e = ground arith

-- The validation of a configuration finds no error just if the log's level and format are known;
-- the namespace, this cluster's tag, and both zones are given and match their patterns; the delay and
-- the port of the edge DNS are positive; other clusters are listed, each once, with tags that match
-- and are not this cluster's; at most one kind of edge DNS is set up, and its server is a host name or
-- an address; the Infoblox settings are valid if its host is given; each name server's name and its
-- labels fit DNS; and the metrics address has a host that is blank or well formed, and a port above
-- 1024 and below 65536.
pub validate_config_iff :
    (c : Config) (recognized : List EdgeDnsType) → (validate_config c recognized ≡ none) ↔ IsValid c
unfolding validate_config
validate_config_iff c recognized =
    let all = chain_iff _ _ (level_iff c.log.level _) (
      chain_iff _ _ (format_iff c.log.format _) (
        chain_iff _ _ (type_iff c.edge_dns_type _) (
          chain_iff _ _ (name_iff k8s_namespace_regex _ c.k8gb_namespace) (
            chain_iff _ _ (positive_iff _ c.reconcile_requeue_seconds) (
              chain_iff _ _ (name_iff geo_tag_regex _ c.cluster_geo_tag) (
                chain_iff _ _ (items_iff _ c.ext_clusters_geo_tags) (
                  chain_iff _ _ (geo_tags_iff c.cluster_geo_tag c.ext_clusters_geo_tags) (
                    chain_iff _ _ (given-IsHost_iff _ c.edge_dns_server) (
                      chain_iff _ _ (positive_iff _ c.edge_dns_server_port) (
                        chain_iff _ _ (name_iff host_name_regex _ c.edge_dns_zone) (
                          chain_iff _ _ (name_iff host_name_regex _ c.dns_zone) (
                            chain_iff _ _
                              (when_iff (is_not_blank c.infoblox.host) _ (infoblox_iff c.infoblox))
                              (chain_iff _ _ (ns_names_iff c (all_ns_names c))
                                (IsMetricsAddress-iff c.metrics_address)))))))))))))) in
    (
      (λ h.
          let (
            l,
            (
              f,
              (
                t,
                (ns, (r, (own, (items, (tags, (server, (port, (ez, (z, (ib, (names, ma))))))))))),
              ),
            ),
          ) =
            all.0 h in
          ((l, f), (ns, r), (own, (items, tags)), (t, (server, (port, (ez, z)))), ib, names, ma)),
      λ ((l, f), (ns, r), (own, (items, tags)), (t, (server, (port, (ez, z)))), ib, names, ma).
          all.1 (
            l,
            (
              f,
              (
                t,
                (ns, (r, (own, (items, (tags, (server, (port, (ez, (z, (ib, (names, ma))))))))))),
              ),
            ),
          ),
    )
