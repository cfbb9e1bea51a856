-- ===== src/Dns/External/Asking.antt =====
-- Lemmas on the questions that `GetExternalTargets` of controllers/providers/dns/external.go leads to.
use mathlib.Core.List.{Perm, append-nil}
use k8gb.Prelude.{◌≡◌, ap, ◌∙◌, String, ◌<>◌, List, [], ◌∷◌}
use k8gb.Prelude.Dict.{Dict, insert}
use k8gb.Prelude.Int.{ℤ}
use k8gb.Prelude.Permuted.{one_entry}
use k8gb.Effect.{ok}
use k8gb.Assistant.{first_or, get_external_targets, new_gslb_assistant}
use k8gb.Assistant.Targets.{Answers, targets_loop-collected}
use k8gb.Cluster.{Client, DnsClient}
use k8gb.Controller.Endpoint.Order.{Answered}
use k8gb.Depresolver.{Config}
use k8gb.Depresolver.Names.{get_external_cluster_ns_names, get_ns_name, ns_names}
use k8gb.Dns.External.{ExternalDnsType, new_external_dns}

module _ (config : Config) (edge : String) (table : String → String → List String) where
  -- The name server of a cluster.
  abbrev server_of : String → String
  server_of tag = get_ns_name tag config.dns_zone config.edge_dns_zone config.edge_dns_server

  -- The answer of a cluster's name server for a host's local targets.
  abbrev pub asked_of : String → String → List String
  asked_of tag host =
      table (("localtargets-" <> host) <> ".")
        (first_or (server_of tag) (table (server_of tag <> ".") edge))

module _ {W : Type 0} (visit : Dict String → Dict String) (client : Client W) (dns : DnsClient W)
    (dns_type : ExternalDnsType) (config : Config) (namespace edge : String) (port : ℤ)
    (table : String → String → List String) where
  -- With one external cluster, and DNS that answers every question for addresses from a table, the
  -- external targets that the provider finds for a host are what that cluster's name server answers
  -- for the name of the host's local targets. The name server is asked at the first address that the
  -- edge DNS server gives for it, and at its own name if there is none. The world stays as it is.
  pub new_external_dns-Answered :
      (tag : String)
      → ((d : Dict String) → Perm (visit d) d)
      → config.ext_clusters_geo_tags ≡ tag ∷ []
      → Answers dns table port
      → Answered
          (new_external_dns dns_type config
            (new_gslb_assistant visit client dns namespace edge port))
          (asked_of config edge table tag)
  unfolding new_external_dns new_gslb_assistant get_external_targets get_external_cluster_ns_names
      ns_names insert
  new_external_dns-Answered tag reorders one answers host w =
      let entry : String × String = (tag, server_of config edge table tag) in
      rw (one, one_entry (reorders (entry ∷ [])))
        (targets_loop-collected visit client dns namespace edge port table (entry ∷ []) host [] w
            answers
          ∙ ap (λ t. (ok t, w)) (append-nil (asked_of config edge table tag host)))
