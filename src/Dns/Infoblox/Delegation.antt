-- ===== src/Dns/Infoblox/Delegation.antt =====
-- Lemmas on `refresh_zone` and `drop_stale` (controllers/providers/dns/infoblox.go).
use k8gb.Prelude.{
  ◌≡◌, ◌≢◌, ◌∙◌, inl, inr, refl, sym, ap, arith, String, false, List, [], ◌∷◌, ◌==◌, eq_iff, All,
  filter,
}
use k8gb.Prelude.Dict.{Dict, lookup_or_zero}
use k8gb.Prelude.Int.{ℤ}
use k8gb.Effect.{ok}
use k8gb.Effect.Laws.{handle-eq-ok, pure-eq-ok}
use k8gb.Api.{Gslb}
use k8gb.Assistant.{Assistant}
use k8gb.Cluster.{DnsClient}
use k8gb.Depresolver.{Config}
use k8gb.Depresolver.Names.{get_cluster_ns_name}
use k8gb.Dns.Infoblox.{
  InfobloxClient, ObjectManager, ZoneDelegated, local_servers, refresh_zone, current_list,
  drop_stale,
}
use k8gb.Dns.Zone.{NameServer, filter_out_delegate_to, sanitize_delegate_zone}
use k8gb.Dns.Zone.Converge.{
  sanitize_delegate_zone_idempotent, same_servers_refl, sort_zones-sanitize_delegate_zone,
}

-- Dropping one name keeps the servers of another.
filter-filter_out_delegate_to :
    (n dropped : String) (xs : List NameServer)
    → dropped ≢ n
    → filter (λ v. v.name == n) (filter_out_delegate_to xs dropped) ≡ filter (λ v. v.name == n) xs
unfolding filter_out_delegate_to
filter-filter_out_delegate_to n dropped [] differ = refl
filter-filter_out_delegate_to n dropped (x ∷ xs) differ = grind (
  arith,
  eq_iff x.name dropped,
  eq_iff x.name n,
  filter-filter_out_delegate_to n dropped xs differ,
)

module _ {W : Type 0} (visit : Dict String → Dict String) (infoblox : InfobloxClient W) where
  module _ (dns : DnsClient W) (config : Config) (assistant : Assistant W) where
    abbrev servers : List String → List NameServer
    servers = local_servers visit infoblox dns config assistant

    local_servers_named :
        (addresses : List String)
        → All (λ v. v.name ≡ get_cluster_ns_name config) (servers addresses)
    local_servers_named [] = tt
    local_servers_named (a ∷ as') = (refl, local_servers_named as')

    -- Without the split-brain check, a refresh of a zone that holds what a refresh with the same
    -- addresses has left, whatever the zone held before, succeeds and writes nothing.
    pub refresh_zone_settled :
        (manager : ObjectManager W) (gslb : Gslb) (addresses : List String)
        (upstream : List NameServer) (zone : ZoneDelegated) (w : W)
        → config.split_brain_check ≡ false
        → zone.delegate_to
          ≡ sanitize_delegate_zone (get_cluster_ns_name config) (servers addresses) upstream
        → refresh_zone visit infoblox dns config assistant manager gslb (servers addresses) zone w
          ≡ (ok tt, w)
    unfolding refresh_zone current_list
    refresh_zone_settled manager gslb addresses upstream zone w off held =
        rw
          (
            held,
            sort_zones-sanitize_delegate_zone (get_cluster_ns_name config) (servers addresses)
                upstream,
            sanitize_delegate_zone_idempotent (get_cluster_ns_name config) (servers addresses)
                upstream (local_servers_named addresses),
            off,
            same_servers_refl _,
          )
          refl

    -- If the split-brain check returns a list, then the servers of a name that is none of the
    -- external clusters' are in it as they were, whatever the heartbeats say.
    pub drop_stale_keeps :
        (n : String) (heartbeats : Dict String) (threshold : ℤ) (entries : Dict String)
        (current : List NameServer) (w : W) {result : List NameServer} {w' : W}
        → All (λ e. e.1 ≢ n) entries
        → drop_stale visit infoblox dns config assistant heartbeats threshold entries current w
          ≡ (ok result, w')
        → filter (λ v. v.name == n) result ≡ filter (λ v. v.name == n) current
    unfolding drop_stale
    drop_stale_keeps n heartbeats threshold [] current w _ h =
        ap (filter (λ v. v.name == n)) (sym (pure-eq-ok current w h))
    drop_stale_keeps n heartbeats threshold ((tag, ns) ∷ rest) current w (differ, others) h =
        elim (handle-eq-ok
          (assistant.inspect_txt_threshold (lookup_or_zero tag heartbeats) threshold) _ _ w h) [
            | inl (_, _, h') ↦ drop_stale_keeps n heartbeats threshold rest current _ others h'
            | inr (_, _, h') ↦
                drop_stale_keeps n heartbeats threshold rest (filter_out_delegate_to current ns) _
                  others h'
                ∙ filter-filter_out_delegate_to n ns current differ
          ]
