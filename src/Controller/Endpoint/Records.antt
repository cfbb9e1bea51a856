-- ===== src/Controller/Endpoint/Records.antt =====
-- Lemmas on the records of `gslb_dns_endpoint` (controllers/dnsupdate.go).
use mathlib.Core.List.{append-nil, append_assoc}
use mathlib.Core.Path.{subst}
use k8gb.Prelude.{
  eq_iff, arith, sym, ◌∙◌, Any, All-imp, Any-append_left, Any-append_right, ◌≡◌, refl, ap, ◌≢◌, ◌⊎◌,
  inl, inr, String, ◌<>◌, Bool, true, false, List, [], ◌∷◌, ◌++◌, ◌==◌, is_empty, if◌then◌else◌,
  Bool-cases, All, All-append,
}
use k8gb.Prelude.Dict.{Dict}
use k8gb.Prelude.Text.{contains_text}
use k8gb.Effect.{lift, ok}
use k8gb.Effect.Laws.{>>=-eq-ok, pure-eq-ok, raise-ne-ok, run-eq-ok}
use k8gb.Api.{Gslb, Strategy}
use k8gb.Cluster.{Client, DnsEndpoint, Endpoint}
use k8gb.Controller.Endpoint.{
  final_targets, gslb_dns_endpoint, host_record, host_records, hosts_loop, local_targets_record,
  record_set_meta, sort_targets,
}
use k8gb.Controller.Health.{get_service_health_status}
use k8gb.Depresolver.{Config}
use k8gb.Dns.{Provider}

module _ {W : Type 0} (config : Config) (provider : Provider W) (s : Strategy)
    (local : List String) where
  -- The local targets of a host that is healthy.
  abbrev pub IsLocal : (String × String) → Endpoint → Type 0
  IsLocal (host, health) e =
      (health ≡ "Healthy")
      × (e.dns_name ≡ ("localtargets-" <> host))
      × (e.targets ≡ local)
      × (e.labels ≡ [])

  -- The final targets of a host, with the external ones that the provider gave at some point.
  abbrev pub IsFinal : (String × String) → Endpoint → Type 0
  IsFinal (host, health) e =
      (external : List String) × (before : W) × (after : W) × (provider.get_external_targets host
          before
        ≡ (ok external, after))
      × (e.dns_name ≡ host)
      × (e.labels ≡ ("strategy", s.kind) ∷ [])
      × (e.targets ≢ [])
      × (e.targets
          ≡ final_targets s config.cluster_geo_tag (health == "Healthy") local
              (sort_targets external))

  -- An address record of the strategy's time to live, for one of the hosts.
  abbrev pub IsPublished : Dict String → Endpoint → Type 0
  IsPublished entries e =
      (e.record_type ≡ "A")
      × (e.record_ttl ≡ s.dns_ttl_seconds)
      × Any (λ entry. IsLocal entry e ⊎ IsFinal entry e) entries

  -- Among the records are the local targets of a host, if it is healthy.
  abbrev pub HasLocal : List Endpoint → (String × String) → Type 0
  HasLocal es entry = entry.1 ≡ "Healthy" → Any (IsLocal entry) es

  -- Among the records are the final targets of a host, for external ones that the provider gave at
  -- some point, if they are not empty.
  abbrev pub HasFinal : List Endpoint → (String × String) → Type 0
  HasFinal es (host, health) =
      (external : List String) × (before : W) × (after : W) × (provider.get_external_targets host
          before
        ≡ (ok external, after))
      × (final_targets s config.cluster_geo_tag (health == "Healthy") local (sort_targets external)
            ≢ []
          → Any
              (λ e.
                (e.dns_name ≡ host)
                × (e.targets
                    ≡ final_targets s config.cluster_geo_tag (health == "Healthy") local
                        (sort_targets external)))
              es)

  abbrev pub InZone : (String × String) → Type 0
  InZone entry = contains_text entry.0 config.edge_dns_zone ≡ true

  -- What is published for the hosts.
  abbrev pub ArePublished : Dict String → List Endpoint → Type 0
  ArePublished entries es =
      All (IsPublished entries) es
      × All (HasLocal es) entries
      × All (HasFinal es) entries
      × All InZone entries

  abbrev two_parts : String → Bool → List String → List Endpoint
  two_parts host healthy final =
      (if healthy then local_targets_record s.dns_ttl_seconds host local ∷ [] else [])
      ++ (if is_empty final then [] else host_record s host final ∷ [])

  abbrev parts : String → String → List String → List Endpoint
  parts host health external =
      host_records s config.cluster_geo_tag host (health == "Healthy") local (sort_targets external)

  -- The records of one host, from its final targets.
  two_parts-ArePublished :
      (host health : String) (external : List String) (before after : W) (rest : Dict String)
      (healthy : Bool) (final : List String)
      → provider.get_external_targets host before ≡ (ok external, after)
      → (healthy ≡ true → health ≡ "Healthy")
      → final
        ≡ final_targets s config.cluster_geo_tag (health == "Healthy") local (sort_targets external)
      → All (IsPublished ((host, health) ∷ rest)) (two_parts host healthy final)
        × (healthy ≡ true → Any (IsLocal (host, health)) (two_parts host healthy final))
        × (final ≢ []
            → Any (λ e. (e.dns_name ≡ host) × (e.targets ≡ final)) (two_parts host healthy final))
  two_parts-ArePublished host health external before after rest true [] asked h f = (
    ((refl, refl, inl (inl (h refl, refl, refl, refl))), tt),
    λ _. inl (h refl, refl, refl, refl),
    λ some. absurd (some refl),
  )
  two_parts-ArePublished host health external before after rest false [] asked h f =
      (tt, λ e. ground arith, λ some. absurd (some refl))
  two_parts-ArePublished host health external before after rest true (t ∷ ts) asked h f = (
    (
      (refl, refl, inl (inl (h refl, refl, refl, refl))),
      ((refl, refl, inl (inr (external, before, after, asked, refl, refl, λ e. cc, f))), tt),
    ),
    λ _. inl (h refl, refl, refl, refl),
    λ _. inr (inl (refl, refl)),
  )
  two_parts-ArePublished host health external before after rest false (t ∷ ts) asked h f = (
    ((refl, refl, inl (inr (external, before, after, asked, refl, refl, λ e. cc, f))), tt),
    λ e. ground arith,
    λ _. inl (refl, refl),
  )

  parts-ArePublished :
      (host health : String) (external : List String) (before after : W) (rest : Dict String)
      → provider.get_external_targets host before ≡ (ok external, after)
      → All (IsPublished ((host, health) ∷ rest)) (parts host health external)
        × HasLocal (parts host health external) (host, health)
        × HasFinal (parts host health external) (host, health)
  unfolding host_records
  parts-ArePublished host health external before after rest asked =
      let (all, has, finals) =
        two_parts-ArePublished host health external before after rest (health == "Healthy")
          (final_targets s config.cluster_geo_tag (health == "Healthy") local
            (sort_targets external))
          asked (eq_iff health "Healthy").0 refl in
      (all, λ h. has ((eq_iff health "Healthy").1 h), (external, before, after, asked, finals))

  hosts-ArePublished :
      (entry : String × String) (entries : Dict String) (first more : List Endpoint)
      → All (IsPublished (entry ∷ entries)) first
      → HasLocal first entry
      → HasFinal first entry
      → InZone entry
      → ArePublished entries more
      → ArePublished (entry ∷ entries) (first ++ more)
  hosts-ArePublished entry entries first more good has (external, before, after, asked, given) zone
        (goods, all, finals, zones) =
      (
        All-append (IsPublished (entry ∷ entries)) first more good (
            All-imp (IsPublished entries) (IsPublished (entry ∷ entries)) more
              (λ e (k, ttl, any). (k, ttl, inr any)) goods),
        (
          λ h. Any-append_left (IsLocal entry) first more (has h),
          All-imp (HasLocal more) (HasLocal (first ++ more)) entries
              (λ x f h. Any-append_right (IsLocal x) first more (f h)) all,
        ),
        (
          (external, before, after, asked, λ h. Any-append_left _ first more (given h)),
          All-imp (HasFinal more) (HasFinal (first ++ more)) entries
              (λ x (external', before', after', asked', given').
                (external', before', after', asked', λ h. Any-append_right _ first more (given' h)))
              finals,
        ),
        (zone, zones),
      )

module _ {W : Type 0} (visit : Dict String → Dict String) (client : Client W) where
  module _ (config : Config) (provider : Provider W) where
    -- The loop over the hosts adds published records only, and ends with success only if every host
    -- lies in the zone.
    pub hosts_loop-ArePublished :
        (s : Strategy) (local : List String) (entries : Dict String) (hosts : List Endpoint) (w : W)
        {result : List Endpoint} {w' : W}
        → hosts_loop visit client config provider s local entries hosts w ≡ (ok result, w')
        → (more : List Endpoint) × (result ≡ hosts ++ more)
          × ArePublished config provider s local entries more
    unfolding hosts_loop
    hosts_loop-ArePublished s local [] hosts w h =
        ([], sym (pure-eq-ok hosts w h) ∙ sym (append-nil hosts), (tt, tt, tt, tt))
    hosts_loop-ArePublished s local ((host, health) ∷ rest) hosts w h =
        elim (Bool-cases (contains_text host config.edge_dns_zone)) [
          | inl z ↦
              (let (external, e, h') =
                  >>=-eq-ok (provider.get_external_targets host) _ w (rw (z, hosts_loop) at h) in
                let first = parts config provider s local host health external in
                let (good, has, final) =
                  parts-ArePublished config provider s local host health external w _ rest
                    (run-eq-ok (provider.get_external_targets host) w e) in
                let (more, same, published) = hosts_loop-ArePublished s local rest _ _ h' in
                (
                  first ++ more,
                  same ∙ append_assoc hosts first more,
                  hosts-ArePublished config provider s local (host, health) rest first more good has
                      final z published,
                ))
          | inr z ↦ absurd (raise-ne-ok _ w (rw (z, hosts_loop) at h))
        ]

    -- What a cluster has found for a Gslb, and the records for that.
    abbrev pub AreFound : Gslb → W → List Endpoint → Type 0
    AreFound gslb w es =
        (health : Dict String) × (local : List String) × ((get_service_health_status client gslb
            w).0
          ≡ ok health)
        × ((provider.gslb_ingress_exposed_ips gslb (get_service_health_status client gslb w).1).0
            ≡ ok local)
        × ArePublished config provider gslb.spec.strategy local (visit health) es

    -- If `gslb_dns_endpoint` succeeds, then it has found a health report and the local targets, every
    -- host of the report lies in the zone, and every record is an A record of the strategy's time to
    -- live for a host of the report: either, if that host is healthy, the local targets under the
    -- host's "localtargets-" name and without labels, or, under the host's own name and labelled with
    -- the strategy, its final targets for external targets that the provider gave, if these are not
    -- empty. And every host of the report has its record of the former kind if it is healthy, and one
    -- with such final targets if they are not empty.
    pub gslb_dns_endpoint-AreFound :
        (gslb : Gslb) (w : W) {record_set : DnsEndpoint} {w' : W}
        → gslb_dns_endpoint visit client config provider gslb w ≡ (ok record_set, w')
        → AreFound gslb w record_set.endpoints
    unfolding gslb_dns_endpoint
    gslb_dns_endpoint-AreFound gslb w {record_set} h =
        let (health, e1, h1) = >>=-eq-ok (get_service_health_status client gslb) _ w h in
        let (local, e2, h2) = >>=-eq-ok (provider.gslb_ingress_exposed_ips gslb) _ _ h1 in
        let loop =
          hosts_loop visit client config provider gslb.spec.strategy local (visit health) [] in
        let (hosts, e3, h3) = >>=-eq-ok loop _ _ h2 in
        let (meta, e4, h4) =
          >>=-eq-ok (lift (client.set_controller_reference gslb.meta (record_set_meta gslb))) _ _
            h3 in
        let (more, same, published) =
          hosts_loop-ArePublished gslb.spec.strategy local (visit health) [] _
            (run-eq-ok loop _ e3) in
        (
          health,
          local,
          e1,
          e2,
          subst (ArePublished config provider gslb.spec.strategy local (visit health))
              (sym same ∙ ap (λ (d : DnsEndpoint). d.endpoints) (pure-eq-ok _ _ h4)) published,
        )
