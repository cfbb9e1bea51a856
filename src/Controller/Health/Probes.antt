-- ===== src/Controller/Health/Probes.antt =====
-- Lemmas on the health report (controllers/status.go).
use k8gb.Prelude.{
  Option, not, ◌&&◌, ◌||◌, arith, is_empty, ◌≡◌, ◌≢◌, refl, sym, ◌∙◌, ap, ◌⊎◌, inl, inr, String,
  Bool, true, false, none, some, List, [], ◌∷◌, ◌++◌, ◌==◌, eq_refl, All, Bool-cases, Option-cases,
  if◌then◌else◌,
}
use k8gb.Prelude.Dict.{Dict, insert, lookup, lookup-insert, NodupKeys, insert-NodupKeys}
use k8gb.Effect.{ok, is_not_found}
use k8gb.Effect.Laws.{>>=-eq-ok, handle-eq-ok, pure-eq-ok, crash-ne-ok, raise-ne-ok, run-eq-ok}
use k8gb.Api.{Gslb, HttpIngressPath, IngressRule}
use k8gb.Cluster.{Client}
use k8gb.Controller.Health.{get_service_health_status, has_address, paths_loop, probe, rules_loop}

abbrev pub IsStatus : String → Type 0
IsStatus s = (s ≡ "Healthy") ⊎ ((s ≡ "Unhealthy") ⊎ (s ≡ "NotFound"))

abbrev is_some : Option String → Bool
is_some none = false
is_some (some _) = true

abbrev pub is_reported : String → Dict String → Bool
is_reported host d = is_some (lookup host d)

-- A rule for the host that has a path.
abbrev pub has_path : String → IngressRule → Bool
has_path host rule =
    rule.host == host && elim rule.http [ none ↦ false | some paths ↦ not (is_empty paths) ]

abbrev pub some_path : String → List IngressRule → Bool
some_path host [] = false
some_path host (rule ∷ rules) = has_path host rule || some_path host rules

abbrev AreStatuses : Dict String → Type 0
AreStatuses d = NodupKeys d × All (λ e. IsStatus e.1) d

-- Just the hosts for which a rule has a path are reported, each once and with one of the three
-- statuses.
abbrev pub IsReport : List IngressRule → Dict String → Type 0
IsReport rules d = AreStatuses d × ((host : String) → is_reported host d ≡ some_path host rules)

or_false : (b : Bool) → (b || false) ≡ b
or_false b = ground arith

is_reported-insert :
    (host k v : String) (d : Dict String)
    → is_reported host (insert k v d) ≡ (k == host || is_reported host d)
is_reported-insert host k v d = ap is_some (lookup-insert host k v d) ∙ ground arith

insert-All :
    (P : String → Type 0) (k v : String) (d : Dict String)
    → P v
    → All (λ e. P e.1) d
    → All (λ e. P e.1) (insert k v d)
unfolding insert
insert-All P k v [] p _ = (p, tt)
insert-All P k v ((j, u) ∷ d) p (q, qs) = elim (Bool-cases (j == k)) [
  | inl e ↦ rw e (p, qs)
  | inr e ↦ rw e (q, insert-All P k v d p qs)
]

choice-IsStatus : (b : Bool) → IsStatus (if b then "Healthy" else "Unhealthy")
choice-IsStatus true = inl refl
choice-IsStatus false = inr (inl refl)

module _ {W : Type 0} (client : Client W) where
  probe-IsStatus :
      (namespace : String) (path : HttpIngressPath) (w : W) {s : String} {w' : W}
      → probe client namespace path w ≡ (ok s, w')
      → IsStatus s
  unfolding probe
  probe-IsStatus namespace path w h =
      elim (handle-eq-ok
        (client.get_service (record { name = path.backend.service_name; namespace = namespace })) _
        _ w h) [
          | inl (_, _, h') ↦
              (let (endpoints, _, h'') =
                  >>=-eq-ok
                    (client.get_endpoints
                      (record { name = path.backend.service_name; namespace = namespace }))
                    _ _ h' in
                rw (pure-eq-ok _ _ h'') at (choice-IsStatus (has_address endpoints)))
          | inr (e, _, h') ↦ elim (Bool-cases (is_not_found e)) [
            | inl n ↦ inr (inr (sym (pure-eq-ok _ _ (rw n at h'))))
            | inr n ↦ absurd (raise-ne-ok _ _ (rw n at h'))
          ]
        ]

  paths_loop-AreStatuses :
      (namespace host : String) (paths : List HttpIngressPath) (d : Dict String) (w : W)
      {result : Dict String} {w' : W}
      → AreStatuses d
      → paths_loop client namespace host paths d w ≡ (ok result, w')
      → AreStatuses result
  unfolding paths_loop
  paths_loop-AreStatuses namespace host [] d w r h = rw (pure-eq-ok d w h) at r
  paths_loop-AreStatuses namespace host (path ∷ paths) d w (u, s) h =
      let (health, e, h') = >>=-eq-ok (probe client namespace path) _ w h in
      paths_loop-AreStatuses namespace host paths (insert host health d) _
        (
          insert-NodupKeys host health d u,
          insert-All IsStatus host health d
              (probe-IsStatus namespace path w (run-eq-ok (probe client namespace path) w e)) s,
        )
        h'

  rules_loop-AreStatuses :
      (namespace : String) (rules : List IngressRule) (d : Dict String) (w : W)
      {result : Dict String} {w' : W}
      → AreStatuses d
      → rules_loop client namespace rules d w ≡ (ok result, w')
      → AreStatuses result × All (λ r. r.http ≢ none) rules
  unfolding rules_loop
  rules_loop-AreStatuses namespace [] d w r h = (rw (pure-eq-ok d w h) at r, tt)
  rules_loop-AreStatuses namespace (rule ∷ rules) d w r h = elim (Option-cases rule.http) [
    | inl e ↦ absurd (crash-ne-ok w (rw e at h))
    | inr (paths, e) ↦
        let (d', p, h') =
          >>=-eq-ok (paths_loop client namespace rule.host paths d)
            (rules_loop client namespace rules) w (rw e at h) in
        let (report, rest) =
          rules_loop-AreStatuses namespace rules d' _
            (paths_loop-AreStatuses namespace rule.host paths d w r
              (run-eq-ok (paths_loop client namespace rule.host paths d) w p))
            h' in
        (report, ((λ n. cc), rest))
  ]

  paths_loop-is_reported :
      (namespace host : String) (paths : List HttpIngressPath) (d : Dict String) (w : W)
      {result : Dict String} {w' : W} (name : String)
      → paths_loop client namespace host paths d w ≡ (ok result, w')
      → is_reported name result ≡ ((host == name && not (is_empty paths)) || is_reported name d)
  unfolding paths_loop
  paths_loop-is_reported namespace host [] d w name h =
      ap (is_reported name) (sym (pure-eq-ok d w h)) ∙ ground arith
  paths_loop-is_reported namespace host (path ∷ paths) d w name h =
      let (health, _, h') = >>=-eq-ok (probe client namespace path) _ w h in
      paths_loop-is_reported namespace host paths (insert host health d) _ name h'
      ∙ rw (is_reported-insert name host health d) (ground arith)

  rules_loop-is_reported :
      (namespace : String) (rules : List IngressRule) (d : Dict String) (w : W)
      {result : Dict String} {w' : W} (name : String)
      → rules_loop client namespace rules d w ≡ (ok result, w')
      → is_reported name result ≡ (some_path name rules || is_reported name d)
  unfolding rules_loop
  rules_loop-is_reported namespace [] d w name h = ap (is_reported name) (sym (pure-eq-ok d w h))
  rules_loop-is_reported namespace (rule ∷ rules) d w name h = elim (Option-cases rule.http) [
    | inl e ↦ absurd (crash-ne-ok w (rw e at h))
    | inr (paths, e) ↦
        let loop = paths_loop client namespace rule.host paths d in
        let (d', p, h') = >>=-eq-ok loop (rules_loop client namespace rules) w (rw e at h) in
        let first =
          paths_loop-is_reported namespace rule.host paths d w name (run-eq-ok loop w p) in
        rules_loop-is_reported namespace rules d' _ name h' ∙ rw (first, e) (ground arith)
  ]

  -- If the health of a Gslb is found, then every rule has an HTTP part, and the report lists just the
  -- hosts for which a rule has a path, each once and with one of the statuses "Healthy", "Unhealthy"
  -- and "NotFound".
  pub get_service_health_status-IsReport :
      (gslb : Gslb) (w : W) {health : Dict String} {w' : W}
      → get_service_health_status client gslb w ≡ (ok health, w')
      → IsReport gslb.spec.ingress.rules health × All (λ r. r.http ≢ none) gslb.spec.ingress.rules
  unfolding get_service_health_status lookup
  get_service_health_status-IsReport gslb w h =
      let rules = gslb.spec.ingress.rules in
      let (statuses, parts) = rules_loop-AreStatuses gslb.meta.namespace rules [] w (tt, tt) h in
      (
        (
          statuses,
          λ host.
              rules_loop-is_reported gslb.meta.namespace rules [] w host h
              ∙ or_false (some_path host rules),
        ),
        parts,
      )

  -- If the loop over the paths of a rule succeeds, then its host's health is what the probe of its last
  -- path found, after all others, whatever the paths before it are.
  pub paths_loop_last :
      (namespace host : String) (paths : List HttpIngressPath) (last : HttpIngressPath)
      (d : Dict String) (w : W) {result : Dict String} {w' : W}
      → paths_loop client namespace host (paths ++ last ∷ []) d w ≡ (ok result, w')
      → (health : String) × (before : W) × (probe client namespace last before ≡ (ok health, w'))
        × (lookup host result ≡ some health)
  unfolding paths_loop
  paths_loop_last namespace host [] last d w h =
      let (health, e, h') = >>=-eq-ok (probe client namespace last) _ w h in
      (
        health,
        w,
        run-eq-ok (probe client namespace last) w e ∙ ap (λ r. (ok health, r.1)) h',
        ap (lookup host) (sym (pure-eq-ok _ _ h'))
            ∙ lookup-insert host host health d
            ∙ rw (eq_refl host) refl,
      )
  paths_loop_last namespace host (path ∷ paths) last d w h =
      let (health, e, h') = >>=-eq-ok (probe client namespace path) _ w h in
      paths_loop_last namespace host paths last (insert host health d) _ h'
