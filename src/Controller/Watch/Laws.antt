-- ===== src/Controller/Watch/Laws.antt =====
-- Lemmas on the event handlers (controllers/gslb_controller.go).
use k8gb.Prelude.{
  ◌≡◌, refl, sym, ◌∙◌, ◌⊎◌, inl, inr, arith, String, some, List, [], ◌∷◌, ◌==◌, eq_iff, Any,
  Bool-cases, Option-cases, if◌then◌else◌,
}
use k8gb.Effect.{Outcome, ok, err, panicked, lift}
use k8gb.Effect.Laws.{>>=-eq-ok, handle-eq-ok, pure-eq-ok}
use k8gb.Api.{Gslb, HttpIngressPath, IngressRule, ObjectKey}
use k8gb.Cluster.{Client}
use k8gb.Controller.Watch.{endpoint_map_handler, gslbs_scan, paths_scan, rules_scan}

-- A path of the rules has the service as its backend.
abbrev pub RuleRefers : String → IngressRule → Type 0
RuleRefers service rule =
    (paths : List HttpIngressPath) × (rule.http ≡ some paths)
    × Any (λ p. p.backend.service_name ≡ service) paths

abbrev pub Refers : String → Gslb → Type 0
Refers service gslb = Any (RuleRefers service) gslb.spec.ingress.rules

paths_scan-cases :
    (service gslb : String) (paths : List HttpIngressPath) (name : String)
    → (paths_scan service gslb paths name ≡ name)
      ⊎ ((paths_scan service gslb paths name ≡ gslb)
          × Any (λ p. p.backend.service_name ≡ service) paths)
unfolding paths_scan
paths_scan-cases service gslb [] name = inl refl
paths_scan-cases service gslb (path ∷ paths) name =
    elim (Bool-cases (path.backend.service_name == service)) [
      | inl e ↦ elim (paths_scan-cases service gslb paths gslb) [
        | inl same ↦ inr (rw e same, inl ((eq_iff _ _).0 e))
        | inr (found, _) ↦ inr (rw e found, inl ((eq_iff _ _).0 e))
      ]
      | inr e ↦ elim (paths_scan-cases service gslb paths name) [
        | inl same ↦ inl (rw e same)
        | inr (found, any) ↦ inr (rw e found, inr any)
      ]
    ]

panicked-ne-ok : {s : String} → ¬ (◌≡◌ {A = Outcome String} panicked (ok s))
panicked-ne-ok h = ground arith

rules_scan-cases :
    (service gslb : String) (rules : List IngressRule) (name : String) {result : String}
    → rules_scan service gslb rules name ≡ ok result
    → (result ≡ name) ⊎ ((result ≡ gslb) × Any (RuleRefers service) rules)
unfolding rules_scan
rules_scan-cases service gslb [] name h = inl cc
rules_scan-cases service gslb (rule ∷ rules) name h = elim (Option-cases rule.http) [
  | inl e ↦ absurd (panicked-ne-ok (rw e at h))
  | inr (paths, e) ↦ elim (rules_scan-cases service gslb rules _ (rw e at h)) [
    | inr (found, any) ↦ inr (found, inr any)
    | inl same ↦ elim (paths_scan-cases service gslb paths name) [
      | inl unchanged ↦ inl (same ∙ unchanged)
      | inr (found, any) ↦ inr (same ∙ found, inl (paths, e, any))
    ]
  ]
]

scan-eq-ok :
    (o : Outcome String) (f : String → Outcome String) {r : String}
    → (elim o [ ok n ↦ f n | _ ↦ panicked ]) ≡ ok r
    → (n : String) × (o ≡ ok n) × (f n ≡ ok r)
scan-eq-ok (ok n) f h = (n, refl, h)
scan-eq-ok (err x) f h = absurd (panicked-ne-ok h)
scan-eq-ok panicked f h = absurd (panicked-ne-ok h)

abbrev pub Requested : String → String → Gslb → Type 0
Requested service result gslb = (gslb.meta.name ≡ result) × Refers service gslb

gslbs_scan-cases :
    (service : String) (gslbs : List Gslb) (name : String) {result : String}
    → gslbs_scan service gslbs name ≡ ok result
    → (result ≡ name) ⊎ Any (Requested service result) gslbs
unfolding gslbs_scan
gslbs_scan-cases service [] name h = inl cc
gslbs_scan-cases service (gslb ∷ gslbs) name {result} h =
    let (n, e, k) =
      scan-eq-ok (rules_scan service gslb.meta.name gslb.spec.ingress.rules name)
        (gslbs_scan service gslbs) h in
    elim (gslbs_scan-cases service gslbs n k) [
      | inr any ↦ inr (inr any)
      | inl same ↦ elim (rules_scan-cases service gslb.meta.name gslb.spec.ingress.rules name e) [
        | inl unchanged ↦ inl (same ∙ unchanged)
        | inr (found, any) ↦ inr (inl (sym (same ∙ found), any))
      ]
    ]

-- What an event on the Endpoints of a service asks for: nothing, or one Gslb.
abbrev pub IsRequest : {W : Type 0} → Client W → ObjectKey → W → List ObjectKey → Type 0
IsRequest client object w requests =
    (requests ≡ [])
    ⊎ ((gslbs : List Gslb) × (name : String) × ((client.list_gslbs object.namespace w).0 ≡ ok gslbs)
        × (requests ≡ record { name = name; namespace = object.namespace } ∷ [])
        × Any (Requested object.name name) gslbs)

abbrev request : ObjectKey → String → ObjectKey
request object name = record { name = name; namespace = object.namespace }

request_of :
    (object : ObjectKey) (gslbs : List Gslb) (name : String)
    → (name ≡ "") ⊎ Any (Requested object.name name) gslbs
    → ((if name == "" then [] else request object name ∷ []) ≡ [])
      ⊎ (((if name == "" then [] else request object name ∷ []) ≡ request object name ∷ [])
          × Any (Requested object.name name) gslbs)
request_of object gslbs name (inl e) = inl (rw e refl)
request_of object gslbs name (inr any) = elim (Bool-cases (name == "")) [
  | inl e ↦ inl (rw e refl)
  | inr e ↦ inr (rw e refl, any)
]

-- An event on the Endpoints of a service asks for nothing, or for one Gslb of its namespace: one
-- that the server lists there and that has the service as the backend of a path.
pub endpoint_map_handler-IsRequest :
    {W : Type 0} (client : Client W) (object : ObjectKey) (w : W) {requests : List ObjectKey}
    {w' : W}
    → endpoint_map_handler client object w ≡ (ok requests, w')
    → IsRequest client object w requests
unfolding endpoint_map_handler
endpoint_map_handler-IsRequest client object w h =
    elim (handle-eq-ok (client.list_gslbs object.namespace) _ _ w h) [
      | inr (_, _, h1) ↦ inl (sym (pure-eq-ok _ _ h1))
      | inl (gslbs, e, h1) ↦
          (let (name, e2, h2) = >>=-eq-ok (lift (gslbs_scan object.name gslbs "")) _ _ h1 in
            elim (request_of object gslbs name (gslbs_scan-cases object.name gslbs "" e2)) [
              | inl nothing ↦ inl (sym (pure-eq-ok _ _ h2) ∙ nothing)
              | inr (one, any) ↦ inr (gslbs, name, e, sym (pure-eq-ok _ _ h2) ∙ one, any)
            ])
    ]
