-- ===== src/Controller/Watch/Created.antt =====
-- Lemmas on the Gslb that an annotated Ingress leads to (controllers/gslb_controller.go).
use k8gb.Prelude.{
  ◌≡◌, refl, ap, ◌∙◌, inl, inr, arith, String, false, ◌&&◌, ◌||◌, Option, none, some, List, [], ◌∷◌,
  ◌==◌, eq_iff, Bool-cases, if◌then◌else◌,
}
use k8gb.Prelude.Dict.{Dict, lookup, NodupKeys}
use k8gb.Prelude.Int.{ℤ, pos}
use k8gb.Prelude.Numbers.{atoi}
use k8gb.Effect.{Error, Outcome, Run, continue, settle, ok, err, panicked, pure}
use k8gb.Api.{Gslb, ObjectKey, ObjectMeta, Strategy, key_of}
use k8gb.Api.Conversion.{from_v1beta1_ingress_spec}
use k8gb.Cluster.{Client, Ingress}
use k8gb.Controller.Watch.{
  annotated_strategy, create_gslb_from_ingress, geo_tag_from, ingress_map_handler, numbers_from,
  strategies_loop,
}

-- The value of an annotation as a text and as a number, with a default.
abbrev text_or : String → Option String → String
text_or d none = d
text_or d (some t) = t

abbrev number_or : ℤ → Option String → ℤ
number_or d none = d
number_or d (some t) = (atoi t).0

abbrev pub geo_tag_of : Dict String → String
geo_tag_of annotations = text_or "" (lookup "k8gb.io/primary-geotag" annotations)

-- The strategy that annotations describe.
abbrev pub strategy_of : Dict String → String → Strategy
strategy_of annotations kind = record {
  kind = kind;
  primary_geo_tag = if kind == "failover" then geo_tag_of annotations else "";
  dns_ttl_seconds = number_or (pos 0) (lookup "k8gb.io/dns-ttl-seconds" annotations);
  split_brain_threshold_seconds =
      number_or (pos 0) (lookup "k8gb.io/splitbrain-threshold-seconds" annotations);
}

numbers_from-eq :
    (d : Dict String) (s : Strategy)
    → NodupKeys d
    → numbers_from d s ≡ record s {
      dns_ttl_seconds = number_or s.dns_ttl_seconds (lookup "k8gb.io/dns-ttl-seconds" d);
      split_brain_threshold_seconds =
          number_or s.split_brain_threshold_seconds
            (lookup "k8gb.io/splitbrain-threshold-seconds" d);
    }
unfolding numbers_from lookup
numbers_from-eq [] s _ = refl
numbers_from-eq ((k, v) ∷ d) s (fresh, n) = elim (Bool-cases (k == "k8gb.io/dns-ttl-seconds")) [
  | inl e ↦
      let absent = rw ((eq_iff k _).0 e) at fresh in
      rw
        (
          e,
          numbers_from-eq d (record s { dns_ttl_seconds = (atoi v).0 }) n,
          absent,
          ap (λ x. x == "k8gb.io/splitbrain-threshold-seconds") ((eq_iff k _).0 e),
        )
        refl
  | inr e ↦ elim (Bool-cases (k == "k8gb.io/splitbrain-threshold-seconds")) [
    | inl f ↦
        let absent = rw ((eq_iff k _).0 f) at fresh in
        rw
          (
            e,
            f,
            numbers_from-eq d (record s { split_brain_threshold_seconds = (atoi v).0 }) n,
            absent,
          )
          refl
    | inr f ↦ rw (e, f, numbers_from-eq d s n) refl
  ]
]

geo_tag_from-eq :
    (d : Dict String) (s : Strategy)
    → NodupKeys d
    → geo_tag_from d s
      ≡ record s { primary_geo_tag = text_or s.primary_geo_tag (lookup "k8gb.io/primary-geotag" d) }
unfolding geo_tag_from lookup
geo_tag_from-eq [] s _ = refl
geo_tag_from-eq ((k, v) ∷ d) s (fresh, n) = elim (Bool-cases (k == "k8gb.io/primary-geotag")) [
  | inl e ↦
      let absent = rw ((eq_iff k _).0 e) at fresh in
      rw (e, geo_tag_from-eq d (record s { primary_geo_tag = v }) n, absent) refl
  | inr e ↦ rw (e, geo_tag_from-eq d s n) refl
]

-- No Gslb is made for a failover without a primary geo tag.
annotated_strategy-eq :
    (d : Dict String) (kind : String)
    → NodupKeys d
    → annotated_strategy d kind
      ≡ (if kind == "failover" && geo_tag_of d == "" then none else some (strategy_of d kind))
unfolding annotated_strategy
annotated_strategy-eq d kind n =
    let s : Strategy = record {
      kind = kind;
      primary_geo_tag = "";
      dns_ttl_seconds = pos 0;
      split_brain_threshold_seconds = pos 0;
    } in
    let numbered : Strategy = record s {
      dns_ttl_seconds = number_or (pos 0) (lookup "k8gb.io/dns-ttl-seconds" d);
      split_brain_threshold_seconds =
          number_or (pos 0) (lookup "k8gb.io/splitbrain-threshold-seconds" d);
    } in
    elim (Bool-cases (kind == "failover")) [
      | inl e ↦ rw (numbers_from-eq d s n, geo_tag_from-eq d numbered n, e) refl
      | inr e ↦ rw (numbers_from-eq d s n, e) refl
    ]

-- The Gslb for an Ingress and the annotations of an object.
abbrev pub gslb_of : ObjectMeta → Ingress → String → Gslb
gslb_of a ingress kind = record {
  meta = record {
    name = a.name;
    namespace = a.namespace;
    annotations = a.annotations;
    labels = [];
    finalizers = [];
    marked_for_deletion = false;
    owner = some ingress.meta.name;
  };
  spec = record {
    ingress = from_v1beta1_ingress_spec ingress.spec;
    strategy = strategy_of a.annotations kind;
  };
  status = record { service_health = []; healthy_records = []; geo_tag = "" };
}

some-eq : {s t : String} → some s ≡ some t → s ≡ t
some-eq h = cc

-- An object without an owner gets the one given.
abbrev pub SetsOwner : {W : Type 0} → Client W → Type 0
SetsOwner client =
    (owner object : ObjectMeta)
    → object.owner ≡ none
    → client.set_controller_reference owner object ≡ ok (record object { owner = some owner.name })

abbrev pub strategy_key : String
strategy_key = "k8gb.io/strategy"

module _ {W : Type 0} where
  continue_done :
      (r : Outcome (Unit {0})) (n : Run W (List ObjectKey)) (v : W)
      → n v ≡ (ok [], v)
      → (continue r (λ _. n) v).1 ≡ v
  continue_done (ok _) n v h = ap (λ q. q.1) h
  continue_done (err e) n v h = refl
  continue_done panicked n v h = refl

  settle_done : (r : Outcome (Unit {0})) (v : W) → (settle r (λ _. pure tt) (λ _. pure tt) v).1 ≡ v
  settle_done (ok _) v = refl
  settle_done (err e) v = refl
  settle_done panicked v = refl

module _ {W : Type 0} (client : Client W) (a : ObjectMeta) where
  -- Without an annotation for the strategy, nothing is done.
  strategies_loop-none :
      (d : Dict String) (w : W)
      → lookup strategy_key d ≡ none
      → strategies_loop client a d w ≡ (ok [], w)
  unfolding strategies_loop lookup
  strategies_loop-none [] w h = refl
  strategies_loop-none ((k, v) ∷ d) w h = elim (Bool-cases (k == strategy_key)) [
    | inl e ↦ absurd (ground (arith, e))
    | inr e ↦ rw e (strategies_loop-none d w (rw e at h))
  ]

  -- What is done for a strategy.
  abbrev handled : String → Run W (Unit {0})
  handled v =
      if v == "roundRobin"
      then create_gslb_from_ingress client a "roundRobin"
      else if v == "failover"
      then create_gslb_from_ingress client a "failover"
      else pure tt

  strategies_loop-some :
      (d : Dict String) (v : String) (w : W)
      → NodupKeys d
      → lookup strategy_key d ≡ some v
      → (strategies_loop client a d w).1 ≡ (handled v w).1
  unfolding strategies_loop lookup
  strategies_loop-some [] v w n h = absurd (ground arith)
  strategies_loop-some ((k, u) ∷ d) v w (fresh, n) h = elim (Bool-cases (k == strategy_key)) [
    | inl e ↦
        let same : u ≡ v = some-eq (rw e at h) in
        let absent = rw ((eq_iff k _).0 e) at fresh in
        rw e (
          continue_done (handled u w).0 (strategies_loop client a d) (handled u w).1
            (strategies_loop-none d (handled u w).1 absent)
          ∙ ap (λ t. (handled t w).1) same)
    | inr e ↦ rw e (strategies_loop-some d v w n (rw e at h))
  ]

  -- The Ingress is there and no Gslb of that name.
  module _ (ingress : Ingress) (e : Error) (w w1 w2 : W)
      (got : client.get_ingress (key_of a) w ≡ (ok ingress, w1))
      (missing : client.get_gslb (key_of a) w1 ≡ (err e, w2)) where
    abbrev created : String → W
    created kind =
        if kind == "failover" && geo_tag_of a.annotations == ""
        then w2
        else (client.create_gslb (gslb_of a ingress kind) w2).1

    create_gslb_from_ingress-created :
        (kind : String)
        → SetsOwner client
        → NodupKeys a.annotations
        → (create_gslb_from_ingress client a kind w).1 ≡ created kind
    unfolding create_gslb_from_ingress
    create_gslb_from_ingress-created kind sets n =
        let gslb = gslb_of a ingress kind in
        let tried = client.create_gslb gslb w2 in
        let unowned : ObjectMeta = record gslb.meta { owner = none } in
        elim (Bool-cases (kind == "failover" && geo_tag_of a.annotations == "")) [
          | inl t ↦ rw (got, missing, annotated_strategy-eq a.annotations kind n, t) refl
          | inr t ↦
              rw
                (
                  got,
                  missing,
                  annotated_strategy-eq a.annotations kind n,
                  t,
                  sets ingress.meta unowned refl,
                )
                (settle_done tried.0 tried.1)
        ]

    -- Take an event on an object whose annotations have a strategy, each key once. There is an
    -- Ingress of its name but no Gslb that can be read, and the API server sets owners. If the
    -- strategy is roundRobin or failover, then the world that the handler leaves is the one after
    -- the creation of the Gslb with the object's name, namespace and annotations, owned by the
    -- Ingress, with the Ingress' specification, that strategy, and the numbers and, for failover, the
    -- primary geo tag of the annotations. Only if a failover has no primary geo tag, nothing is
    -- created. For any other strategy the world stays as it is.
    pub ingress_map_handler-created :
        (strategy : String)
        → SetsOwner client
        → NodupKeys a.annotations
        → lookup strategy_key a.annotations ≡ some strategy
        → (ingress_map_handler client a w).1
          ≡ (if strategy == "roundRobin" || strategy == "failover" then created strategy else w)
    unfolding ingress_map_handler
    ingress_map_handler-created strategy sets n h =
        let made = λ (kind : String). create_gslb_from_ingress-created kind sets n in
        strategies_loop-some a.annotations strategy w n h
        ∙ elim (Bool-cases (strategy == "roundRobin")) [
          | inl e ↦ rw (e, (eq_iff strategy _).0 e) (made "roundRobin")
          | inr e ↦ elim (Bool-cases (strategy == "failover")) [
            | inl f ↦ rw (e, f, (eq_iff strategy _).0 f) (made "failover")
            | inr f ↦ rw (e, f) refl
          ]
        ]
