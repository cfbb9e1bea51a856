-- ===== src/Tests/Lifecycle.antt =====
-- A history of one Gslb, with an API server whose answers may be lost.
use k8gb.Prelude.{
  ◌≡◌, refl, sym, ap, inl, inr, Bool, true, false, Option, none, some, List, [], ◌∷◌, String,
  if◌then◌else◌,
}
use k8gb.Prelude.Sort.{sort}
use k8gb.Prelude.Dict.{insert}
use k8gb.Effect.{Error, Outcome, ok, err}
use k8gb.Effect.Keeps.{Keeps}
use k8gb.Api.{Gslb, key_of, ObjectMeta}
use k8gb.Api.Equality.{GslbSpec-discrete}
use k8gb.Cluster.{Client, Gauges}
use k8gb.Controller.Lifecycle.{
  IsAnswer, IsGuarded, IsRead, IsUpdate, Lawful, LawfulProvider, LawfulServer, Observed, Steps,
  by_operator, by_user, created, deleted, done, next, written,
}
use k8gb.Controller.Lifecycle.Histories.{reconcile-stop-IsEnded, Steps-IsGuarded}
use k8gb.Controller.Reconcile.{reconcile}
use k8gb.Depresolver.{new_dependency_resolver}
use k8gb.Dns.{Provider}
use k8gb.Tests.World.{app, app_key, eu_config, in_order, settled_resolver}
use k8gb.Utils.Result.{stop}

pub record State : Type 0 where
  pub seen : Observed
  pub lossy : Bool

abbrev read_object : Option (List String) → Bool → Outcome Gslb
read_object none marked = err Error.not_found
read_object (some fs) marked = ok (app fs marked)

abbrev answered : Gslb → State → Outcome Gslb
answered g w =
    if w.lossy
    then err (Error.external "timeout")
    else ok (record g { meta = record g.meta { marked_for_deletion = w.seen.marked } })

abbrev write_object : Option (List String) → Gslb → State → Outcome Gslb × State
write_object none g w = (err Error.not_found, w)
write_object (some fs) g w = (answered g w, record w { seen = written g.meta.finalizers w.seen })

abbrev pub server : Client State
server = record {
  get_gslb = λ key w. (read_object w.seen.object w.seen.marked, w);
  list_gslbs = λ namespace w. (ok [], w);
  create_gslb = λ g w. (ok tt, w);
  update_gslb = λ g w. write_object w.seen.object g w;
  update_gslb_status = λ g w. (ok g, w);
  get_service = λ key w. (ok [], w);
  get_endpoints = λ key w. (ok (("10.1.0.1" ∷ []) ∷ []), w);
  get_ingress = λ key w. (err Error.not_found, w);
  create_ingress = λ i w. (ok tt, w);
  update_ingress = λ i w. (ok tt, w);
  get_dns_endpoint = λ key w. (err Error.not_found, w);
  create_dns_endpoint = λ d w. (ok tt, w);
  update_dns_endpoint = λ d w. (ok tt, w);
  delete_dns_endpoint = λ d w. (ok tt, w);
  set_meta_data_annotation = λ m k v. m;
  set_controller_reference = λ owner object. ok (record object { owner = some owner.name });
}

abbrev gauges : Gauges State
gauges = record { set_gauge = λ name labels n w. (ok tt, w) }

abbrev edge : Provider State
edge = record {
  create_zone_delegation = λ g w. (ok tt, record w { seen = record w.seen { delegated = true } });
  gslb_ingress_exposed_ips = λ g w. (ok ("10.0.0.1" ∷ []), w);
  get_external_targets = λ host w. (ok [], w);
  save_dns_endpoint = λ g d w. (ok tt, w);
  finalize = λ g w. (ok tt, record w { seen = record w.seen { delegated = false } });
}

abbrev pub seen : State → Observed
seen w = w.seen

IsRead-law :
    (o : Observed) (fs : Option (List String))
    → o.object ≡ fs
    → IsRead app_key o (read_object fs o.marked)
IsRead-law o none e = e
IsRead-law o (some fs) e = (e, refl, refl)

IsAnswer-law : (g : Gslb) (w : State) → IsAnswer g w.seen.marked (answered g w)
IsAnswer-law g w =
    elim w.lossy
      as (λ b. IsAnswer g w.seen.marked (
        if b
        then err (Error.external "timeout")
        else ok (record g { meta = record g.meta { marked_for_deletion = w.seen.marked } }))) [
          | true ↦ tt
          | false ↦ (refl, refl, refl)
        ]

write_law :
    (fs : Option (List String)) (g : Gslb) (w : State)
    → w.seen.object ≡ fs
    → IsUpdate g w.seen (write_object fs g w).0 (write_object fs g w).1.seen
write_law none g w e = inl (refl, tt)
write_law (some fs) g w e = inr (fs, e, refl, IsAnswer-law g w)

pub unchanged : {A : Type 0} (r : State → Outcome A) → Keeps seen (λ w. (r w, w))
unchanged r = record { same = λ w. refl }

meta_of : Outcome ObjectMeta → ObjectMeta → ObjectMeta
meta_of (ok m) d = m
meta_of _ d = d

owned :
    (owner m : ObjectMeta) {m' : ObjectMeta}
    → server.set_controller_reference owner m ≡ ok m'
    → key_of m' ≡ key_of m
unfolding meta_of
owned owner m h = sym (ap (λ r. key_of (meta_of r m)) h)

lawful_server : LawfulServer app_key seen server gauges
lawful_server = record {
  get_gslb = unchanged _;
  get_gslb_IsRead = λ w. IsRead-law w.seen w.seen.object refl;
  update_gslb = λ g w. write_law w.seen.object g w refl;
  update_gslb_status = λ g. unchanged _;
  get_service = λ k. unchanged _;
  get_endpoints = λ k. unchanged _;
  get_ingress = λ k. unchanged _;
  create_ingress = λ i. unchanged _;
  update_ingress = λ i. unchanged _;
  get_dns_endpoint = λ k. unchanged _;
  set_annotation = λ m k v. refl;
  set_owner = owned;
  set_gauge = λ name labels n. unchanged _;
}

lawful_edge : LawfulProvider app_key seen edge
lawful_edge = record {
  exposed_ips = λ g. unchanged _;
  external_targets = λ host. unchanged _;
  save_dns_endpoint = λ g d _ _. unchanged _;
  delegation_object = λ g w. refl;
  finalize_object = λ g w. refl;
  finalize_IsFinalization = λ g w. refl;
}

lawful : Lawful app_key seen server gauges edge
lawful = record { server = lawful_server; edge = lawful_edge }

abbrev state : Option (List String) → Bool → Bool → State
state fs marked delegated = record {
  seen = record { object = fs; marked = marked; delegated = delegated };
  lossy = false;
}

abbrev before : State
before = state none false false

abbrev asked : State
asked = state (some []) false false

abbrev serving : State
serving = state (some ("k8gb.absa.oss/finalizer" ∷ [])) false true

abbrev leaving : State
leaving = state (some ("k8gb.absa.oss/finalizer" ∷ [])) true true

serve_run :
    (reconcile in_order server gauges eu_config edge new_dependency_resolver app_key asked).1
    ≡ serving
unfolding reconcile insert sort GslbSpec-discrete
serve_run = refl

leave_run :
    reconcile in_order server gauges eu_config edge settled_resolver app_key leaving
    ≡ (ok (settled_resolver, stop), state none true false)
unfolding reconcile GslbSpec-discrete
leave_run = refl

abbrev history : Steps app_key seen server gauges edge before leaving
history =
    next
      (next (next done (by_user (created [] refl refl)))
        (by_operator in_order eu_config new_dependency_resolver serve_run))
      (by_user (deleted ("k8gb.absa.oss/finalizer" ∷ []) refl refl))

Steps-IsGuarded_example : IsGuarded (leaving.seen)
Steps-IsGuarded_example = Steps-IsGuarded lawful before leaving history refl

reconcile-stop-IsEnded_example : (state none true false).seen.delegated ≡ false
reconcile-stop-IsEnded_example =
    reconcile-stop-IsEnded lawful before leaving in_order eu_config settled_resolver history refl
      refl leave_run
