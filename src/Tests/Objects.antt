-- ===== src/Tests/Objects.antt =====
-- Objects in the API server: Ingresses, record sets, finalizers, and the operator's own settings.
use k8gb.Prelude.{
  ◌≡◌, refl, sym, ap, ◌∙◌, arith, inl, inr, String, Bool, true, false, ◌&&◌, Option, none, some,
  List, [], ◌∷◌, ◌==◌, eq_iff, eq_refl, Bool-cases,
}
use k8gb.Prelude.Dict.{Dict, NodupKeys, lookup}
use k8gb.Prelude.Int.{pos}
use k8gb.Effect.{Error, Outcome, is_not_found, ok, err}
use k8gb.Api.{ObjectKey, key_of}
use k8gb.Api.Conversion.{to_v1beta1_ingress_spec}
use k8gb.Assistant.{remove_endpoint, save_dns_endpoint}
use k8gb.Assistant.Store.{IsStore, remove_endpoint-absent, save_dns_endpoint-stored}
use k8gb.Cluster.{DnsClient, DnsEndpoint, Ingress}
use k8gb.Controller.Finalizers.{contains, remove}
use k8gb.Controller.Finalizers.Removal.{AtMostOnce, remove-eq-filter, without}
use k8gb.Controller.Ingress.{merged, save_ingress}
use k8gb.Controller.Ingress.Laws.{save_ingress-merged}
use k8gb.Tests.World.{World, app_key, app_meta, app_spec, in_order, memory, named, running, world}

abbrev empty_set : DnsEndpoint
empty_set = record { meta = app_meta [] false; endpoints = [] }

key-eq : (a b : ObjectKey) → a.name ≡ b.name → a.namespace ≡ b.namespace → a ≡ b
key-eq a b p q = cc

ok-eq : {d e : DnsEndpoint} → ◌≡◌ {A = Outcome DnsEndpoint} (ok d) (ok e) → d ≡ e
ok-eq h = cc

err-ne-ok : {x : Error} {d : DnsEndpoint} → ¬ (◌≡◌ {A = Outcome DnsEndpoint} (err x) (ok d))
err-ne-ok h = ground arith

both : (a b : Bool) → (a && b) ≡ true → (a ≡ true) × (b ≡ true)
both a b h = ground arith

named-key :
    (key : ObjectKey) (o : Option DnsEndpoint) (d : DnsEndpoint)
    → named key o ≡ ok d
    → key_of d.meta ≡ key
named-key key none d h = absurd (err-ne-ok h)
named-key key (some found) d h =
    elim (Bool-cases (found.meta.name == key.name && found.meta.namespace == key.namespace)) [
      | inr e ↦ absurd (err-ne-ok (rw e at h))
      | inl e ↦
          (let (n, ns) =
              both (found.meta.name == key.name) (found.meta.namespace == key.namespace) e in
            ap (λ x. key_of x.meta) (sym (ok-eq (rw e at h)))
            ∙ key-eq (key_of found.meta) key ((eq_iff _ _).0 n) ((eq_iff _ _).0 ns))
    ]

named-own : (d : DnsEndpoint) → named (key_of d.meta) (some d) ≡ ok d
named-own d = rw (eq_refl d.meta.name, eq_refl d.meta.namespace) refl

memory-IsStore : IsStore memory
memory-IsStore = record {
  keyed = λ key w d w' h. named-key key w.records d (ap (λ r. r.0) h);
  created =
      λ d w w' h. ap (λ v. named (key_of d.meta) v.records) (sym (ap (λ r. r.1) h)) ∙ named-own d;
  updated =
      λ d w w' h. ap (λ v. named (key_of d.meta) v.records) (sym (ap (λ r. r.1) h)) ∙ named-own d;
  deleted = λ d w w' h. ap (λ v. named (key_of d.meta) v.records) (sym (ap (λ r. r.1) h));
  absent = λ key w w' e h. ap (λ v. named key v.records) (sym (ap (λ r. r.1) h)) ∙ ap (λ r. r.0) h;
}

abbrev no_dns : DnsClient World
no_dns = record {
  fqdn = λ s. s;
  exchange = λ name type server port w. (ok [], w);
  set_dns = λ server w. (ok tt, w);
  dig_a = λ server name w. (ok [], w);
  parse_time = λ s. ok (pos 0);
  format_time = λ t. "";
  now = λ w. (ok (pos 0), w);
}

abbrev saved_world : World
saved_world = record world { records = some empty_set }

save_run :
    save_dns_endpoint in_order memory no_dns "k8gb" "1.1.1.1" (pos 53) "prod" empty_set world
    ≡ (ok tt, saved_world)
unfolding save_dns_endpoint
save_run = refl

save_dns_endpoint-stored_example :
    (d : DnsEndpoint) × ((memory.get_dns_endpoint app_key saved_world).0 ≡ ok d)
    × (d.endpoints ≡ [])
    × (d.meta.labels ≡ [])
    × (d.meta.annotations ≡ [])
save_dns_endpoint-stored_example =
    save_dns_endpoint-stored in_order memory no_dns "k8gb" "1.1.1.1" (pos 53) memory-IsStore
      empty_set world save_run

abbrev gslb_set : DnsEndpoint
gslb_set = record empty_set { meta = record (app_meta [] false) { namespace = "k8gb" } }

remove_run :
    remove_endpoint in_order memory no_dns "k8gb" "1.1.1.1"
      (pos 53)
      "app"
      (record world { records = some gslb_set })
    ≡ (ok tt, world)
unfolding remove_endpoint
remove_run = refl

remove_endpoint-absent_example :
    (e : Error) × ((memory.get_dns_endpoint (record { name = "app"; namespace = "k8gb" }) world).0
      ≡ err e)
    × (is_not_found e ≡ true)
remove_endpoint-absent_example =
    remove_endpoint-absent in_order memory no_dns "k8gb" "1.1.1.1" (pos 53) memory-IsStore "app"
      (record world { records = some gslb_set }) remove_run

abbrev old_ingress : Ingress
old_ingress = record {
  meta = record (app_meta [] false) { annotations = ("kept", "1") ∷ [] };
  spec = to_v1beta1_ingress_spec (record app_spec { rules = [] });
  load_balancer = [];
}

abbrev new_ingress : Ingress
new_ingress = record {
  meta = record (app_meta [] false) { annotations = ("k8gb.io/strategy", "failover") ∷ [] };
  spec = to_v1beta1_ingress_spec app_spec;
  load_balancer = [];
}

abbrev merged_world : World
merged_world = record world { ingress = some (merged old_ingress new_ingress) }

fresh : NodupKeys new_ingress.meta.annotations
unfolding lookup
fresh = (refl, tt)

save_ingress-merged_example :
    save_ingress memory running new_ingress merged_world ≡ (ok tt, merged_world)
save_ingress-merged_example =
    save_ingress-merged memory running old_ingress new_ingress merged_world fresh refl

abbrev finalizer_list : List String
finalizer_list = "other" ∷ "k8gb.absa.oss/finalizer" ∷ "third" ∷ []

once : AtMostOnce "k8gb.absa.oss/finalizer" finalizer_list
unfolding contains
once = ((λ h. ground arith), ((λ _. refl), ((λ h. ground arith), tt)))

remove-eq-filter_example :
    remove finalizer_list "k8gb.absa.oss/finalizer"
    ≡ ok (without "k8gb.absa.oss/finalizer" finalizer_list)
remove-eq-filter_example = remove-eq-filter "k8gb.absa.oss/finalizer" finalizer_list once

-- Of a finalizer that is listed twice in a row, one stays, and the next round leaves the list.
remove_twice_listed : remove ("b" ∷ "a" ∷ "a" ∷ []) "a" ≡ Outcome.panicked
unfolding remove
remove_twice_listed = refl

abbrev answers : Dict (List String)
answers = ("a", "10.0.0.1" ∷ "10.0.1.1" ∷ []) ∷ ("b", "10.0.0.1" ∷ []) ∷ []
