-- ===== src/Tests/Published.antt =====
-- The External DNS provider on record sets in memory.
use k8gb.Prelude.{
  ◌≡◌, ◌≢◌, refl, ap, inl, inr, arith, eq_iff, Bool, true, false, ◌&&◌, ◌==◌, none, sym, [],
  if◌then◌else◌, Bool-cases,
}
use k8gb.Prelude.Int.{pos}
use k8gb.Effect.{Error, Outcome, ok, err}
use k8gb.Effect.Keeps.{Keeps}
use k8gb.Api.{key_of, ObjectKey}
use k8gb.Assistant.{new_gslb_assistant}
use k8gb.Cluster.{Client, DnsEndpoint}
use k8gb.Controller.Lifecycle.{LawfulProvider, Observed}
use k8gb.Controller.Lifecycle.ExternalLaws.{
  IsLookup, LawfulRecords, edge_key, new_external_dns-Lawful,
}
use k8gb.Dns.External.{external_ns1, new_external_dns}
use k8gb.Tests.Lifecycle.{State, seen, server, unchanged}
use k8gb.Tests.Sessions.{dns, quiet_dns, with_zone}
use k8gb.Tests.World.{app_key, eu_config, in_order}

abbrev edge : ObjectKey
edge = edge_key external_ns1 eu_config

abbrev is_edge : ObjectKey → Bool
is_edge k = k.name == "k8gb-ns-ns1" && k.namespace == "k8gb"

is_edge-eq : (k : ObjectKey) → is_edge k ≡ true → k ≡ edge
is_edge-eq k h = ground (arith, eq_iff k.name "k8gb-ns-ns1", eq_iff k.namespace "k8gb")

abbrev set_named : ObjectKey → DnsEndpoint
set_named k = record {
  meta = record {
    name = k.name;
    namespace = k.namespace;
    annotations = [];
    labels = [];
    finalizers = [];
    marked_for_deletion = false;
    owner = none;
  };
  endpoints = [];
}

abbrev looked_up : Bool → ObjectKey → Outcome DnsEndpoint
looked_up true k = ok (set_named k)
looked_up false k = err Error.not_found

-- A record set is found where the delegation is there.
abbrev records : Client State
records = record server {
  get_dns_endpoint = λ k w. (looked_up w.seen.delegated k, w);
  create_dns_endpoint = λ d w. (ok tt, if is_edge (key_of d.meta) then with_zone true w else w);
  delete_dns_endpoint = λ d w. (ok tt, if is_edge (key_of d.meta) then with_zone false w else w);
}

abbrev key_in : Outcome DnsEndpoint → ObjectKey → ObjectKey
key_in (ok d) k = key_of d.meta
key_in _ k = k

found_law : (b : Bool) (k : ObjectKey) {d : DnsEndpoint} → looked_up b k ≡ ok d → key_of d.meta ≡ k
found_law true k h = sym (ap (λ r. key_in r k) h)
found_law false k h = absurd (ground (arith, h))

IsLookup-law : (o : Observed) (b : Bool) → o.delegated ≡ b → IsLookup edge o (looked_up b edge)
IsLookup-law o true e = refl
IsLookup-law o false e = e

created_elsewhere :
    (d : DnsEndpoint) → key_of d.meta ≢ edge → Keeps seen (records.create_dns_endpoint d)
created_elsewhere d other = record {
  same = λ w. elim (Bool-cases (is_edge (key_of d.meta))) [
    | inl e ↦ absurd (other (is_edge-eq (key_of d.meta) e))
    | inr e ↦ rw e refl
  ];
}

object_kept :
    (d : DnsEndpoint) (b : Bool) (w : State)
    → (seen (if is_edge (key_of d.meta) then with_zone b w else w)).object ≡ w.seen.object
object_kept d b w = elim (Bool-cases (is_edge (key_of d.meta))) [
  | inl e ↦ rw e refl
  | inr e ↦ rw e refl
]

lawful_records : LawfulRecords edge seen records
lawful_records = record {
  reads = record {
    get_service = λ k. unchanged _;
    get_ingress = λ k. unchanged _;
    get_dns_endpoint = λ k. unchanged _;
  };
  found = λ k w. found_law w.seen.delegated k;
  get_edge = λ w. IsLookup-law w.seen w.seen.delegated refl;
  create_other = created_elsewhere;
  update_other = λ d _. unchanged _;
  create_object = λ d. record { same = object_kept d true };
  update_object = λ d. record { same = λ w. refl };
  delete_object = λ d. record { same = object_kept d false };
  delete_edge = λ d w h. rw (ap is_edge h) refl;
}

app-ne-edge : app_key ≢ edge
app-ne-edge h = ground (arith, eq_iff "app" "k8gb-ns-ns1", ap (λ (k : ObjectKey). k.name) h)

new_external_dns-Lawful_example : LawfulProvider app_key seen (
    new_external_dns external_ns1 eu_config
      (new_gslb_assistant in_order records dns "k8gb" "1.1.1.1" (pos 53)))
new_external_dns-Lawful_example =
    new_external_dns-Lawful in_order records dns eu_config external_ns1 lawful_records quiet_dns
      app_key app-ne-edge
