-- ===== src/Utils/FakeDns.antt =====
-- controllers/internal/utils/fakedns.go: the DNS server that the operator's tests run against. An
-- address and its two forms are net's, and printing a record is miekg/dns': parameters. The class
-- of a record is always the Internet, and its TTL zero.
pub mod Answers
pub mod Threads
use k8gb.Prelude.{
  ℕ, zero, suc, String, ◌<>◌, Bool, true, false, Option, none, some, List, [], ◌∷◌, ◌++◌, ◌==◌,
  if◌then◌else◌,
}
use k8gb.Prelude.Int.{ℤ}
use k8gb.Prelude.Text.{split_char}
use k8gb.Effect.{Error, Outcome, ok, panicked, errorf, Run, pure, handle, ◌>>=◌, ◌>>◌}

pub record FakeDnsSettings : Type 0 where
  pub fake_dns_port : ℤ
  pub edge_dns_zone_fqdn : String
  pub dns_zone_fqdn : String

pub data RecordType : Type 0 where
  type_txt type_ns type_a type_aaaa : RecordType

abbrev pub same_type : RecordType → RecordType → Bool
same_type RecordType.type_txt RecordType.type_txt = true
same_type RecordType.type_ns RecordType.type_ns = true
same_type RecordType.type_a RecordType.type_a = true
same_type RecordType.type_aaaa RecordType.type_aaaa = true
same_type _ _ = false

pub record Header : Type 0 where
  pub name : String
  pub rrtype : RecordType

abbrev pub header : String → RecordType → Header
header fqdn t = record { name = fqdn; rrtype = t }

-- `strings.Split(s, "\t")[0]`
abbrev pub first_field : List String → String
first_field [] = ""
first_field (s ∷ ss) = s

module _ (Ip : Type 0) where
  -- An AAAA record is a `dns.A` with the header of an AAAA record.
  pub data ResourceRecord : Type 0 where
    txt : Header → List String → ResourceRecord
    ns : Header → String → ResourceRecord
    a : Header → Ip → ResourceRecord

  -- The channels of the probes are left out. A type without records has none.
  pub record DnsMock : Type 0 where
    pub settings : FakeDnsSettings
    pub records : RecordType → List ResourceRecord
    pub err : Option Error

module _ {Ip : Type 0} where
  unfoldable pub new_fake_dns : FakeDnsSettings → DnsMock Ip
  new_fake_dns settings = record { settings = settings; records = λ _. []; err = none }

  -- `m.records[t] = append(m.records[t], rr)`
  abbrev pub append_record : RecordType → ResourceRecord Ip → DnsMock Ip → DnsMock Ip
  append_record t rr m = record m {
    records = λ u. if same_type u t then m.records u ++ rr ∷ [] else m.records u;
  }

  unfoldable pub add_txt_record : String → List String → DnsMock Ip → DnsMock Ip
  add_txt_record fqdn strings =
      append_record RecordType.type_txt (txt (header fqdn RecordType.type_txt) strings)

  unfoldable pub add_ns_record : String → String → DnsMock Ip → DnsMock Ip
  add_ns_record fqdn ns_name =
      append_record RecordType.type_ns (ns (header fqdn RecordType.type_ns) ns_name)

  unfoldable pub add_a_record : (Ip → Ip) → String → Ip → DnsMock Ip → DnsMock Ip
  add_a_record to4 fqdn ip =
      append_record RecordType.type_a (a (header fqdn RecordType.type_a) (to4 ip))

  unfoldable pub add_aaaa_record : (Ip → Ip) → Ip → DnsMock Ip → DnsMock Ip
  add_aaaa_record to16 ip m =
      append_record RecordType.type_aaaa
        (a (header m.settings.dns_zone_fqdn RecordType.type_aaaa) (to16 ip)) m

  module _ (print : ResourceRecord Ip → String) where
    -- The loop over the records of the type, with the answer so far.
    unfoldable pub reflect_loop :
        String → List (ResourceRecord Ip) → List (ResourceRecord Ip) → List (ResourceRecord Ip)
    reflect_loop name [] answer = answer
    reflect_loop name (rr ∷ rrs) answer =
        reflect_loop name rrs
          (if first_field (split_char 9 (print rr)) == name then answer ++ rr ∷ [] else answer)

    -- The records of the answer to a message with these questions. A message without one panics.
    unfoldable pub handle_reflect :
        DnsMock Ip → List (String × RecordType) → Outcome (List (ResourceRecord Ip))
    unfolding reflect_loop
    handle_reflect m [] = panicked
    handle_reflect m ((name, t) ∷ questions) = ok (reflect_loop name (m.records t) [])

module _ {W : Type 0} (hit : Run W (Unit {0})) (sleep : Run W (Unit {0})) where
  -- Whether no hit of the rounds that are left is answered.
  unfoldable pub readiness_loop : ℕ → Run W Bool
  readiness_loop zero = pure true
  readiness_loop (suc n) = handle hit (λ _. pure false) (λ e. do sleep; readiness_loop n)

  unfoldable pub start_readiness_probe : {Ip : Type 0} → DnsMock Ip → Run W (DnsMock Ip)
  unfolding readiness_loop
  start_readiness_probe m = do
    failed ← readiness_loop 5
    pure (if failed then record m { err = some (errorf "readiness probe %s (%s)" []) } else m)

  -- Whether all hits of the rounds that are left are answered.
  unfoldable pub liveness_loop : ℕ → Run W Bool
  liveness_loop zero = pure true
  liveness_loop (suc n) = handle hit (λ _. do sleep; liveness_loop n) (λ e. pure false)

  unfoldable pub start_liveness_probe : {Ip : Type 0} → DnsMock Ip → Run W (DnsMock Ip)
  unfolding liveness_loop
  start_liveness_probe m = do
    failed ← liveness_loop 5
    pure (if failed then record m { err = some (errorf "liveness probe %s (%s)" []) } else m)
