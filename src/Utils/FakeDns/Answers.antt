-- ===== src/Utils/FakeDns/Answers.antt =====
-- Lemmas on the answers of the fake DNS server (controllers/internal/utils/fakedns.go).
use mathlib.Core.List.{append-nil, append_assoc}
use k8gb.Prelude.{
  ◌≡◌, refl, sym, ap, ◌∙◌, String, Bool, true, false, List, [], ◌∷◌, ◌++◌, ◌==◌, All, filter,
  filter-append, Bool-cases, inl, inr, if◌then◌else◌, ◌&&◌,
}
use k8gb.Prelude.Splits.{IsWhole}
use k8gb.Prelude.Text.{split_char}
use k8gb.Effect.{ok}
use k8gb.Utils.FakeDns.{
  DnsMock, FakeDnsSettings, Header, RecordType, ResourceRecord, a, add_a_record, add_aaaa_record,
  add_ns_record, add_txt_record, first_field, handle_reflect, header, new_fake_dns, ns,
  reflect_loop, same_type, txt,
}

-- A call that adds a record.
pub data Addition (Ip : Type 0) : Type 0 where
  txt_added : String → List String → Addition Ip
  ns_added : String → String → Addition Ip
  a_added : String → Ip → Addition Ip
  aaaa_added : Ip → Addition Ip

module _ {Ip : Type 0} (to4 to16 : Ip → Ip) where
  unfoldable pub add : Addition Ip → DnsMock Ip → DnsMock Ip
  unfolding add_txt_record add_ns_record add_a_record add_aaaa_record
  add (txt_added fqdn strings) m = add_txt_record fqdn strings m
  add (ns_added fqdn name) m = add_ns_record fqdn name m
  add (a_added fqdn ip) m = add_a_record to4 fqdn ip m
  add (aaaa_added ip) m = add_aaaa_record to16 ip m

  abbrev pub add_all : List (Addition Ip) → DnsMock Ip → DnsMock Ip
  add_all [] m = m
  add_all (x ∷ xs) m = add_all xs (add x m)

  -- The record that a call adds, where the zone has this name.
  abbrev pub added : String → Addition Ip → ResourceRecord Ip
  added zone (txt_added fqdn strings) = txt (header fqdn RecordType.type_txt) strings
  added zone (ns_added fqdn name) = ns (header fqdn RecordType.type_ns) name
  added zone (a_added fqdn ip) = a (header fqdn RecordType.type_a) (to4 ip)
  added zone (aaaa_added ip) = a (header zone RecordType.type_aaaa) (to16 ip)

  abbrev pub header_of : ResourceRecord Ip → Header
  header_of (txt h _) = h
  header_of (ns h _) = h
  header_of (a h _) = h

  -- The records of the calls, in their order, that have the name and the type.
  abbrev pub answers : String → String → RecordType → List (Addition Ip) → List (ResourceRecord Ip)
  answers zone name t [] = []
  answers zone name t (x ∷ xs) =
      let rest = answers zone name t xs in
      let h = header_of (added zone x) in
      if same_type t h.rrtype && h.name == name then added zone x ∷ rest else rest

  module _ (print : ResourceRecord Ip → String) where
    -- A record whose name holds no tab is printed with its name and a tab first.
    abbrev pub PrintsName : Type 0
    PrintsName =
        (rr : ResourceRecord Ip)
        → IsWhole 9 (header_of rr).name
        → first_field (split_char 9 (print rr)) ≡ (header_of rr).name

    -- No name of a record that is added holds a tab.
    abbrev pub AreWhole : String → List (Addition Ip) → Type 0
    AreWhole zone = All (λ x. IsWhole 9 (header_of (added zone x)).name)

    abbrev matching : String → List (ResourceRecord Ip) → List (ResourceRecord Ip)
    matching name = filter (λ rr. first_field (split_char 9 (print rr)) == name)

    reflect_loop_lem :
        (name : String) (rrs acc : List (ResourceRecord Ip))
        → reflect_loop print name rrs acc ≡ acc ++ matching name rrs
    unfolding reflect_loop
    reflect_loop_lem name [] acc = sym (append-nil acc)
    reflect_loop_lem name (rr ∷ rrs) acc =
        elim (Bool-cases (first_field (split_char 9 (print rr)) == name)) [
          | inl e ↦ rw e (
              reflect_loop_lem name rrs (acc ++ rr ∷ [])
              ∙ append_assoc acc (rr ∷ []) (matching name rrs))
          | inr e ↦ rw e (reflect_loop_lem name rrs acc)
        ]

    add-settings : (x : Addition Ip) (m : DnsMock Ip) → (add x m).settings ≡ m.settings
    unfolding add
    add-settings (txt_added fqdn strings) m = refl
    add-settings (ns_added fqdn name) m = refl
    add-settings (a_added fqdn ip) m = refl
    add-settings (aaaa_added ip) m = refl

    add-records :
        (zone : String) (x : Addition Ip) (m : DnsMock Ip) (t : RecordType)
        → m.settings.dns_zone_fqdn ≡ zone
        → (add x m).records t ≡ (
            if same_type t (header_of (added zone x)).rrtype
            then m.records t ++ added zone x ∷ []
            else m.records t)
    unfolding add
    add-records zone (txt_added fqdn strings) m t z = refl
    add-records zone (ns_added fqdn name) m t z = refl
    add-records zone (a_added fqdn ip) m t z = refl
    add-records zone (aaaa_added ip) m t z =
        ap
          (λ name.
            if same_type t RecordType.type_aaaa
            then m.records t ++ a (header name RecordType.type_aaaa) (to16 ip) ∷ []
            else m.records t)
          z

    matching_if_added :
        (name : String) (b : Bool) (rr : ResourceRecord Ip) (rrs : List (ResourceRecord Ip))
        → PrintsName
        → IsWhole 9 (header_of rr).name
        → matching name (if b then rrs ++ rr ∷ [] else rrs)
          ≡ matching name rrs ++ (if b && (header_of rr).name == name then rr ∷ [] else [])
    matching_if_added name false rr rrs p h = sym (append-nil (matching name rrs))
    matching_if_added name true rr rrs p h =
        filter-append _ rrs (rr ∷ []) ∙ ap (λ l. matching name rrs ++ l) (rw (p rr h) refl)

    one_more :
        (b : Bool) (rr : ResourceRecord Ip) (rest : List (ResourceRecord Ip))
        → (if b then rr ∷ [] else []) ++ rest ≡ (if b then rr ∷ rest else rest)
    one_more true rr rest = refl
    one_more false rr rest = refl

    add_all-records :
        (zone : String) (xs : List (Addition Ip)) (m : DnsMock Ip) (name : String) (t : RecordType)
        → m.settings.dns_zone_fqdn ≡ zone
        → PrintsName
        → AreWhole zone xs
        → matching name ((add_all xs m).records t)
          ≡ matching name (m.records t) ++ answers zone name t xs
    add_all-records zone [] m name t z p _ = sym (append-nil (matching name (m.records t)))
    add_all-records zone (x ∷ xs) m name t z p (h, hs) =
        let rr = added zone x in
        let b = same_type t (header_of rr).rrtype in
        add_all-records zone xs (add x m) name t (ap (λ s. s.dns_zone_fqdn) (add-settings x m) ∙ z)
          p hs
        ∙ ap (λ rrs. matching name rrs ++ answers zone name t xs) (add-records zone x m t z)
        ∙ ap (λ l. l ++ answers zone name t xs) (matching_if_added name b rr (m.records t) p h)
        ∙ append_assoc (matching name (m.records t))
            (if b && (header_of rr).name == name then rr ∷ [] else []) (answers zone name t xs)
        ∙ ap (λ l. matching name (m.records t) ++ l)
            (one_more (b && (header_of rr).name == name) rr (answers zone name t xs))

    -- Take a server to which records were added, none of whose names holds a tab, and which prints a
    -- record with its name and a tab first. It answers a question with the records of its name and
    -- type, in the order in which they were added.
    pub handle_reflect-add :
        (settings : FakeDnsSettings) (xs : List (Addition Ip)) (name : String) (t : RecordType)
        (questions : List (String × RecordType))
        → PrintsName
        → AreWhole settings.dns_zone_fqdn xs
        → handle_reflect print (add_all xs (new_fake_dns settings)) ((name, t) ∷ questions)
          ≡ ok (answers settings.dns_zone_fqdn name t xs)
    unfolding handle_reflect new_fake_dns
    handle_reflect-add settings xs name t questions p whole = ap ok (
        reflect_loop_lem name ((add_all xs (new_fake_dns settings)).records t) []
        ∙ add_all-records settings.dns_zone_fqdn xs (new_fake_dns settings) name t refl p whole)
