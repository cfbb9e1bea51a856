-- ===== src/Tests/Sessions.antt =====
-- The Infoblox provider on a zone in memory.
use k8gb.Prelude.{eq_iff, ◌≡◌, refl, ap, arith, Bool, true, false, Option, none, some, []}
use k8gb.Prelude.Int.{pos}
use k8gb.Effect.{Outcome, ok}
use k8gb.Assistant.{new_gslb_assistant}
use k8gb.Assistant.Quiet.{QuietDns, QuietRecords}
use k8gb.Cluster.{DnsClient}
use k8gb.Controller.Lifecycle.{LawfulProvider}
use k8gb.Controller.Lifecycle.InfobloxLaws.{new_infoblox_dns-Lawful}
use k8gb.Controller.Lifecycle.InfobloxZone.{IsSearch, LawfulInfoblox, LawfulManager}
use k8gb.Dns.Infoblox.{InfobloxClient, ObjectManager, ZoneDelegated, new_infoblox_dns}
use k8gb.Tests.Lifecycle.{State, seen, server, unchanged}
use k8gb.Tests.World.{app_key, eu_config, in_order}

abbrev held : Bool → Option ZoneDelegated
held true = some (record { fqdn = "cloud.example.com"; ref = "zone"; delegate_to = [] })
held false = none

abbrev pub with_zone : Bool → State → State
with_zone d w = record w { seen = record w.seen { delegated = d } }

abbrev session : ObjectManager State
session = record {
  get_zone_delegated = λ fqdn w. (ok (held w.seen.delegated), w);
  create_zone_delegated = λ fqdn servers w. (ok tt, with_zone true w);
  update_zone_delegated = λ ref servers w. (ok tt, w);
  delete_zone_delegated = λ ref w. (ok tt, with_zone false w);
  get_txt_record = λ name w. (ok none, w);
  create_txt_record = λ name text ttl view w. (ok tt, w);
  update_txt_record = λ name text w. (ok tt, w);
  delete_txt_record = λ ref w. (ok tt, w);
}

abbrev infoblox : InfobloxClient State
infoblox = record {
  connect = λ settings w. (ok session, w);
  logout = λ w. (ok tt, w);
  fake = session;
}

abbrev pub dns : DnsClient State
dns = record {
  fqdn = λ s. s;
  exchange = λ name type host port w. (ok [], w);
  set_dns = λ host w. (ok tt, w);
  dig_a = λ host name w. (ok [], w);
  parse_time = λ s. ok (pos 0);
  format_time = λ t. "";
  now = λ w. (ok (pos 0), w);
}

IsSearch-law : (w : State) (d : Bool) → w.seen.delegated ≡ d → IsSearch w.seen (ok (held d))
IsSearch-law w false e = e
IsSearch-law w true e = λ h. absurd (ground (arith, (eq_iff "zone" "").1 h))

lawful_session : LawfulManager seen "cloud.example.com" session
lawful_session = record {
  get_zone = unchanged _;
  get_zone_IsSearch = λ w. IsSearch-law w w.seen.delegated refl;
  create_zone = λ servers. record { same = λ w. refl };
  update_zone = λ ref servers. record { same = λ w. refl };
  delete_zone_object = λ ref. record { same = λ w. refl };
  delete_zone_IsFinalization = λ zone v w h. refl;
  get_txt = λ name. unchanged _;
  create_txt = λ name text ttl view. unchanged _;
  update_txt = λ name text. unchanged _;
  delete_txt = λ ref. unchanged _;
}

abbrev session_of : Outcome (ObjectManager State) → ObjectManager State
session_of (ok m) = m
session_of _ = session

lawful_infoblox : LawfulInfoblox seen eu_config infoblox
lawful_infoblox = record {
  connect = unchanged _;
  manager = λ w m h. rw (ap session_of h) at lawful_session;
  logout = unchanged _;
}

pub quiet_dns : QuietDns seen dns
quiet_dns = record {
  exchange = λ name t host port. unchanged _;
  set_dns = λ host. unchanged _;
  dig_a = λ host name. unchanged _;
  now = unchanged _;
}

quiet_records : QuietRecords seen server
quiet_records = record {
  reads = record {
    get_service = λ k. unchanged _;
    get_ingress = λ k. unchanged _;
    get_dns_endpoint = λ k. unchanged _;
  };
  create_dns_endpoint = λ d. unchanged _;
  update_dns_endpoint = λ d. unchanged _;
}

new_infoblox_dns-Lawful_example : LawfulProvider app_key seen (
    new_infoblox_dns in_order infoblox dns eu_config
      (new_gslb_assistant in_order server dns "k8gb" "1.1.1.1" (pos 53)))
new_infoblox_dns-Lawful_example =
    new_infoblox_dns-Lawful in_order infoblox server dns eu_config app_key lawful_infoblox quiet_dns
      quiet_records refl
