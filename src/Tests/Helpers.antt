-- ===== src/Tests/Helpers.antt =====
-- A heartbeat, the adapter of the logger, and the fake DNS server.
use k8gb.Prelude.{◌≡◌, refl, ap, String, ◌<>◌, false, none, List, [], ◌∷◌}
use k8gb.Prelude.Dict.{Dict, insert}
use k8gb.Prelude.Int.{pos}
use k8gb.Prelude.Splits.{split_char-append}
use k8gb.Prelude.Text.{split_char, trim_right}
use k8gb.Effect.{ok}
use k8gb.Assistant.{inspect_txt_threshold}
use k8gb.Assistant.Heartbeat.{inspect_txt_threshold-printed, printed, tab}
use k8gb.Cluster.{DnsClient, txt_record}
use k8gb.Logging.{
  Argument, LogrAdapter, Logger, error, error_events, info, info_events, with_values,
}
use k8gb.Logging.Laws.{with_values-info}
use k8gb.Tests.Lifecycle.{State, server}
use k8gb.Tests.World.{in_order}
use k8gb.Utils.FakeDns.{
  first_field, FakeDnsSettings, RecordType, ResourceRecord, a, handle_reflect, header, new_fake_dns,
}
use k8gb.Utils.FakeDns.Answers.{
  AreWhole, PrintsName, a_added, add_all, handle_reflect-add, header_of, txt_added, Addition,
}

abbrev record_text : String
record_text = printed "app-heartbeat-us.example.com." "30" "t100"

abbrev heartbeat_dns : DnsClient State
heartbeat_dns = record {
  fqdn = λ s. s <> ".";
  exchange = λ name type host port w. (ok (txt_record record_text ∷ []), w);
  set_dns = λ host w. (ok tt, w);
  dig_a = λ host name w. (ok [], w);
  parse_time = λ s. ok (pos 100);
  format_time = λ t. "t100";
  now = λ w. (ok (pos 400), w);
}

abbrev calm : State
calm = record { seen = record { object = none; marked = false; delegated = false }; lossy = false }

inspect_txt_threshold-printed_example :
    inspect_txt_threshold in_order server heartbeat_dns "k8gb" "1.1.1.1"
      (pos 53)
      "app-heartbeat-us.example.com"
      (pos 300)
      calm
    ≡ (ok tt, calm)
unfolding split_char trim_right
inspect_txt_threshold-printed_example =
    inspect_txt_threshold-printed in_order server heartbeat_dns "k8gb" "1.1.1.1"
      "app-heartbeat-us.example.com" "30" "t100" (pos 53) (pos 300) (pos 100) (pos 400) [] calm refl
      refl refl (refl, refl) refl refl refl

abbrev sprint : Argument String → String
sprint (Argument.value s) = s
sprint (Argument.slice xs) = "[]"

abbrev marshal : Dict String → String
marshal [] = "{}"
marshal ((k, v) ∷ d) = k <> v

abbrev adapter : LogrAdapter
adapter = record { z = Logger.json_stdout; keys_and_values = []; name = "k8gb" }

abbrev three : List (Argument String)
three = Argument.value "key" ∷ Argument.value "1" ∷ Argument.value "left out" ∷ []

abbrev adapter_after : LogrAdapter
adapter_after = record adapter { keys_and_values = ("key", "1") ∷ [] }

with_values-info_example :
    (with_values sprint marshal adapter three ≡ ok adapter_after)
    × (info sprint marshal adapter_after "started" ("a" ∷ "b" ∷ [])
        ≡ ok (adapter_after, info_events sprint marshal adapter_after "started"))
    × (error sprint marshal adapter_after none "started" ("a" ∷ "b" ∷ [])
        ≡ ok (adapter_after, error_events sprint marshal adapter_after none "started"))
unfolding insert
with_values-info_example =
    with_values-info sprint marshal adapter three none "started" ("a" ∷ "b" ∷ [])

abbrev fake_settings : FakeDnsSettings
fake_settings = record {
  fake_dns_port = pos 7753;
  edge_dns_zone_fqdn = "example.com.";
  dns_zone_fqdn = "cloud.example.com.";
}

abbrev same_ip : String → String
same_ip ip = ip

abbrev print : ResourceRecord String → String
print rr = (header_of same_ip same_ip rr).name <> String.◌∷◌ tab "0"

prints_name : PrintsName same_ip same_ip print
prints_name rr h = ap first_field (split_char-append tab (header_of same_ip same_ip rr).name "0" h)

abbrev additions : List (Addition String)
additions =
    a_added "app.cloud.example.com." "10.0.0.1"
    ∷ txt_added "app.cloud.example.com." ("t" ∷ [])
    ∷ a_added "other.cloud.example.com." "10.0.0.2"
    ∷ a_added "app.cloud.example.com." "10.0.0.3"
    ∷ []

names_whole : AreWhole same_ip same_ip print "cloud.example.com." additions
unfolding split_char
names_whole = (refl, (refl, (refl, (refl, tt))))

abbrev record_of : String → ResourceRecord String
record_of ip = a (header "app.cloud.example.com." RecordType.type_a) ip

handle_reflect-add_example :
    handle_reflect print
      (add_all same_ip same_ip additions (new_fake_dns fake_settings))
      (("app.cloud.example.com.", RecordType.type_a) ∷ [])
    ≡ ok (record_of "10.0.0.1" ∷ record_of "10.0.0.3" ∷ [])
handle_reflect-add_example =
    handle_reflect-add same_ip same_ip print fake_settings additions "app.cloud.example.com."
      RecordType.type_a [] prints_name names_whole
