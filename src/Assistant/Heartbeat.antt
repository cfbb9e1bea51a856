-- ===== src/Assistant/Heartbeat.antt =====
-- Lemmas on `InspectTXTThreshold` (controllers/providers/assistant/gslb.go).
use Prim.Native.Char.{Char}
use k8gb.Prelude.{
  ◌≡◌, refl, ap, ◌∙◌, Bool, true, false, String, ◌<>◌, some, List, [], ◌∷◌, if◌then◌else◌,
}
use k8gb.Prelude.Dict.{Dict}
use k8gb.Prelude.Int.{ℤ, ltb_ℤ, ◌-ℤ◌}
use k8gb.Prelude.Splits.{IsTrimmed, IsWhole, split_char-append, trim-quoted}
use k8gb.Prelude.Text.{split_char}
use k8gb.Effect.{ok, err, resource_expired, raise, pure}
use k8gb.Assistant.{fifth, inspect_quoted, inspect_answer, inspect_text, inspect_txt_threshold}
use k8gb.Cluster.{Answer, Client, DnsClient, txt_record, type_txt}

abbrev pub tab : Char
tab = "\t"

abbrev quote : Char
quote = "\""

abbrev pub quoted : String → String
quoted text = String.◌∷◌ quote (text <> String.◌∷◌ quote String.[])

-- A text record as miekg/dns prints it: name, TTL, class and type, and the text in quotes, with tabs
-- between.
abbrev pub printed : String → String → String → String
printed name ttl text =
    name
    <> String.◌∷◌ tab
        (ttl <> String.◌∷◌ tab ("IN" <> String.◌∷◌ tab ("TXT" <> String.◌∷◌ tab (quoted text))))

word_in : IsWhole 9 "IN"
unfolding split_char
word_in = refl

word_txt : IsWhole 9 "TXT"
unfolding split_char
word_txt = refl

five-fifth :
    (a b c d e : String) (s1 s2 s3 s4 : List String)
    → s1 ≡ a ∷ s2
    → s2 ≡ b ∷ s3
    → s3 ≡ c ∷ s4
    → s4 ≡ d ∷ e ∷ []
    → fifth s1 ≡ some e
five-fifth a b c d e s1 s2 s3 s4 h1 h2 h3 h4 = rw (h1, h2, h3, h4) refl

fifth-printed :
    (name ttl text : String)
    → IsWhole 9 name
    → IsWhole 9 ttl
    → IsWhole 9 (quoted text)
    → fifth (split_char 9 (printed name ttl text)) ≡ some (quoted text)
fifth-printed name ttl text n t x =
    five-fifth _ _ _ _ _ _ _ _ _ (split_char-append tab name _ n) (split_char-append tab ttl _ t)
      (split_char-append tab "IN" _ word_in)
      (split_char-append tab "TXT" _ word_txt ∙ ap (λ l. "TXT" ∷ l) x)

verdict :
    {W : Type 0} (late : Bool) (w : W)
    → (if late then raise resource_expired else pure tt) w
      ≡ ((if late then err resource_expired else ok tt), w)
verdict true w = refl
verdict false w = refl

module _ {W : Type 0} (visit : Dict String → Dict String) (client : Client W)
    (dns : DnsClient W) where
  quoted_verdict :
      (namespace server text : String) (port threshold written now : ℤ) (w : W) {late : W}
      → IsTrimmed b'"' text
      → dns.parse_time text ≡ ok written
      → dns.now w ≡ (ok now, late)
      → inspect_quoted visit client dns namespace server port (some (quoted text)) threshold w
        ≡ ((if ltb_ℤ threshold (now -ℤ written) then err resource_expired else ok tt), late)
  unfolding inspect_quoted
  quoted_verdict namespace server text port threshold written now w {late} trimmed parsed clock =
      rw (trim-quoted quote text trimmed, parsed, clock)
        (verdict (ltb_ℤ threshold (now -ℤ written)) late)

  -- Take a heartbeat that was written at a time, and that the edge DNS answers with first, as a text
  -- record printed with the fully qualified name that is asked for, its TTL and the time in quotes,
  -- none of which holds a tab, where the time has no quote at its ends. If its age at the time of
  -- the check is at most the threshold, then it is accepted, and otherwise it is reported as expired.
  pub inspect_txt_threshold-printed :
      (namespace server fqdn ttl text : String) (port threshold written now : ℤ)
      (rest : List Answer) (w : W) {asked late : W}
      → IsWhole 9 (dns.fqdn fqdn)
      → IsWhole 9 ttl
      → IsWhole 9 (quoted text)
      → IsTrimmed b'"' text
      → dns.parse_time text ≡ ok written
      → dns.exchange (dns.fqdn fqdn) type_txt server port w
        ≡ (ok (txt_record (printed (dns.fqdn fqdn) ttl text) ∷ rest), asked)
      → dns.now asked ≡ (ok now, late)
      → inspect_txt_threshold visit client dns namespace server port fqdn threshold w
        ≡ ((if ltb_ℤ threshold (now -ℤ written) then err resource_expired else ok tt), late)
  unfolding inspect_txt_threshold inspect_answer inspect_text
  inspect_txt_threshold-printed namespace server fqdn ttl text port threshold written now rest w
        {asked} n t x trimmed parsed answered clock =
      rw answered (
        ap (λ o. inspect_quoted visit client dns namespace server port o threshold asked)
          (fifth-printed (dns.fqdn fqdn) ttl text n t x)
        ∙ quoted_verdict namespace server text port threshold written now asked trimmed parsed
            clock)
