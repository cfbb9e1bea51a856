-- ===== src/Assistant/Targets.antt =====
-- Lemmas on `targets_loop` (controllers/providers/assistant/gslb.go).
use mathlib.Core.List.{append-nil, append_assoc}
use k8gb.Prelude.{◌≡◌, refl, sym, ap, ◌∙◌, String, ◌<>◌, List, [], ◌∷◌, ◌++◌, map}
use k8gb.Prelude.Dict.{Dict}
use k8gb.Prelude.Int.{ℤ}
use k8gb.Effect.{ok}
use k8gb.Assistant.{dns_query, first_or, get_a_records, targets_loop}
use k8gb.Cluster.{a_record, Client, DnsClient, type_a}

get_a_records-map : (ips : List String) → get_a_records (map a_record ips) ≡ ok ips
unfolding get_a_records
get_a_records-map [] = refl
get_a_records-map (ip ∷ ips) = rw (get_a_records-map ips) refl

-- DNS that answers every question for addresses with addresses: those of a table by name and server.
abbrev pub Answers : {W : Type 0} → DnsClient W → (String → String → List String) → ℤ → Type 0
Answers {W} dns table port =
    (name server : String) (w : W)
    → dns.exchange name type_a server port w ≡ (ok (map a_record (table name server)), w)

-- The addresses found, where the question to each cluster has one more "localtargets-" before the
-- host than the question to the cluster before it.
abbrev pub collected : (String → String → List String) → String → Dict String → String → List String
collected table edge [] host = []
collected table edge ((_, cluster) ∷ rest) host =
    table (("localtargets-" <> host) <> ".") (first_or cluster (table (cluster <> ".") edge))
    ++ collected table edge rest ("localtargets-" <> host)

module _ {W : Type 0} (visit : Dict String → Dict String) (client : Client W)
    (dns : DnsClient W) where
  module _ (namespace edge : String) (port : ℤ) (table : String → String → List String) where
    -- Against DNS that answers from a table, the external targets of a host are those that each
    -- cluster's name server, in turn, gives for the name asked: the first cluster is asked for
    -- "localtargets-" and the host, the second for twice that prefix and the host, and so on.
    pub targets_loop-collected :
        (entries : Dict String) (host : String) (targets : List String) (w : W)
        → Answers dns table port
        → targets_loop visit client dns namespace edge port entries host targets w
          ≡ (ok (targets ++ collected table edge entries host), w)
    unfolding targets_loop dns_query
    targets_loop-collected [] host targets w answers =
        ap (λ t. (ok t, w)) (sym (append-nil targets))
    targets_loop-collected ((tag, cluster) ∷ rest) host targets w answers =
        let found = table (cluster <> ".") edge in
        let host' = "localtargets-" <> host in
        let more = table (host' <> ".") (first_or cluster found) in
        rw
          (
            answers (cluster <> ".") edge w,
            get_a_records-map found,
            answers (host' <> ".") (first_or cluster found) w,
            get_a_records-map more,
          )
          (targets_loop-collected rest host' (targets ++ more) w answers
            ∙ ap (λ t. (ok t, w)) (append_assoc targets more (collected table edge rest host')))
