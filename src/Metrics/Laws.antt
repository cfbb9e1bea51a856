-- ===== src/Metrics/Laws.antt =====
-- Lemmas on the counters (controllers/providers/metrics/prometheus.go).
use k8gb.Prelude.{
  ℕ, ◌+◌, ◌≡◌, arith, String, Bool, not, ◌&&◌, List, [], ◌∷◌, ◌==◌, length, filter, eq_iff,
  Bool-cases, inl, inr,
}
use k8gb.Prelude.Dict.{Dict}
use k8gb.Metrics.{HostCounts, count_hosts, count_records}

-- How many hosts have a status.
abbrev pub hosts_with : (String → Bool) → Dict String → ℕ
hosts_with p d = length (filter (λ e. p e.1) d)

abbrev pub unknown : String → Bool
unknown s = not (s == "Healthy") && not (s == "Unhealthy")

-- The counters grow by the numbers of healthy hosts, of unhealthy hosts, and of all others, and
-- together by the number of hosts.
pub count_hosts_lem :
    (d : Dict String) (c : HostCounts)
    → ((count_hosts d c).healthy ≡ c.healthy + hosts_with (λ s. s == "Healthy") d)
      × ((count_hosts d c).unhealthy ≡ c.unhealthy + hosts_with (λ s. s == "Unhealthy") d)
      × ((count_hosts d c).not_found ≡ c.not_found + hosts_with unknown d)
      × ((count_hosts d c).healthy + ((count_hosts d c).unhealthy + (count_hosts d c).not_found)
          ≡ c.healthy + (c.unhealthy + c.not_found) + length d)
unfolding count_hosts
count_hosts_lem [] c = (omega arith, omega arith, omega arith, omega arith)
count_hosts_lem ((host, hs) ∷ rest) c = elim (Bool-cases (hs == "Healthy")) [
  | inl e ↦
      rw (e, (eq_iff hs "Healthy").0 e)
        (ground (arith, count_hosts_lem rest (record c { healthy = c.healthy + 1 })))
  | inr e ↦ elim (Bool-cases (hs == "Unhealthy")) [
    | inl f ↦
        rw (e, f) (ground (arith, count_hosts_lem rest (record c { unhealthy = c.unhealthy + 1 })))
    | inr f ↦
        rw (e, f) (ground (arith, count_hosts_lem rest (record c { not_found = c.not_found + 1 })))
  ]
]

abbrev pub total : Dict (List String) → ℕ
total [] = 0
total ((_, hrs) ∷ rest) = length hrs + total rest

-- The number of healthy records is that of the addresses of all hosts.
pub count_records_lem : (d : Dict (List String)) (n : ℕ) → count_records d n ≡ n + total d
unfolding count_records
count_records_lem [] n = omega arith
count_records_lem ((host, hrs) ∷ rest) n = omega (arith, count_records_lem rest (n + length hrs))
