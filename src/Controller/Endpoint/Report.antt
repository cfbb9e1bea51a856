-- ===== src/Controller/Endpoint/Report.antt =====
-- Lemmas on `records_loop` (controllers/status.go) over the records of controllers/dnsupdate.go.
use k8gb.Prelude.{
  ◌≡◌, ◌∙◌, sym, refl, String, ◌<>◌, Bool, true, false, List, [], ◌∷◌, ◌++◌, is_empty,
  if◌then◌else◌, starts_with,
}
use k8gb.Prelude.Dict.{Dict, insert}
use text.Mathlib.TextLemmas.{append_assoc}
use text.Mathlib.TextPositions.{starts_with_of_prefix}
use k8gb.Prelude.Int.{ℤ}
use k8gb.Api.{Strategy}
use k8gb.Cluster.{Endpoint}
use k8gb.Controller.Endpoint.{final_targets, host_record, host_records, local_targets_record}
use k8gb.Controller.Health.{records_loop}

pub prefixed : (host : String) → starts_with ("localtargets-" <> host) "localtargets" ≡ true
prefixed host =
    starts_with_of_prefix "localtargets" ("localtargets-" <> host)
      ("-" <> host, sym (append_assoc "localtargets" "-" host))

skip_local :
    (ttl : ℤ) (host : String) (local : List String) (rest : List Endpoint) (d : Dict (List String))
    → records_loop (local_targets_record ttl host local ∷ rest) d ≡ records_loop rest d
unfolding records_loop
skip_local ttl host local rest d = rw (prefixed host) refl

report_host :
    (s : Strategy) (host : String) (final : List String) (rest : List Endpoint)
    (d : Dict (List String))
    → starts_with host "localtargets" ≡ false
    → records_loop ((if is_empty final then [] else host_record s host final ∷ []) ++ rest) d
      ≡ records_loop rest (if is_empty final then d else insert host final d)
unfolding records_loop
report_host s host [] rest d h = refl
report_host s host (t ∷ ts) rest d h = rw h refl

report_parts :
    (s : Strategy) (host : String) (healthy : Bool) (local final : List String)
    (rest : List Endpoint) (d : Dict (List String))
    → starts_with host "localtargets" ≡ false
    → records_loop
        (((if healthy then local_targets_record s.dns_ttl_seconds host local ∷ [] else [])
            ++ (if is_empty final then [] else host_record s host final ∷ []))
          ++ rest)
        d
      ≡ records_loop rest (if is_empty final then d else insert host final d)
report_parts s host false local final rest d h = report_host s host final rest d h
report_parts s host true local final rest d h =
    skip_local s.dns_ttl_seconds host local _ d ∙ report_host s host final rest d h

-- Of the records that a host adds, whose name does not start with "localtargets", the status reports
-- the host's final targets, if there are any, and never its local targets.
pub records_loop-host_records :
    (s : Strategy) (tag host : String) (healthy : Bool) (local external : List String)
    (rest : List Endpoint) (d : Dict (List String))
    → starts_with host "localtargets" ≡ false
    → records_loop (host_records s tag host healthy local external ++ rest) d
      ≡ records_loop rest (
          if is_empty (final_targets s tag healthy local external)
          then d
          else insert host (final_targets s tag healthy local external) d)
unfolding host_records
records_loop-host_records s tag host healthy local external rest d h =
    report_parts s host healthy local (final_targets s tag healthy local external) rest d h
