-- ===== src/Terratest/Instance/Laws.antt =====
-- Lemmas on the waits of an `Instance` (terratest/utils/extensions.go).
use mathlib.Core.List.{append_assoc, append-nil, flat_map, Perm}
use k8gb.Prelude.{
  ℕ, ◌≡◌, sym, ap, ◌∙◌, ◌⊎◌, inl, inr, String, ◌<>◌, none, some, List, [], ◌∷◌, ◌++◌, Bool-cases,
  if◌then◌else◌,
}
use k8gb.Effect.{Error, Outcome, ok}
use k8gb.Terratest.{Kit, WithError}
use k8gb.Terratest.Instance.{expected_loop, name_server, wait_for_gslb, wait_for_local_gslb_new}
use k8gb.Terratest.Retry.Laws.{do_with_retry_ends, Ending}
use k8gb.Terratest.Workflow.{Instance}

ok-inj : {A : Type 0} {a b : A} → Outcome.ok a ≡ ok b → a ≡ b
ok-inj h = cc

-- Name servers that answer from a table, which stays as it is while the test waits.
abbrev pub Steady : {W : Type 0} → Kit W → (String → String → List String) → Type 0
Steady {W} kit table =
    ((server host : String) (w : W) → kit.dig server host w ≡ (ok (table server host, none), w))
    × ((w : W) → kit.sleep 1 w ≡ (ok tt, w))

module _ {W : Type 0} (kit : Kit W) (table : String → String → List String)
    (steady : Steady kit table) where
  -- The local targets of an instance whose application runs.
  abbrev pub running_targets : Instance → List String
  running_targets i =
      if i.w.test_app.is_running
      then table (name_server kit i) ("localtargets-" <> i.w.gslb.host)
      else []

  expected_loop-eq-flat_map :
      (instances : List Instance) (ips : List String) (w : W)
      → expected_loop kit instances ips w ≡ (ok (ips ++ flat_map running_targets instances), w)
  unfolding expected_loop flat_map
  expected_loop-eq-flat_map [] ips w = ap (λ t. (ok t, w)) (sym (append-nil ips))
  expected_loop-eq-flat_map (i ∷ instances) ips w = elim (Bool-cases i.w.test_app.is_running) [
    | inl r ↦
        rw (r, steady.0 (name_server kit i) ("localtargets-" <> i.w.gslb.host) w)
          (expected_loop-eq-flat_map instances _ w
            ∙ ap (λ t. (ok t, w))
                (append_assoc ips (table (name_server kit i) ("localtargets-" <> i.w.gslb.host))
                  (flat_map running_targets instances)))
    | inr r ↦ rw r (expected_loop-eq-flat_map instances ips w)
  ]

  abbrev Verdict : List String → List String → Outcome (WithError (List String)) → Type 0
  Verdict answer expected r =
      ((r ≡ ok (answer, none)) × Perm answer expected)
      ⊎ ((r ≡ ok (answer, some (Error.external "MaxRetriesExceeded"))) × (¬ Perm answer expected))

  Ending-Verdict :
      (server host : String) (expected : List String) (n : ℕ) (w : W)
      {run : Outcome (WithError (List String)) × W}
      → Ending (kit.sleep 1) (kit.dig server host) expected n w run
      → Verdict (table server host) expected run.0
  Ending-Verdict server host expected n w ends =
      let same : (table server host, none) ≡ ends.reply =
        ok-inj (sym (ap (λ r. r.0) (steady.0 server host _)) ∙ ends.last) in
      let answer : table server host ≡ ends.reply.0 = ap (λ r. r.0) same in
      elim ends.ending [
        | inl (le, inl failed, q) ↦ absurd (failed (sym (ap (λ r. r.1) same)))
        | inl (le, inr p, q) ↦ rw answer (inl (ap (λ r. r.0) q, p))
        | inr (k, (o, p), q) ↦ rw answer (inr (ap (λ r. r.0) q, p))
      ]

  -- Let the name servers' answers stay as they are. An instance then waits with success just if its
  -- own answer for the host is, up to order, that of the local targets of all given instances whose
  -- application runs, its own included; otherwise the wait ends with an error after its retries.
  pub wait_for_gslb_steady :
      (i : Instance) (instances : List Instance) (w : W)
      → Verdict
          (table (name_server kit i) i.w.gslb.host)
          (flat_map running_targets (instances ++ i ∷ []))
          (wait_for_gslb kit i instances w).0
  unfolding wait_for_gslb wait_for_local_gslb_new
  wait_for_gslb_steady i instances w =
      let all = instances ++ i ∷ [] in
      rw (expected_loop-eq-flat_map all [] w) (
        Ending-Verdict (name_server kit i) i.w.gslb.host (flat_map running_targets all) 100 w (
          do_with_retry_ends (kit.sleep 1) (kit.dig (name_server kit i) i.w.gslb.host) _
            (λ v. ((table (name_server kit i) i.w.gslb.host, none), ap (λ r. r.0) (steady.0 _ _ v)))
            (λ v. ap (λ r. r.0) (steady.1 v)) 100 w))
