-- ===== src/Terratest/Retry/Laws.antt =====
-- Lemmas on `EqualStringSlices` and `DoWithRetryWaitingForValueE` (terratest/utils/utils.go).
use mathlib.Core.List.{Perm}
use mathlib.Core.List.Perm
use k8gb.Prelude.{
  ℕ, zero, suc, ◌+◌, ◌≤◌, ◌≡◌, refl, sym, ap, ◌∙◌, ◌⊎◌, inl, inr, ◌≢◌, String, Bool, true, false,
  none, some, List, [], ◌∷◌, ◌==◌, get_elem?, length, drop, nat_eq, arith, eq_iff, Bool-cases,
}
use k8gb.Prelude.Permuted.{length-perm, sort_texts_of_Perm}
use k8gb.Prelude.Sort.{sort, sort-perm}
use k8gb.Prelude.Text.{ltb_text}
use k8gb.Effect.{Error, Outcome, ok, Run}
use k8gb.Terratest.{WithError}
use k8gb.Terratest.Retry.{compare_loop, equal_string_slices, do_with_retry, retry_loop}

drop_step :
    (y r : List String) (i : ℕ) {w : String}
    → drop i y ≡ w ∷ r
    → (get_elem? y i ≡ some w) × (drop (i + 1) y ≡ r)
drop_step [] r zero h = absurd (ground (arith, h))
drop_step [] r (suc i) h = absurd (ground (arith, h))
drop_step (v ∷ y) r zero h = (ground arith, ground arith)
drop_step (v ∷ y) r (suc i) h = ground (arith, drop_step y r i h)

abbrev Answers : Outcome Bool → Type 0 → Type 0
Answers r P = ((r ≡ ok true) × P) ⊎ ((r ≡ ok false) × (¬ P))

step_same :
    {v w : String} {x r : List String} {result : Outcome Bool}
    → v ≡ w
    → Answers result (x ≡ r)
    → Answers result (v ∷ x ≡ w ∷ r)
step_same e (inl (h, p)) = inl (h, cc)
step_same e (inr (h, n)) = inr (h, λ q. n (cc))

compare_loop-Answers :
    (x y r : List String) (i : ℕ)
    → drop i y ≡ r
    → length x ≡ length r
    → Answers (compare_loop x y i) (x ≡ r)
unfolding compare_loop
compare_loop-Answers [] y [] i h l = inl (refl, refl)
compare_loop-Answers [] y (w ∷ r) i h l = absurd (omega arith)
compare_loop-Answers (v ∷ x) y [] i h l = absurd (omega arith)
compare_loop-Answers (v ∷ x) y (w ∷ r) i h l =
    let (found, dropped) = drop_step y r i h in
    let rest = compare_loop-Answers x y r (i + 1) dropped (omega arith) in
    rw found (elim (Bool-cases (v == w)) [
      | inl e ↦ rw e (step_same ((eq_iff v w).0 e) rest)
      | inr e ↦ rw e (inr (refl, λ p. ground (arith, eq_iff v w, p)))
    ])

sort-inj : {a b : List String} → sort ltb_text a ≡ sort ltb_text b → Perm a b
sort-inj {a} {b} e = Perm.trans (Perm.symm (sort-perm ltb_text a)) (rw e (sort-perm ltb_text b))

same_length :
    (a b : List String) → length a ≡ length b → length (sort ltb_text a) ≡ length (sort ltb_text b)
same_length a b e =
    length-perm (sort-perm ltb_text a) ∙ e ∙ sym (length-perm (sort-perm ltb_text b))

-- The comparison never indexes out of range, and finds two slices equal just if they hold the same
-- elements, as often.
pub equal_string_slices_lem :
    (a b : List String)
    → ((equal_string_slices a b ≡ ok true) × Perm a b)
      ⊎ ((equal_string_slices a b ≡ ok false) × (¬ Perm a b))
unfolding equal_string_slices
equal_string_slices_lem a b = elim (Bool-cases (nat_eq (length a) (length b))) [
  | inl e ↦
      rw e
        (elim (compare_loop-Answers (sort ltb_text a) (sort ltb_text b) (sort ltb_text b) 0 refl
          (same_length a b (ground arith))) [
            | inl (h, p) ↦ inl (h, sort-inj p)
            | inr (h, n) ↦ inr (h, λ p. n (sort_texts_of_Perm p))
          ])
  | inr e ↦ rw e (inr (refl, λ p. ground (arith, length-perm p)))
]

module _ {W : Type 0} (sleep : Run W (Unit {0})) (action : Run W (WithError (List String)))
    (expected : List String) where
  abbrev Reply : Type 0
  Reply = WithError (List String)

  -- The world after an attempt and a pause, and after several of them.
  abbrev round : W → W
  round w = (sleep (action w).1).1

  abbrev pub after : ℕ → W → W
  after zero w = w
  after (suc k) w = after k (round w)

  abbrev pub IsOpen : Reply → Type 0
  IsOpen r = (r.1 ≡ none) × (¬ Perm r.0 expected)

  abbrev pub IsSettled : Reply → Type 0
  IsSettled r = (r.1 ≢ none) ⊎ Perm r.0 expected

  -- Each of the first attempts gave another value than the expected one, and no error.
  abbrev pub IsPending : ℕ → W → Type 0
  IsPending zero w = Unit
  IsPending (suc k) w = (r : Reply) × ((action w).0 ≡ ok r) × IsOpen r × IsPending k (round w)

  -- How a run ended that had `n` attempts after the first one.
  pub record Ending (n : ℕ) (w : W) (run : Outcome Reply × W) : Type 0 where
    pub pauses : ℕ
    pub reply : Reply
    pub pending : IsPending pauses w
    pub last : (action (after pauses w)).0 ≡ ok reply
    pub ending :
        ((pauses ≤ n) × IsSettled reply × (run ≡ (ok (reply.0, none), (action (after pauses w)).1)))
        ⊎ ((pauses ≡ n)
            × IsOpen reply
            × (run
                ≡ (ok (reply.0, some (Error.external "MaxRetriesExceeded")), after (suc pauses) w)))

  module _ (acts : (w : W) → (r : Reply) × ((action w).0 ≡ ok r))
      (rests : (w : W) → (sleep w).0 ≡ ok tt) where
    -- One round: it ends the loop, or it is as if the loop began after it.
    retry_step :
        (n : ℕ) (output : List String) (w : W) (r : Reply)
        → (action w).0 ≡ ok r
        → (IsSettled r
            × (retry_loop sleep action expected (suc n) output w ≡ (ok (r.0, none), (action w).1)))
          ⊎ (IsOpen r
              × (retry_loop sleep action expected (suc n) output w
                  ≡ retry_loop sleep action expected n r.0 (round w)))
    unfolding retry_loop
    retry_step n output w (out, some e) h = inl (inl (λ q. ground (arith, q)), rw h)
    retry_step n output w (out, none) h = elim (equal_string_slices_lem out expected) [
      | inl (e, p) ↦ inl (inr p, rw (h, e))
      | inr (e, p) ↦ inr ((refl, p), rw (h, e, rests (action w).1))
    ]

    later :
        {n : ℕ} {w : W} {run run' : Outcome Reply × W} (r : Reply)
        → (action w).0 ≡ ok r
        → IsOpen r
        → run' ≡ run
        → Ending n (round w) run
        → Ending (suc n) w run'
    later r h o e ends = record {
      pauses = suc ends.pauses;
      reply = ends.reply;
      pending = (r, h, o, ends.pending);
      last = ends.last;
      ending = elim ends.ending [
        | inl (le, s, q) ↦ inl (omega arith, s, e ∙ q)
        | inr (k, p, q) ↦ inr (ap suc k, p, e ∙ q)
      ];
    }

    retry_loop_ends :
        (n : ℕ) (output : List String) (w : W)
        → Ending n w (retry_loop sleep action expected (suc n) output w)
    unfolding retry_loop
    retry_loop_ends zero output w =
        let (r, h) = acts w in
        elim (retry_step zero output w r h) [
          | inl (s, e) ↦ record {
            pauses = 0;
            reply = r;
            pending = tt;
            last = h;
            ending = inl (omega arith, s, e);
          }
          | inr (o, e) ↦ record {
            pauses = 0;
            reply = r;
            pending = tt;
            last = h;
            ending = inr (refl, o, e);
          }
        ]
    retry_loop_ends (suc n) output w =
        let (r, h) = acts w in
        elim (retry_step (suc n) output w r h) [
          | inl (s, e) ↦ record {
            pauses = 0;
            reply = r;
            pending = tt;
            last = h;
            ending = inl (omega arith, s, e);
          }
          | inr (o, e) ↦ later r h o e (retry_loop_ends n r.0 (round w))
        ]

    -- Where the action and the pause return, the loop ends, after at most one attempt more than the
    -- retries allowed. The attempts before the last one gave another value than the expected one,
    -- and no error. If the last one gave an error or the expected value, up to order, then its
    -- output is returned without an error; otherwise all attempts were made, and its output is
    -- returned with an error.
    pub do_with_retry_ends :
        (max_retries : ℕ) (w : W)
        → Ending max_retries w (do_with_retry sleep action expected max_retries w)
    unfolding do_with_retry
    do_with_retry_ends max_retries w =
        let e : max_retries + 1 ≡ suc max_retries = omega arith in
        rw e (retry_loop_ends max_retries [] w)
