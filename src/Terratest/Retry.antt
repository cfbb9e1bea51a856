-- ===== src/Terratest/Retry.antt =====
-- terratest/utils/utils.go: `EqualStringSlices`, and the loop that repeats an action until it gives
-- the expected value.
pub mod Laws
use k8gb.Prelude.{
  ℕ, zero, suc, ◌+◌, String, Bool, true, false, not, Option, none, some, List, [], ◌∷◌, ◌==◌,
  get_elem?, length, nat_eq, if◌then◌else◌,
}
use k8gb.Prelude.Sort.{sort}
use k8gb.Prelude.Text.{ltb_text}
use k8gb.Effect.{Error, Outcome, ok, panicked, Run, pure, lift, ◌>>=◌, ◌>>◌}
use k8gb.Terratest.{WithError}

-- `if v != y[i] { return false }`, before the rest of the loop.
abbrev pub compare_item : String → Option String → Outcome Bool → Outcome Bool
compare_item v none rest = panicked
compare_item v (some w) rest = if not (v == w) then ok false else rest

-- The loop over `x` from the index on. An index out of the range of `y` panics.
unfoldable pub compare_loop : List String → List String → ℕ → Outcome Bool
compare_loop [] y i = ok true
compare_loop (v ∷ x) y i = compare_item v (get_elem? y i) (compare_loop x y (i + 1))

unfoldable pub equal_string_slices : List String → List String → Outcome Bool
unfolding compare_loop
equal_string_slices a b =
    if not (nat_eq (length a) (length b))
    then ok false
    else compare_loop (sort ltb_text a) (sort ltb_text b) 0

module _ {W : Type 0} (sleep : Run W (Unit {0})) (action : Run W (WithError (List String))) where
  module _ (expected_result : List String) where
    -- After an attempt. An action that fails ends the loop with its output and no error.
    abbrev pub conclude :
        List String
        → Option Error
        → Run W (WithError (List String))
        → Run W (WithError (List String))
    conclude output (some e) again = pure (output, none)
    conclude output none again = do
      found ← lift (equal_string_slices output expected_result)
      if found then pure (output, none) else sleep >> again

    -- The rounds that are left, with the output of the last one.
    unfoldable pub retry_loop : ℕ → List String → Run W (WithError (List String))
    unfolding equal_string_slices
    retry_loop zero output = pure (output, some (Error.external "MaxRetriesExceeded"))
    retry_loop (suc rounds) output = do
      reply ← action
      conclude reply.0 reply.1 (retry_loop rounds reply.0)

    -- `for i := 0; i <= maxRetries; i++`
    unfoldable pub do_with_retry : ℕ → Run W (WithError (List String))
    unfolding retry_loop
    do_with_retry max_retries = retry_loop (max_retries + 1) []
