-- ===== src/Logging/Laws.antt =====
-- Lemmas on the logger and on its adapter (controllers/logging).
use k8gb.Prelude.{
  ℕ, suc, ◌+◌, ◌*◌, ◌/◌, ◌≡◌, ◌≢◌, refl, ◌∙◌, arith, String, Bool, true, false, Option, some, List,
  [], ◌∷◌, drop, get_elem?, length, ltb,
}
use k8gb.Prelude.Dict.{Dict, insert}
use k8gb.Prelude.Positions.{get-drop, length-drop}
use k8gb.Effect.{Error, ok}
use k8gb.Depresolver.{Config, LogFormat}
use k8gb.Logging.{
  Argument, LogrAdapter, Logger, Singleton, error, error_events, format_or_simple, fresh_singleton,
  info, info_events, init, logger_for, values_loop, with_values,
}

module _ {A : Type 0} (sprint : Argument A → String) (marshal : Dict String → String) where
  -- The pairs of a list of arguments, one after the other; a last key without a value is left out.
  abbrev pub with_pairs : List (Argument A) → Dict String → Dict String
  with_pairs (key ∷ v ∷ rest) kv = with_pairs rest (insert (sprint key) (sprint v) kv)
  with_pairs _ kv = kv

  next_index : (i : ℕ) → i * 2 + 1 ≡ suc (i * 2)
  next_index i = omega arith

  next_pair : (i : ℕ) → (i + 1) * 2 ≡ suc (suc (i * 2))
  next_pair i = omega arith

  half : (n : ℕ) → suc (suc n) / 2 ≡ suc (n / 2)
  half n = omega arith

  pair_step :
      (args : List (Argument A)) (n i : ℕ) (kv : Dict String) {x y : Argument A}
      → get_elem? args (i * 2) ≡ some x
      → get_elem? args (i * 2 + 1) ≡ some y
      → ltb (length args) (i * 2 + 1) ≡ false
      → values_loop sprint marshal args (suc n) i kv
        ≡ values_loop sprint marshal args n (i + 1) (insert (sprint x) (sprint y) kv)
  unfolding values_loop
  pair_step args n i kv f s b = rw (f, values_loop, b, s) refl

  values_loop_lem :
      (args suf : List (Argument A)) (i : ℕ) (kv : Dict String)
      → drop (i * 2) args ≡ suf
      → values_loop sprint marshal args (length suf / 2) i kv ≡ ok (with_pairs suf kv)
  unfolding values_loop
  values_loop_lem args [] i kv h = refl
  values_loop_lem args (x ∷ []) i kv h = refl
  values_loop_lem args (x ∷ y ∷ rest) i kv h =
      let (first, d1) = get-drop (i * 2) args h in
      let (second, d2) = get-drop (suc (i * 2)) args d1 in
      rw (half (length rest)) (
        pair_step args (length rest / 2) i kv first (rw (next_index i) second)
          (ground (arith, length-drop (i * 2) args h))
        ∙ values_loop_lem args rest (i + 1) (insert (sprint x) (sprint y) kv) (rw (next_pair i) d2))

  with_values_lem :
      (a : LogrAdapter) (args : List (Argument A))
      → with_values sprint marshal a args
        ≡ ok (record a { keys_and_values = with_pairs args a.keys_and_values })
  unfolding with_values
  with_values_lem a args = rw (values_loop_lem args args 0 a.keys_and_values refl) refl

  abbrev pub adapter_with : LogrAdapter → List (Argument A) → LogrAdapter
  adapter_with a args = record a { keys_and_values = with_pairs args a.keys_and_values }

  -- `WithValues` never fails, and adds the pairs of its arguments, whose last one is left out where
  -- their number is odd. After that, `Info` and `Error` log the adapter's own pairs and leave it as it
  -- is: the arguments given to them are neither logged nor kept.
  pub with_values-info :
      (a : LogrAdapter) (args : List (Argument A)) (e : Option Error) (msg : String)
      (given : List A)
      → (with_values sprint marshal a args ≡ ok (adapter_with a args))
        × (info sprint marshal (adapter_with a args) msg given
            ≡ ok (adapter_with a args, info_events sprint marshal (adapter_with a args) msg))
        × (error sprint marshal (adapter_with a args) e msg given
            ≡ ok (adapter_with a args, error_events sprint marshal (adapter_with a args) e msg))
  unfolding info error
  with_values-info a args e msg given = (with_values_lem a args, refl, refl)

abbrev singleton : Bool → Logger → Singleton
singleton once log = record { once = once; log = log }

init_settled :
    (c later : Option Config) (once : Bool) (log : Logger)
    → init later (init c (singleton once log)).0 ≡ ((init c (singleton once log)).0, [])
unfolding init
init_settled c later true log = refl
init_settled c later false log = refl

logger_for-ne-silent :
    (f : LogFormat) (no_color : Bool)
    → logger_for (format_or_simple (some f)) no_color ≢ Logger.silent
logger_for-ne-silent f no_color = ground arith

-- Once
pub init_lem :
    (c later : Option Config) (s : Singleton) → init later (init c s).0 ≡ ((init c s).0, [])
unfolding init
init_lem c later s = init_settled c later s.once s.log

pub init-ne-silent : (c : Config) → (init (some c) fresh_singleton).0.log ≢ Logger.silent
unfolding init
init-ne-silent c = logger_for-ne-silent c.log.format c.log.no_color
