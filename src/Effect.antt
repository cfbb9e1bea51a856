-- ===== src/Effect.antt =====
-- Go functions that return an error, may panic, and act on the world outside (the API server, name
-- servers, Infoblox, the clock): a function of the world to an outcome and the world after it.
-- What was done before an error stays done, so the world comes back beside every outcome.
pub mod Laws
pub mod Keeps
pub mod Hoare
use k8gb.Prelude.{String, List, [], ◌∷◌, Bool, true, false}

-- The first three are apimachinery's status errors, which the code tells apart by `IsNotFound`,
-- `IsConflict` and `NewResourceExpired`. `errorf` is `fmt.Errorf` or `errors.New`: the format and
-- its arguments, not put together. `external` is any other error of code outside the repository.
pub data Error : Type 0 where
  not_found conflict resource_expired : Error
  errorf : String → List String → Error
  external : String → Error

abbrev pub is_not_found : Error → Bool
is_not_found Error.not_found = true
is_not_found _ = false

abbrev pub is_conflict : Error → Bool
is_conflict Error.conflict = true
is_conflict _ = false

-- `panicked` is a run-time panic: a nil dereference, a failed type assertion, an index out of range.
pub data Outcome {ℓ} (A : Type ℓ) : Type ℓ where
  ok : A → Outcome A
  err : Error → Outcome A
  panicked : Outcome A

abbrev pub Run {ℓ} : Type ℓ → Type ℓ → Type ℓ
Run W A = W → Outcome A × W

module _ {ℓ} {W A : Type ℓ} where
  abbrev pub pure : A → Run W A
  pure a w = (ok a, w)

  abbrev pub raise : Error → Run W A
  raise e w = (err e, w)

  abbrev pub crash : Run W A
  crash w = (panicked, w)

  -- A computation that does not act on the world.
  abbrev pub lift : Outcome A → Run W A
  lift r w = (r, w)

module _ {ℓ} {W A B : Type ℓ} where
  abbrev pub continue : Outcome A → (A → Run W B) → Run W B
  continue (ok a) f w = f a w
  continue (err e) f w = (err e, w)
  continue panicked f w = (panicked, w)

  infixl 10 ◌>>=◌ ◌>>◌
  -- `if err != nil { return err }` after a call
  abbrev pub ◌>>=◌ : Run W A → (A → Run W B) → Run W B
  ◌>>=◌ m f w = continue (m w).0 f (m w).1

  abbrev pub ◌>>◌ : Run W A → Run W B → Run W B
  m >> n = m >>= λ _. n

  abbrev pub settle : Outcome A → (A → Run W B) → (Error → Run W B) → Run W B
  settle (ok a) f g w = f a w
  settle (err e) f g w = g e w
  settle panicked f g w = (panicked, w)

  -- A call whose error the code looks at, with the code after it for either case.
  abbrev pub handle : Run W A → (A → Run W B) → (Error → Run W B) → Run W B
  handle m f g w = settle (m w).0 f g (m w).1
