-- ===== src/Effect/Laws.antt =====
-- Inversion of calls that returned without an error.
use k8gb.Prelude.{Bool, true, false, if◌then◌else◌, ◌⊎◌, inl, inr, ◌≡◌, refl, ap, arith}
use k8gb.Effect.{
  crash, pure, raise, Error, Outcome, ok, err, panicked, Run, continue, ◌>>=◌, settle, handle,
}

module _ {ℓ} {W A : Type ℓ} where
  pub pure-eq-ok : (a : A) (w : W) {b : A} {w' : W} → pure a w ≡ (ok b, w') → a ≡ b
  pure-eq-ok a w h = cc

  pub raise-ne-ok : (e : Error) (w : W) {b : A} {w' : W} → ¬ (raise e w ≡ (ok b, w'))
  raise-ne-ok e w h = ground arith

  pub crash-ne-ok : (w : W) {b : A} {w' : W} → ¬ (crash w ≡ (ok b, w'))
  crash-ne-ok w h = ground arith

  -- A block that branches returned by one of its branches.
  pub if-eq-ok :
      (b : Bool) (m n : Run W A) (w : W) {a : A} {w' : W}
      → (if b then m else n) w ≡ (ok a, w')
      → ((b ≡ true) × (m w ≡ (ok a, w'))) ⊎ ((b ≡ false) × (n w ≡ (ok a, w')))
  if-eq-ok true m n w h = inl (refl, h)
  if-eq-ok false m n w h = inr (refl, h)

  pub if-eq-err :
      (b : Bool) (m n : Run W A) (w : W) {e : Error} {w' : W}
      → (if b then m else n) w ≡ (err e, w')
      → ((b ≡ true) × (m w ≡ (err e, w'))) ⊎ ((b ≡ false) × (n w ≡ (err e, w')))
  if-eq-err true m n w h = inl (refl, h)
  if-eq-err false m n w h = inr (refl, h)

  -- A run whose outcome is known, with the world it leaves.
  pub run-eq-ok : (m : Run W A) (w : W) {a : A} → (m w).0 ≡ ok a → m w ≡ (ok a, (m w).1)
  run-eq-ok m w e = ap (λ r. (r, (m w).1)) e

module _ {ℓ} {W A B : Type ℓ} where
  continue-eq-ok :
      (r : Outcome A) (f : A → Run W B) (w : W) {b : B} {w' : W}
      → continue r f w ≡ (ok b, w')
      → (a : A) × (r ≡ ok a) × (f a w ≡ (ok b, w'))
  continue-eq-ok (ok a) f w h = (a, refl, h)
  continue-eq-ok (err e) f w h = ground arith
  continue-eq-ok panicked f w h = ground arith

  -- A block that returned a value made its first call with success, and went on from there.
  pub >>=-eq-ok :
      (m : Run W A) (f : A → Run W B) (w : W) {b : B} {w' : W}
      → (m >>= f) w ≡ (ok b, w')
      → (a : A) × ((m w).0 ≡ ok a) × (f a (m w).1 ≡ (ok b, w'))
  >>=-eq-ok m f w h = continue-eq-ok (m w).0 f (m w).1 h

  continue-eq-err :
      (r : Outcome A) (f : A → Run W B) (w : W) {x : Error} {w' : W}
      → continue r f w ≡ (err x, w')
      → ((r ≡ err x) × (w ≡ w')) ⊎ ((a : A) × (r ≡ ok a) × (f a w ≡ (err x, w')))
  continue-eq-err (ok a) f w h = inr (a, refl, h)
  continue-eq-err (err e) f w h = inl (cc, cc)
  continue-eq-err panicked f w h = absurd (ground arith)

  -- A block that returned an error: its first call did, or the code after it.
  pub >>=-eq-err :
      (m : Run W A) (f : A → Run W B) (w : W) {x : Error} {w' : W}
      → (m >>= f) w ≡ (err x, w')
      → (m w ≡ (err x, w')) ⊎ ((a : A) × (v : W) × (m w ≡ (ok a, v)) × (f a v ≡ (err x, w')))
  >>=-eq-err m f w h = elim (continue-eq-err (m w).0 f (m w).1 h) [
    | inl (e, s) ↦ inl (λ i. (e i, s i))
    | inr (a, e, h') ↦ inr (a, (m w).1, run-eq-ok m w e, h')
  ]

  -- A call that returns, and the code after it.
  pub >>=-of_ok :
      (m : Run W A) (f : A → Run W B) (w : W) {a : A} {v : W} {r : Outcome B × W}
      → m w ≡ (ok a, v)
      → f a v ≡ r
      → (m >>= f) w ≡ r
  >>=-of_ok m f w e h = rw e h

  pub >>=-after_ok :
      (m : Run W A) (f : A → Run W B) (w : W) {a : A} {v : W} {r : Outcome B × W}
      → m w ≡ (ok a, v)
      → (m >>= f) w ≡ r
      → f a v ≡ r
  >>=-after_ok m f w e h = rw e at h

  settle-eq-ok :
      (r : Outcome A) (f : A → Run W B) (g : Error → Run W B) (w : W) {b : B} {w' : W}
      → settle r f g w ≡ (ok b, w')
      → ((a : A) × (r ≡ ok a) × (f a w ≡ (ok b, w')))
        ⊎ ((e : Error) × (r ≡ err e) × (g e w ≡ (ok b, w')))
  settle-eq-ok (ok a) f g w h = inl (a, refl, h)
  settle-eq-ok (err e) f g w h = inr (e, refl, h)
  settle-eq-ok panicked f g w h = ground arith

  -- A call whose error is looked at went on from its value or from its error.
  pub handle-eq-ok :
      (m : Run W A) (f : A → Run W B) (g : Error → Run W B) (w : W) {b : B} {w' : W}
      → handle m f g w ≡ (ok b, w')
      → ((a : A) × ((m w).0 ≡ ok a) × (f a (m w).1 ≡ (ok b, w')))
        ⊎ ((e : Error) × ((m w).0 ≡ err e) × (g e (m w).1 ≡ (ok b, w')))
  handle-eq-ok m f g w h = settle-eq-ok (m w).0 f g (m w).1 h
