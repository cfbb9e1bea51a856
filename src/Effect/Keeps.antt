-- ===== src/Effect/Keeps.antt =====
-- Calls that leave what is observed of the world as it was, whatever their outcome.
use k8gb.Prelude.{Bool, true, false, if◌then◌else◌, ◌≡◌, refl, ◌∙◌}
use k8gb.Effect.{
  Error, Outcome, ok, err, panicked, Run, continue, ◌>>=◌, settle, handle, lift, pure, raise, crash,
}

pub record Keeps {W O A : Type 0} (observe : W → O) (m : Run W A) : Type 0 where
  pub same : (w : W) → observe (m w).1 ≡ observe w

module _ {W O : Type 0} {observe : W → O} where
  module _ {A : Type 0} where
    pub pure-Keeps : (a : A) → Keeps observe (pure a)
    pure-Keeps a = record { same = λ w. refl }

    pub lift-Keeps : (r : Outcome A) → Keeps observe (lift r)
    lift-Keeps r = record { same = λ w. refl }

    pub if-Keeps :
        (b : Bool) (m n : Run W A)
        → Keeps observe m
        → Keeps observe n
        → Keeps observe (if b then m else n)
    if-Keeps true m n k l = k
    if-Keeps false m n k l = l

    pub raise-Keeps : (e : Error) → Keeps {A = A} observe (raise e)
    raise-Keeps e = record { same = λ w. refl }

    pub crash-Keeps : Keeps {A = A} observe crash
    crash-Keeps = record { same = λ w. refl }

  module _ {A B : Type 0} where
    continue-Keeps :
        (r : Outcome A) (f : A → Run W B)
        → ((a : A) → Keeps observe (f a))
        → (w : W) → observe (continue r f w).1 ≡ observe w
    continue-Keeps (ok a) f k w = (k a).same w
    continue-Keeps (err e) f k w = refl
    continue-Keeps panicked f k w = refl

    pub >>=-Keeps :
        (m : Run W A) (f : A → Run W B)
        → Keeps observe m
        → ((a : A) → Keeps observe (f a))
        → Keeps observe (m >>= f)
    >>=-Keeps m f k l = record { same = λ w. continue-Keeps (m w).0 f l (m w).1 ∙ k.same w }

    settle-Keeps :
        (r : Outcome A) (f : A → Run W B) (g : Error → Run W B)
        → ((a : A) → Keeps observe (f a))
        → ((e : Error) → Keeps observe (g e))
        → (w : W) → observe (settle r f g w).1 ≡ observe w
    settle-Keeps (ok a) f g k l w = (k a).same w
    settle-Keeps (err e) f g k l w = (l e).same w
    settle-Keeps panicked f g k l w = refl

    pub handle-Keeps :
        (m : Run W A) (f : A → Run W B) (g : Error → Run W B)
        → Keeps observe m
        → ((a : A) → Keeps observe (f a))
        → ((e : Error) → Keeps observe (g e))
        → Keeps observe (handle m f g)
    handle-Keeps m f g j k l = record {
      same = λ w. settle-Keeps (m w).0 f g k l (m w).1 ∙ j.same w;
    }

    settle-Keeps_of :
        (r : Outcome A) (f : A → Run W B) (g : Error → Run W B)
        → ((a : A) → r ≡ ok a → Keeps observe (f a))
        → ((e : Error) → Keeps observe (g e))
        → (w : W) → observe (settle r f g w).1 ≡ observe w
    settle-Keeps_of (ok a) f g k l w = (k a refl).same w
    settle-Keeps_of (err e) f g k l w = (l e).same w
    settle-Keeps_of panicked f g k l w = refl

    -- Where what is known of the value matters for the code after it.
    pub handle-Keeps_of :
        (m : Run W A) (f : A → Run W B) (g : Error → Run W B)
        → Keeps observe m
        → ((a : A) (w : W) → (m w).0 ≡ ok a → Keeps observe (f a))
        → ((e : Error) → Keeps observe (g e))
        → Keeps observe (handle m f g)
    handle-Keeps_of m f g j k l = record {
      same = λ w. settle-Keeps_of (m w).0 f g (λ a. k a w) l (m w).1 ∙ j.same w;
    }
