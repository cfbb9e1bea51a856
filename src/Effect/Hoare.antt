-- ===== src/Effect/Hoare.antt =====
-- Contracts of calls: what holds of the world after a call that returned, and what holds after one
-- that failed or panicked, which is the same predicate for all calls of a section.
use k8gb.Prelude.{Bool, true, false, if◌then◌else◌, ◌≡◌, refl}
use k8gb.Effect.{
  raise, Error, Outcome, ok, err, panicked, Run, continue, ◌>>=◌, settle, handle, lift, pure,
}
use k8gb.Effect.Keeps.{Keeps}

module _ {O : Type 0} (Safe : O → Type 0) where
  abbrev pub Post : {A : Type 0} → (A → O → Type 0) → Outcome A → O → Type 0
  Post Q (ok a) o = Q a o
  Post Q (err e) o = Safe o
  Post Q panicked o = Safe o

  lift_holds :
      {A : Type 0} (P : O → Type 0) (Q : A → O → Type 0) (r : Outcome A) (o : O)
      → (P o → Safe o)
      → ((a : A) → r ≡ ok a → P o → Q a o)
      → P o
      → Post Q r o
  lift_holds P Q (ok a) o s h p = h a refl p
  lift_holds P Q (err e) o s h p = s p
  lift_holds P Q panicked o s h p = s p

  kept :
      {A : Type 0} (P : O → Type 0) (r : Outcome A) (o : O)
      → (P o → Safe o)
      → P o
      → Post (λ _. P) r o
  kept P (ok a) o s p = p
  kept P (err e) o s p = s p
  kept P panicked o s p = s p

  implied :
      {A : Type 0} (Q R : A → O → Type 0) (r : Outcome A) (o : O)
      → ((a : A) → Q a o → R a o)
      → Post Q r o
      → Post R r o
  implied Q R (ok a) o h p = h a p
  implied Q R (err e) o h p = p
  implied Q R panicked o h p = p

module _ {W O : Type 0} (observe : W → O) (Safe : O → Type 0) where
  pub record Triple {A : Type 0} (P : O → Type 0) (m : Run W A) (Q : A → O → Type 0) : Type 0 where
    pub holds : (w : W) → P (observe w) → Post Safe Q (m w).0 (observe (m w).1)

module _ {W O : Type 0} {observe : W → O} {Safe : O → Type 0} where
  module _ {A : Type 0} {P : O → Type 0} {Q : A → O → Type 0} where
    pub pure-Triple : (a : A) → ((o : O) → P o → Q a o) → Triple observe Safe P (pure a) Q
    pure-Triple a h = record { holds = λ w. h (observe w) }

    pub lift-Triple :
        (r : Outcome A)
        → ((o : O) → P o → Safe o)
        → ((a : A) (o : O) → r ≡ ok a → P o → Q a o)
        → Triple observe Safe P (lift r) Q
    lift-Triple r s h = record {
      holds = λ w. lift_holds Safe P Q r (observe w) (s (observe w)) (λ a. h a (observe w));
    }

    pub raise-Triple : (e : Error) → ((o : O) → P o → Safe o) → Triple observe Safe P (raise e) Q
    raise-Triple e s = record { holds = λ w. s (observe w) }

    -- A fact that a call before has established.
    pub given-Triple :
        (F : Type 0) (m : Run W A)
        → (F → Triple observe Safe P m Q)
        → Triple observe Safe (λ o. P o × F) m Q
    given-Triple F m t = record { holds = λ w (p, f). (t f).holds w p }

    -- A call that leaves the world as it was, with what is known of its value.
    pub returns-Triple :
        (m : Run W A)
        → ((o : O) → P o → Safe o)
        → Keeps observe m
        → ((a : A) (w : W) → (m w).0 ≡ ok a → P (observe w) → Q a (observe w))
        → Triple observe Safe P m Q
    returns-Triple m s k h = record {
      holds = λ w p.
          rw (k.same w) (lift_holds Safe P Q (m w).0 (observe w) (s (observe w)) (λ a. h a w) p);
    }

    pub if-Triple :
        (b : Bool) (m n : Run W A)
        → (b ≡ true → Triple observe Safe P m Q)
        → (b ≡ false → Triple observe Safe P n Q)
        → Triple observe Safe P (if b then m else n) Q
    if-Triple true m n h k = h refl
    if-Triple false m n h k = k refl

    pub weaken-Triple :
        (P' : O → Type 0) (m : Run W A)
        → ((o : O) → P' o → P o)
        → Triple observe Safe P m Q
        → Triple observe Safe P' m Q
    weaken-Triple P' m h t = record { holds = λ w p. t.holds w (h (observe w) p) }

  module _ {A : Type 0} {P : O → Type 0} where
    pub imp-Triple :
        (Q R : A → O → Type 0) (m : Run W A)
        → ((a : A) (o : O) → Q a o → R a o)
        → Triple observe Safe P m Q
        → Triple observe Safe P m R
    imp-Triple Q R m h t = record {
      holds = λ w p. implied Safe Q R (m w).0 (observe (m w).1) (λ a. h a _) (t.holds w p);
    }

  module _ {A : Type 0} where
    pub keeps-Triple :
        (P : O → Type 0) (m : Run W A)
        → ((o : O) → P o → Safe o)
        → Keeps observe m
        → Triple observe Safe P m (λ _. P)
    keeps-Triple P m s k = record {
      holds = λ w p. rw (k.same w) (kept Safe P (m w).0 (observe w) (s (observe w)) p);
    }

  module _ {A B : Type 0} {R : B → O → Type 0} where
    continue_holds :
        (Q : A → O → Type 0) (r : Outcome A) (f : A → Run W B) (w : W)
        → ((a : A) → Triple observe Safe (Q a) (f a) R)
        → Post Safe Q r (observe w)
        → Post Safe R (continue r f w).0 (observe (continue r f w).1)
    continue_holds Q (ok a) f w t p = (t a).holds w p
    continue_holds Q (err e) f w t p = p
    continue_holds Q panicked f w t p = p

    settle_holds :
        (Q : A → O → Type 0) (r : Outcome A) (f : A → Run W B) (g : Error → Run W B) (w : W)
        → ((a : A) → Triple observe Safe (Q a) (f a) R)
        → ((e : Error) → Triple observe Safe Safe (g e) R)
        → Post Safe Q r (observe w)
        → Post Safe R (settle r f g w).0 (observe (settle r f g w).1)
    settle_holds Q (ok a) f g w t u p = (t a).holds w p
    settle_holds Q (err e) f g w t u p = (u e).holds w p
    settle_holds Q panicked f g w t u p = p

  module _ {A B : Type 0} {P : O → Type 0} {R : B → O → Type 0} where
    pub >>=-Triple :
        (Q : A → O → Type 0) (m : Run W A) (f : A → Run W B)
        → Triple observe Safe P m Q
        → ((a : A) → Triple observe Safe (Q a) (f a) R)
        → Triple observe Safe P (m >>= f) R
    >>=-Triple Q m f t u = record {
      holds = λ w p. continue_holds Q (m w).0 f (m w).1 u (t.holds w p);
    }

    pub handle-Triple :
        (Q : A → O → Type 0) (m : Run W A) (f : A → Run W B) (g : Error → Run W B)
        → Triple observe Safe P m Q
        → ((a : A) → Triple observe Safe (Q a) (f a) R)
        → ((e : Error) → Triple observe Safe Safe (g e) R)
        → Triple observe Safe P (handle m f g) R
    handle-Triple Q m f g t u v = record {
      holds = λ w p. settle_holds Q (m w).0 f g (m w).1 u v (t.holds w p);
    }
