-- ===== src/Depresolver/Spec/Laws.antt =====
-- Lemmas on `resolve_gslb_spec` (controllers/depresolver/depresolver_spec.go).
use mathlib.Core.Logic.{ite}
use k8gb.Prelude.{
  List, [], ◌∷◌, All, All-imp, map, ℕ, suc, String, ◌∙◌, ap, ◌≡◌, ◌↔◌, refl, sym, arith, inl, inr,
  Bool, true, Option, none, some, ◌&&◌,
}
use k8gb.Prelude.Int.{ℤ, pos, negsuc, leb_ℤ, ltb_ℤ}
use k8gb.Effect.{ok, Run, pure, Error, ◌>>=◌}
use k8gb.Effect.Laws.{handle-eq-ok, pure-eq-ok}
use k8gb.Api.{Gslb, GslbSpec, Strategy}
use k8gb.Api.Equality.{GslbSpec-discrete}
use k8gb.Cluster.{Client}
use k8gb.Depresolver.{DependencyResolver}
use k8gb.Depresolver.Validation.{◌⨾◌}
use k8gb.Depresolver.Validation.Fields.{not_negative_iff}
use k8gb.Depresolver.Validator.{Value, field, is_higher_or_equal_to_zero}
use k8gb.Depresolver.Spec.{
  Resolved, default_if_zero, resolve_gslb_spec, save, defaulted, validate_spec, with_defaults,
}

and-left : (a b : Bool) → (a && b) ≡ true → a ≡ true
and-left a b h = ground arith

and-right : (a b : Bool) → (a && b) ≡ true → b ≡ true
and-right a b h = ground arith

leb-default_if_zero : (d : ℕ) (v : ℤ) → leb_ℤ (pos 0) (default_if_zero (pos d) v) ≡ leb_ℤ (pos 0) v
leb-default_if_zero d (pos n) = ground arith
leb-default_if_zero d (negsuc n) = ground arith

ltb-default_if_zero :
    (d : ℕ) (v : ℤ)
    → leb_ℤ (pos 0) v ≡ true
    → ltb_ℤ (pos 0) (default_if_zero (pos (suc d)) v) ≡ true
ltb-default_if_zero d (pos n) h = ground arith
ltb-default_if_zero d (negsuc n) h = ground arith

abbrev not_negative : String → ℤ → Option Error
not_negative name v = (is_higher_or_equal_to_zero (field name (Value.int_value v))).err

time_iff : (name : String) (v : ℤ) → (not_negative name v ≡ none) ↔ (leb_ℤ (pos 0) v ≡ true)
time_iff name v = not_negative_iff name v

both_iff :
    (a b : Option Error) (p q : Bool)
    → (a ≡ none) ↔ (p ≡ true)
    → (b ≡ none) ↔ (q ≡ true)
    → ((a ⨾ b) ≡ none) ↔ ((p && q) ≡ true)
both_iff none b p q (f, g) (h, k) = ground arith
both_iff (some e) b p q (f, g) (h, k) = ground arith

valid_iff :
    (s : Strategy)
    → (validate_spec (with_defaults s) ≡ none)
      ↔ ((leb_ℤ (pos 0) s.dns_ttl_seconds && leb_ℤ (pos 0) s.split_brain_threshold_seconds) ≡ true)
unfolding validate_spec with_defaults
valid_iff s =
    rw
      (
        leb-default_if_zero 30 s.dns_ttl_seconds,
        leb-default_if_zero 300 s.split_brain_threshold_seconds,
      )
      at
      (both_iff _ _ _ _ (time_iff "DNSTtlSeconds" (with_defaults s).dns_ttl_seconds)
        (time_iff "SplitBrainThresholdSeconds" (with_defaults s).split_brain_threshold_seconds))

positive :
    (s : Strategy)
    → (leb_ℤ (pos 0) s.dns_ttl_seconds && leb_ℤ (pos 0) s.split_brain_threshold_seconds) ≡ true
    → (ltb_ℤ (pos 0) (with_defaults s).dns_ttl_seconds
        && ltb_ℤ (pos 0) (with_defaults s).split_brain_threshold_seconds)
      ≡ true
unfolding with_defaults
positive s h =
    rw
      (
        ltb-default_if_zero 29 s.dns_ttl_seconds
            (and-left _ (leb_ℤ (pos 0) s.split_brain_threshold_seconds) h),
        ltb-default_if_zero 299 s.split_brain_threshold_seconds
            (and-right (leb_ℤ (pos 0) s.dns_ttl_seconds) _ h),
      )
      refl

-- A specification is valid with the defaults set just if its two times are not negative, and then
-- both are positive.
pub validate_spec-with_defaults :
    (s : Strategy)
    → ((validate_spec (with_defaults s) ≡ none) ↔ (
        (leb_ℤ (pos 0) s.dns_ttl_seconds && leb_ℤ (pos 0) s.split_brain_threshold_seconds) ≡ true))
      × (validate_spec (with_defaults s) ≡ none
          → (ltb_ℤ (pos 0) (with_defaults s).dns_ttl_seconds
              && ltb_ℤ (pos 0) (with_defaults s).split_brain_threshold_seconds)
            ≡ true)
validate_spec-with_defaults s = let i = valid_iff s in (i, λ h. positive s (i.0 h))

module _ {W : Type 0} (client : Client W) where
  save-spec :
      (dr : DependencyResolver) (g : Gslb) (e : Option Error) (w : W) {r : Resolved} {w' : W}
      → save client dr g e w ≡ (ok r, w')
      → (r.resolver.spec ≡ r.gslb.spec) × (r.resolver.error_spec ≡ r.error)
  save-spec dr g (some e) w h = rw (sym (pure-eq-ok _ w h)) (refl, refl)
  save-spec dr g none w h = elim (handle-eq-ok (client.update_gslb g) _ _ w h) [
    | inl (g', _, h') ↦ rw (sym (pure-eq-ok _ _ h')) (refl, refl)
    | inr (e, _, h') ↦ rw (sym (pure-eq-ok _ _ h')) (refl, refl)
  ]

  same_spec : {A : Type 0} (s t : GslbSpec) (x y : A) → s ≡ t → ite (GslbSpec-discrete s t) x y ≡ x
  same_spec s t x y e = elim (GslbSpec-discrete s t) as (λ d. ite d x y ≡ x) [
    | yes p ↦ refl
    | no n ↦ absurd (n e)
  ]

  resolved-spec :
      (dr : DependencyResolver) (g : Gslb) (d : Dec (g.spec ≡ dr.spec)) (w : W) {r : Resolved}
      {w' : W}
      → ite d
          (pure (record { resolver = dr; gslb = g; error = dr.error_spec }))
          (save client dr (defaulted g) (validate_spec (defaulted g).spec.strategy))
          w
        ≡ (ok r, w')
      → (r.resolver.spec ≡ r.gslb.spec) × (r.resolver.error_spec ≡ r.error)
  resolved-spec dr g (yes p) w h = rw (sym (pure-eq-ok _ w h)) (sym p, refl)
  resolved-spec dr g (no n) w h = save-spec dr (defaulted g) _ w h

  resolve_again :
      (dr : DependencyResolver) (again : Gslb) (v : W)
      → again.spec ≡ dr.spec
      → resolve_gslb_spec dr again (some client) v
        ≡ (ok (record { resolver = dr; gslb = again; error = dr.error_spec }), v)
  unfolding resolve_gslb_spec
  resolve_again dr again v same =
      ap {A = Run W Resolved} (λ m. m v) (same_spec again.spec _ _ _ same)

  -- One call after the other, each with the resolver that the call before it has left, and the errors
  -- that they return.
  abbrev pub resolve_each :
      DependencyResolver → List Gslb → Run W (DependencyResolver × List (Option Error))
  resolve_each dr [] = pure (dr, [])
  resolve_each dr (g ∷ gs) = do
    resolved ← resolve_gslb_spec dr g (some client)
    (dr', errors) ← resolve_each resolved.resolver gs
    pure (dr', resolved.error ∷ errors)

  resolve_each_again :
      (dr : DependencyResolver) (gs : List Gslb) (v : W)
      → All (λ g. g.spec ≡ dr.spec) gs
      → resolve_each dr gs v ≡ (ok (dr, map (λ _. dr.error_spec) gs), v)
  resolve_each_again dr [] v _ = refl
  resolve_each_again dr (g ∷ gs) v (same, all) =
      rw (resolve_again dr g v same, resolve_each_again dr gs v all) refl

  -- After a specification has been resolved, with an error or without, any number of calls that
  -- follow directly, for Gslbs of that same specification, all give the same error again, leave the
  -- resolver as it is and do not call the API server.
  pub resolve_gslb_spec_again :
      (dr : DependencyResolver) (g : Gslb) (gs : List Gslb) (w v : W) {r : Resolved} {w' : W}
      → resolve_gslb_spec dr g (some client) w ≡ (ok r, w')
      → All (λ again. again.spec ≡ r.gslb.spec) gs
      → resolve_each r.resolver gs v ≡ (ok (r.resolver, map (λ _. r.error) gs), v)
  unfolding resolve_gslb_spec
  resolve_gslb_spec_again dr g gs w v {r} h same =
      let (kept, sticks) = resolved-spec dr g (GslbSpec-discrete g.spec dr.spec) w h in
      resolve_each_again r.resolver gs v (
        All-imp (λ a. a.spec ≡ r.gslb.spec) (λ a. a.spec ≡ r.resolver.spec) gs (λ a e. e ∙ sym kept)
          same)
      ∙ ap (λ e. (ok (r.resolver, map (λ _. e) gs), v)) sticks
