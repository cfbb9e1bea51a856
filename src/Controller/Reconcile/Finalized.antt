-- ===== src/Controller/Reconcile/Finalized.antt =====
-- Lemmas on `delete_gslb` (controllers/gslb_controller.go).
use k8gb.Prelude.{
  ◌≡◌, refl, sym, ap, ◌∙◌, inl, inr, arith, String, false, List, [], ◌∷◌, ◌==◌, Bool-cases,
}
use k8gb.Effect.{Outcome, ok, lift}
use k8gb.Effect.Laws.{>>=-eq-ok, if-eq-ok, pure-eq-ok, run-eq-ok}
use k8gb.Api.{Gslb}
use k8gb.Cluster.{Client}
use k8gb.Controller.Finalizers.{contains, gslb_finalizer, legacy_finalizer, remove, with_finalizers}
use k8gb.Controller.Finalizers.Removal.{AtMostOnce, remove-eq-filter, without, without_absent}
use k8gb.Controller.Reconcile.{delete_gslb, finalize_loop}
use k8gb.Controller.Reconcile.Deletion.{KeepsFinalizers}
use k8gb.Dns.{Provider}

contains-without :
    (s t : String) (xs : List String) → contains xs t ≡ false → contains (without s xs) t ≡ false
unfolding contains
contains-without s t [] h = refl
contains-without s t (x ∷ xs) h = ground (arith, contains-without s t xs)

ok-eq : (a b : List String) → ◌≡◌ {A = Outcome (List String)} (ok a) (ok b) → a ≡ b
ok-eq a b h = cc

AtMostOnce-without :
    (s t : String) (xs : List String) → AtMostOnce t xs → AtMostOnce t (without s xs)
AtMostOnce-without s t [] _ = tt
AtMostOnce-without s t (x ∷ xs) (first, others) = elim (Bool-cases (x == s)) [
  | inl e ↦ rw e (AtMostOnce-without s t xs others)
  | inr e ↦ rw e (λ h. contains-without s t xs (first h), AtMostOnce-without s t xs others)
]

module _ {W : Type 0} (client : Client W) (provider : Provider W) where
  finalize_step :
      (f : String) (fs : List String) (gslb : Gslb) (w : W) {g' : Gslb} {w' : W}
      → KeepsFinalizers client
      → AtMostOnce f gslb.meta.finalizers
      → finalize_loop client provider (f ∷ fs) gslb w ≡ (ok g', w')
      → (g1 : Gslb) × (w1 : W) × (finalize_loop client provider fs g1 w1 ≡ (ok g', w'))
        × (g1.meta.finalizers ≡ without f gslb.meta.finalizers)
  unfolding finalize_loop
  finalize_step f fs gslb w keeps once h =
      elim (if-eq-ok (contains gslb.meta.finalizers f) _ _ w h) [
        | inl (_, h1) ↦
            (let (_, _, h2) = >>=-eq-ok (provider.finalize gslb) _ w h1 in
              let (kept, e3, h3) = >>=-eq-ok (lift (remove gslb.meta.finalizers f)) _ _ h2 in
              let (g1, e4, h4) =
                >>=-eq-ok (client.update_gslb (with_finalizers gslb kept)) _ _ h3 in
              (
                g1,
                _,
                h4,
                keeps (with_finalizers gslb kept) _ g1 _
                      (run-eq-ok (client.update_gslb (with_finalizers gslb kept)) _ e4)
                    ∙ ok-eq _ _ (sym e3 ∙ remove-eq-filter f gslb.meta.finalizers once),
              ))
        | inr (e, h1) ↦ (gslb, w, h1, sym (without_absent f gslb.meta.finalizers e))
      ]

  -- With an API server that keeps the finalizers of an update, and on a Gslb that bears each of k8gb's
  -- two finalizers at most once, a deletion that succeeds leaves exactly the other finalizers, in
  -- their order.
  pub delete_gslb-finalizers :
      (gslb : Gslb) (w : W) {g' : Gslb} {w' : W}
      → KeepsFinalizers client
      → AtMostOnce gslb_finalizer gslb.meta.finalizers
      → AtMostOnce legacy_finalizer gslb.meta.finalizers
      → delete_gslb client provider gslb w ≡ (ok g', w')
      → g'.meta.finalizers ≡ without legacy_finalizer (without gslb_finalizer gslb.meta.finalizers)
  unfolding delete_gslb finalize_loop
  delete_gslb-finalizers gslb w keeps once_new once_old h =
      let (g1, w1, h1, e1) =
        finalize_step gslb_finalizer (legacy_finalizer ∷ []) gslb w keeps once_new h in
      let (g2, w2, h2, e2) =
        finalize_step legacy_finalizer [] g1 w1 keeps
          (rw e1 (AtMostOnce-without gslb_finalizer legacy_finalizer gslb.meta.finalizers once_old))
          h1 in
      ap (λ g. g.meta.finalizers) (sym (pure-eq-ok g2 w2 h2))
      ∙ e2
      ∙ ap (without legacy_finalizer) e1
